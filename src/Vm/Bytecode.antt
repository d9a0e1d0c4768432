-- ===== src/Vm/Bytecode.antt =====
-- The bytecode of src/algo/randomx/bytecode_machine.hpp: what an instruction compiles to, and what
-- the compiler keeps between instructions.
pub mod Compile
pub mod Executable
use nminer.Prelude.{ℕ, ◌<◌, ◌==◌, Option, none, some, if◌then◌else◌}
use nminer.Vm.Instruction.{InstructionType}

-- Where a pointer of an instruction points: at an integer register, a register of the groups f, e
-- or a, the constant `zero`, or the instruction's own immediate.
pub data Operand : Type 0 where
  int_reg f_reg e_reg a_reg : ℕ → Operand
  zero_const own_imm : Operand

-- `idst` and `fdst` share storage, as do `isrc` and `fsrc`: an operand says which was written. The
-- union of `target` and `shift` is two fields, since each instruction reads the one that it wrote.
-- A target of `none` is -1.
pub record InstructionByteCode : Type 0 where
  pub dst : Operand
  pub src : Operand
  pub imm : ℕ
  pub type : InstructionType
  pub target : Option ℕ
  pub shift : ℕ
  pub mem_mask : ℕ

-- `registerUsage`: the index of the last instruction that changed each register; `none` is -1.
abbrev pub RegisterUsage : Type 0
RegisterUsage = ℕ → Option ℕ

abbrev pub mark : RegisterUsage → ℕ → ℕ → RegisterUsage
mark usage register i j = if register == j then some i else usage j

-- What `compileInstruction` writes: the entry of the bytecode and the register usage.
pub record Compiled : Type 0 where
  pub ibc : InstructionByteCode
  pub usage : RegisterUsage
