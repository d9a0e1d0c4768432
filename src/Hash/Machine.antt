-- ===== src/Hash/Machine.antt =====
-- `randomx_vm` of src/algo/randomx/virtual_machine.hpp with the bytecode of vm_interpreted.hpp, and the
-- bytes of `Program` (program.hpp) and `RegisterFile` (common.hpp).
use nminer.Prelude.{ℕ, zero, suc, ◌+◌, ◌*◌, List, [], ◌∷◌, Bool, if◌then◌else◌}
use nminer.Vm.Config.{program_size_v1, program_size_v2}
use nminer.Vm.Machine.{read_bytes}
use nminer.Vm.Instruction.{Instruction}
use nminer.Vm.Bytecode.{InstructionByteCode}
use nminer.Vm.Initial.{Initial}

-- `program`, `reg` and `scratchpad` are bytes. `config` is what `initialize` wrote: the configuration
-- and the offset into the dataset. `flag_v2` is RANDOMX_FLAG_V2, and `rounding` the thread's rounding mode.
pub record RandomxVm : Type 0 where
  pub program : ℕ → ℕ
  pub reg : ℕ → ℕ
  pub config : Initial
  pub mx : ℕ
  pub ma : ℕ
  pub flag_v2 : Bool
  pub scratchpad : ℕ → ℕ
  pub bytecode : List InstructionByteCode
  pub rounding : ℕ

-- sizeof(Program): 16 words of entropy and RANDOMX_PROGRAM_MAX_SIZE instructions.
abbrev pub sizeof_program : ℕ
sizeof_program = 16 * 8 + program_size_v2 * 8

abbrev pub sizeof_register_file : ℕ
sizeof_register_file = 256

-- Where the groups of registers start in the register file.
abbrev pub r_offset : ℕ
r_offset = 0

abbrev pub f_offset : ℕ
f_offset = 64

abbrev pub e_offset : ℕ
e_offset = 128

abbrev pub a_offset : ℕ
a_offset = 192

unfoldable pub get_entropy : (ℕ → ℕ) → ℕ → ℕ
unfolding read_bytes
get_entropy program i = read_bytes 8 program (8 * i)

unfoldable pub get_size : Bool → ℕ
get_size flag_v2 = if flag_v2 then program_size_v2 else program_size_v1

-- programBuffer[i]
unfoldable pub instruction_at : (ℕ → ℕ) → ℕ → Instruction
unfolding read_bytes
instruction_at program i = record {
  opcode = program (128 + 8 * i);
  dst = program (128 + 8 * i + 1);
  src = program (128 + 8 * i + 2);
  mod_byte = program (128 + 8 * i + 3);
  imm32 = read_bytes 4 program (128 + 8 * i + 4);
}

-- The bytes from an address on, which a hash function takes.
unfoldable pub bytes_at : ℕ → (ℕ → ℕ) → ℕ → List ℕ
bytes_at zero mem addr = []
bytes_at (suc n) mem addr = mem addr ∷ bytes_at n mem (addr + 1)
