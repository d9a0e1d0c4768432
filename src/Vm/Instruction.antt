-- ===== src/Vm/Instruction.antt =====
-- `Instruction` and `InstructionType` of src/algo/randomx/instruction.hpp.
use nminer.Prelude.{ℕ, ◌/◌, ◌%◌, ◌<◌, ◌^◌}

pub data InstructionType : Type 0 where
  iadd_rs iadd_m isub_r isub_m imul_r imul_m imulh_r imulh_m : InstructionType
  ismulh_r ismulh_m imul_rcp ineg_r ixor_r ixor_m iror_r irol_r : InstructionType
  iswap_r fswap_r fadd_r fadd_m fsub_r fsub_m fscal_r fmul_r : InstructionType
  fdiv_m fsqrt_r cbranch cfround istore nop : InstructionType

-- The values of the enumeration.
unfoldable pub type_value : InstructionType → ℕ
type_value iadd_rs = 0
type_value iadd_m = 1
type_value isub_r = 2
type_value isub_m = 3
type_value imul_r = 4
type_value imul_m = 5
type_value imulh_r = 6
type_value imulh_m = 7
type_value ismulh_r = 8
type_value ismulh_m = 9
type_value imul_rcp = 10
type_value ineg_r = 11
type_value ixor_r = 12
type_value ixor_m = 13
type_value iror_r = 14
type_value irol_r = 15
type_value iswap_r = 16
type_value fswap_r = 17
type_value fadd_r = 18
type_value fadd_m = 19
type_value fsub_r = 20
type_value fsub_m = 21
type_value fscal_r = 22
type_value fmul_r = 23
type_value fdiv_m = 24
type_value fsqrt_r = 25
type_value cbranch = 26
type_value cfround = 27
type_value istore = 28
type_value nop = 29

pub record Instruction : Type 0 where
  pub opcode : ℕ
  pub dst : ℕ
  pub src : ℕ
  pub mod_byte : ℕ
  pub imm32 : ℕ

unfoldable pub get_mod_mem : Instruction → ℕ
get_mod_mem instr = instr.mod_byte % 4

unfoldable pub get_mod_shift : Instruction → ℕ
get_mod_shift instr = instr.mod_byte / 4 % 4

unfoldable pub get_mod_cond : Instruction → ℕ
get_mod_cond instr = instr.mod_byte / 16

-- Each field fits its C type.
pub record IsInstruction (instr : Instruction) : Type 0 where
  pub opcode_fits : instr.opcode < 256
  pub dst_fits : instr.dst < 256
  pub src_fits : instr.src < 256
  pub mod_fits : instr.mod_byte < 256
  pub imm32_fits : instr.imm32 < 2 ^ 32
