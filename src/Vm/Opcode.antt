-- ===== src/Vm/Opcode.antt =====
-- Which instruction an opcode byte stands for: the frequencies of configuration.h, the ceilings of
-- bytecode_machine.hpp, and the ladder of tests in `BytecodeMachine::compileInstruction`.
pub mod Laws
use nminer.Prelude.{
  ℕ, zero, suc, ◌+◌, ◌<◌, List, [], ◌∷◌, Bool, true, false, Option, none, some, ◌≡◌, refl, ltb,
  if◌then◌else◌,
}
use nminer.Vm.Instruction.{
  InstructionType, Instruction, iadd_rs, iadd_m, isub_r, isub_m, imul_r, imul_m, imulh_r, imulh_m,
  ismulh_r, ismulh_m, imul_rcp, ineg_r, ixor_r, ixor_m, iror_r, irol_r, iswap_r, fswap_r, fadd_r,
  fadd_m, fsub_r, fsub_m, fscal_r, fmul_r, fdiv_m, fsqrt_r, cbranch, cfround, istore, nop,
}

-- RANDOMX_FREQ_*: how many of the 256 opcodes an instruction has.
unfoldable pub frequency : InstructionType → ℕ
frequency iadd_rs = 16
frequency iadd_m = 7
frequency isub_r = 16
frequency isub_m = 7
frequency imul_r = 16
frequency imul_m = 4
frequency imulh_r = 4
frequency imulh_m = 1
frequency ismulh_r = 4
frequency ismulh_m = 1
frequency imul_rcp = 8
frequency ineg_r = 2
frequency ixor_r = 15
frequency ixor_m = 5
frequency iror_r = 8
frequency irol_r = 2
frequency iswap_r = 4
frequency fswap_r = 4
frequency fadd_r = 16
frequency fadd_m = 5
frequency fsub_r = 16
frequency fsub_m = 5
frequency fscal_r = 6
frequency fmul_r = 32
frequency fdiv_m = 4
frequency fsqrt_r = 6
frequency cbranch = 25
frequency cfround = 1
frequency istore = 16
frequency nop = 0

-- The instructions in the order of the ladder.
abbrev pub all_types : List InstructionType
all_types =
    iadd_rs ∷ iadd_m ∷ isub_r ∷ isub_m ∷ imul_r ∷ imul_m ∷ imulh_r ∷ imulh_m ∷ ismulh_r ∷ ismulh_m
    ∷ imul_rcp ∷ ineg_r ∷ ixor_r ∷ ixor_m ∷ iror_r ∷ irol_r ∷ iswap_r ∷ fswap_r ∷ fadd_r ∷ fadd_m
    ∷ fsub_r ∷ fsub_m ∷ fscal_r ∷ fmul_r ∷ fdiv_m ∷ fsqrt_r ∷ cbranch ∷ cfround ∷ istore ∷ nop ∷ []

-- OPCODE_CEIL_DECLARE: the ceiling of an instruction is the ceiling of the one before plus its
-- frequency. The first one whose ceiling is above the opcode is taken; `none` is `UNREACHABLE`.
unfoldable pub first_below : ℕ → ℕ → List InstructionType → Option InstructionType
unfolding frequency
first_below opcode ceil [] = none
first_below opcode ceil (type ∷ rest) =
    let ceil' = ceil + frequency type in
    if ltb opcode ceil' then some type else first_below opcode ceil' rest

unfoldable pub decode : ℕ → Option InstructionType
unfolding first_below
decode opcode = first_below opcode 0 all_types
