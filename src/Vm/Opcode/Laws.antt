-- ===== src/Vm/Opcode/Laws.antt =====
-- The ladder of `compileInstruction` over all 256 opcode bytes.
use nminer.Prelude.{
  ℕ, zero, suc, ◌+◌, ◌<◌, Bool, true, false, Option, none, some, ◌≡◌, refl, all_below,
  all_below_sound, ◌==◌, if◌then◌else◌,
}
use nminer.Vm.Instruction.{
  InstructionType, type_value, iadd_rs, iadd_m, isub_r, isub_m, imul_r, imul_m, imulh_r, imulh_m,
  ismulh_r, ismulh_m, imul_rcp, ineg_r, ixor_r, ixor_m, iror_r, irol_r, iswap_r, fswap_r, fadd_r,
  fadd_m, fsub_r, fsub_m, fscal_r, fmul_r, fdiv_m, fsqrt_r, cbranch, cfround, istore, nop,
}
use nminer.Vm.Opcode.{frequency, decode}

is_some : Option InstructionType → Bool
is_some none = false
is_some (some type) = true

decode_table : all_below 256 (λ opcode. is_some (decode opcode)) ≡ true
unfolding all_below is_some decode
decode_table = refl

some_of :
    (o : Option InstructionType) → is_some o ≡ true → (type : InstructionType) × (o ≡ some type)
unfolding is_some
some_of none e = absurd (cc)
some_of (some type) e = (type, refl)

-- Every opcode byte stands for an instruction.
pub decode-total :
    (opcode : ℕ) → opcode < 256 → (type : InstructionType) × (decode opcode ≡ some type)
decode-total opcode h =
    some_of (decode opcode) (all_below_sound 256 (λ o. is_some (decode o)) opcode decode_table h)

abbrev is_type : InstructionType → Option InstructionType → Bool
is_type type none = false
is_type type (some other) = type_value type == type_value other

-- How many opcodes below `n` stand for an instruction.
abbrev pub opcodes_below : ℕ → InstructionType → ℕ
opcodes_below zero type = 0
opcodes_below (suc n) type = (if is_type type (decode n) then 1 else 0) + opcodes_below n type

-- Of the 256 opcode bytes, exactly RANDOMX_FREQ_* stand for each instruction.
pub opcodes_below-frequency : (type : InstructionType) → opcodes_below 256 type ≡ frequency type
unfolding decode frequency type_value
opcodes_below-frequency iadd_rs = refl
opcodes_below-frequency iadd_m = refl
opcodes_below-frequency isub_r = refl
opcodes_below-frequency isub_m = refl
opcodes_below-frequency imul_r = refl
opcodes_below-frequency imul_m = refl
opcodes_below-frequency imulh_r = refl
opcodes_below-frequency imulh_m = refl
opcodes_below-frequency ismulh_r = refl
opcodes_below-frequency ismulh_m = refl
opcodes_below-frequency imul_rcp = refl
opcodes_below-frequency ineg_r = refl
opcodes_below-frequency ixor_r = refl
opcodes_below-frequency ixor_m = refl
opcodes_below-frequency iror_r = refl
opcodes_below-frequency irol_r = refl
opcodes_below-frequency iswap_r = refl
opcodes_below-frequency fswap_r = refl
opcodes_below-frequency fadd_r = refl
opcodes_below-frequency fadd_m = refl
opcodes_below-frequency fsub_r = refl
opcodes_below-frequency fsub_m = refl
opcodes_below-frequency fscal_r = refl
opcodes_below-frequency fmul_r = refl
opcodes_below-frequency fdiv_m = refl
opcodes_below-frequency fsqrt_r = refl
opcodes_below-frequency cbranch = refl
opcodes_below-frequency cfround = refl
opcodes_below-frequency istore = refl
opcodes_below-frequency nop = refl
