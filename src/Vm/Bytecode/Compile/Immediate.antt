-- ===== src/Vm/Bytecode/Compile/Immediate.antt =====
-- The immediates of compiled entries: those of the next program's compilation are words again.
use nminer.Prelude.{ℕ, ◌+◌, some, ◌==◌, ◌≡◌, arith, Bool-cases, inl, inr}
use nminer.Word.{IsU64, sign_extend}
use nminer.Word.Bits.{bit_and-le}
use nminer.Vm.Config.{is_zero_or_power_of_2}
use nminer.Vm.Instruction.{
  InstructionType, Instruction, IsInstruction, get_mod_cond, iadd_rs, iadd_m, isub_r, isub_m,
  imul_r, imul_m, imulh_r, imulh_m, ismulh_r, ismulh_m, imul_rcp, ineg_r, ixor_r, ixor_m, iror_r,
  irol_r, iswap_r, fswap_r, fadd_r, fadd_m, fsub_r, fsub_m, fscal_r, fmul_r, fdiv_m, fsqrt_r,
  cbranch, cfround, istore, nop,
}
use nminer.Vm.Opcode.Laws.{decode-total}
use nminer.Vm.Bytecode.{InstructionByteCode, RegisterUsage, Compiled}
use nminer.Vm.Bytecode.Compile.{
  generator, gen_reg_or_imm, gen_iadd_rs, gen_imul_rcp, gen_iswap_r, int_dst, int_src,
  compile_instruction,
}
use nminer.Vm.Bytecode.Compile.Sound.{sign_extend-IsU64, reciprocal-IsU64, branch_imm-IsU64}

module _ (instr : Instruction) (well : IsInstruction instr) (i : ℕ) (old : InstructionByteCode)
    (old_imm : IsU64 old.imm) (usage : RegisterUsage) where
  extended : IsU64 (sign_extend instr.imm32)
  extended = sign_extend-IsU64 instr.imm32 well.imm32_fits

  gen_reg_or_imm-imm :
      (type : InstructionType) (immediate : ℕ → ℕ)
      → IsU64 (immediate instr.imm32)
      → IsU64 (gen_reg_or_imm type immediate instr i old usage).ibc.imm
  unfolding gen_reg_or_imm
  gen_reg_or_imm-imm type immediate h = elim (Bool-cases (int_src instr == int_dst instr)) [
    | inl same ↦ rw same h
    | inr other ↦ rw other old_imm
  ]

  gen_iadd_rs-imm : IsU64 (gen_iadd_rs instr i old usage).ibc.imm
  unfolding gen_iadd_rs
  gen_iadd_rs-imm = ground (arith, extended)

  gen_imul_rcp-imm : IsU64 (gen_imul_rcp instr i old usage).ibc.imm
  unfolding gen_imul_rcp
  gen_imul_rcp-imm = elim (Bool-cases (is_zero_or_power_of_2 instr.imm32)) [
    | inl unit ↦ rw unit old_imm
    | inr other ↦ rw other (reciprocal-IsU64 instr.imm32)
  ]

  gen_iswap_r-imm : IsU64 (gen_iswap_r instr i old usage).ibc.imm
  unfolding gen_iswap_r
  gen_iswap_r-imm = elim (Bool-cases (int_src instr == int_dst instr)) [
    | inl same ↦ rw same old_imm
    | inr other ↦ rw other old_imm
  ]

  -- An arm writes a word, or leaves the old one.
  generator-imm : (type : InstructionType) → IsU64 (generator type instr i old usage).ibc.imm
  unfolding generator
  generator-imm iadd_rs = gen_iadd_rs-imm
  generator-imm isub_r = gen_reg_or_imm-imm isub_r sign_extend extended
  generator-imm imul_r = gen_reg_or_imm-imm imul_r sign_extend extended
  generator-imm ixor_r = gen_reg_or_imm-imm ixor_r sign_extend extended
  generator-imm iror_r = gen_reg_or_imm-imm iror_r (λ imm. imm) (omega (arith, well.imm32_fits))
  generator-imm irol_r = gen_reg_or_imm-imm irol_r (λ imm. imm) (omega (arith, well.imm32_fits))
  generator-imm iadd_m = extended
  generator-imm isub_m = extended
  generator-imm imul_m = extended
  generator-imm imulh_m = extended
  generator-imm ismulh_m = extended
  generator-imm ixor_m = extended
  generator-imm fadd_m = extended
  generator-imm fsub_m = extended
  generator-imm fdiv_m = extended
  generator-imm istore = extended
  generator-imm imul_rcp = gen_imul_rcp-imm
  generator-imm iswap_r = gen_iswap_r-imm
  generator-imm cbranch = branch_imm-IsU64 instr well i old old_imm usage (get_mod_cond instr + 8)
  generator-imm cfround = omega (arith, bit_and-le instr.imm32 63)
  generator-imm imulh_r = old_imm
  generator-imm ismulh_r = old_imm
  generator-imm ineg_r = old_imm
  generator-imm fswap_r = old_imm
  generator-imm fadd_r = old_imm
  generator-imm fsub_r = old_imm
  generator-imm fscal_r = old_imm
  generator-imm fmul_r = old_imm
  generator-imm fsqrt_r = old_imm
  generator-imm nop = old_imm

pub compile_instruction-imm :
    (instr : Instruction) (i : ℕ) (old : InstructionByteCode) (usage : RegisterUsage)
    → IsInstruction instr
    → IsU64 old.imm
    → (c : Compiled) × (compile_instruction instr i old usage ≡ some c) × IsU64 c.ibc.imm
unfolding compile_instruction
compile_instruction-imm instr i old usage well old_imm =
    let (type, e) = decode-total instr.opcode well.opcode_fits in
    (
      generator type instr i old usage,
      rw (compile_instruction, e),
      generator-imm instr well i old old_imm usage type,
    )
