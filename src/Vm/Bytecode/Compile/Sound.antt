-- ===== src/Vm/Bytecode/Compile/Sound.antt =====
-- The entry that each arm of `compileInstruction` fills, against the type that it gives it.
use nminer.Prelude.{
  ℕ, ◌+◌, ◌-◌, ◌^◌, ◌≤◌, ◌<◌, some, bit_or, ltb, ◌==◌, ◌≡◌, arith, Bool-cases, inl, inr,
}
use nminer.Word.{IsU64, sign_extend, not64}
use nminer.Word.Bits.{bit_and-le}
use nminer.Vm.Config.{register_count_flt, scratchpad_l3_size, is_zero_or_power_of_2}
use nminer.Vm.Instruction.{
  InstructionType, Instruction, IsInstruction, get_mod_cond, iadd_rs, iadd_m, isub_r, isub_m,
  imul_r, imul_m, imulh_r, imulh_m, ismulh_r, ismulh_m, imul_rcp, ineg_r, ixor_r, ixor_m, iror_r,
  irol_r, iswap_r, fswap_r, fadd_r, fadd_m, fsub_r, fsub_m, fscal_r, fmul_r, fdiv_m, fsqrt_r,
  cbranch, cfround, istore, nop,
}
use nminer.Vm.Opcode.Laws.{decode-total}
use nminer.Vm.Reciprocal.{reciprocal}
use nminer.Vm.Bytecode.{InstructionByteCode, RegisterUsage, Compiled}
use nminer.Vm.Bytecode.Executable.{InScratchpad, IntPair, IsExecutable}
use nminer.Vm.Bytecode.Compile.{
  generator, gen_reg_or_imm, gen_mem, gen_iadd_rs, gen_imul_rcp, gen_iswap_r, gen_fswap_r,
  gen_istore, level_mask, branch_imm, int_dst, int_src, compile_instruction,
}

pub sign_extend-IsU64 : (x : ℕ) → x < 2 ^ 32 → IsU64 (sign_extend x)
unfolding sign_extend
sign_extend-IsU64 x h = ground arith

level_mask-le : (instr : Instruction) → level_mask instr + 8 ≤ scratchpad_l3_size
unfolding level_mask
level_mask-le instr = ground arith

pub reciprocal-IsU64 : (d : ℕ) → IsU64 (reciprocal d)
unfolding reciprocal
reciprocal-IsU64 d = omega arith

module _ (instr : Instruction) (well : IsInstruction instr) (i : ℕ) (old : InstructionByteCode)
    (old_imm : IsU64 old.imm) (usage : RegisterUsage) where
  gen_reg_or_imm-IntPair :
      (type : InstructionType) (immediate : ℕ → ℕ)
      → IsU64 (immediate instr.imm32)
      → IntPair (gen_reg_or_imm type immediate instr i old usage).ibc
  unfolding gen_reg_or_imm
  gen_reg_or_imm-IntPair type immediate h = elim (Bool-cases (int_src instr == int_dst instr)) [
    | inl same ↦ rw same (omega arith, tt, h)
    | inr other ↦ rw other (omega arith, omega arith, old_imm)
  ]

  gen_mem-fits :
      (type : InstructionType)
      → IntPair (gen_mem type instr i old usage).ibc
        × InScratchpad (gen_mem type instr i old usage).ibc
  unfolding gen_mem
  gen_mem-fits type = elim (Bool-cases (int_src instr == int_dst instr)) [
    | inl same ↦
        rw same ((omega arith, tt, sign_extend-IsU64 instr.imm32 well.imm32_fits), omega arith)
    | inr other ↦ rw other (
      (omega arith, omega arith, sign_extend-IsU64 instr.imm32 well.imm32_fits),
      level_mask-le instr,
    )
  ]

  gen_iadd_rs-IntPair : IntPair (gen_iadd_rs instr i old usage).ibc
  unfolding gen_iadd_rs
  gen_iadd_rs-IntPair = (omega arith, omega arith, ground (arith, sign_extend-IsU64 instr.imm32))

  gen_imul_rcp-IsExecutable : IsExecutable (gen_imul_rcp instr i old usage).ibc
  unfolding gen_imul_rcp
  gen_imul_rcp-IsExecutable = elim (Bool-cases (is_zero_or_power_of_2 instr.imm32)) [
    | inl unit ↦ rw unit tt
    | inr other ↦ rw other (omega arith, tt, reciprocal-IsU64 instr.imm32)
  ]

  gen_iswap_r-IsExecutable : IsExecutable (gen_iswap_r instr i old usage).ibc
  unfolding gen_iswap_r
  gen_iswap_r-IsExecutable = elim (Bool-cases (int_src instr == int_dst instr)) [
    | inl same ↦ rw same tt
    | inr other ↦ rw other (omega arith, omega arith)
  ]

  gen_fswap_r-IsExecutable : IsExecutable (gen_fswap_r instr i old usage).ibc
  unfolding gen_fswap_r
  gen_fswap_r-IsExecutable = elim (Bool-cases (ltb (int_dst instr) register_count_flt)) [
    | inl low ↦ rw low (ground arith)
    | inr high ↦ rw high (ground arith)
  ]

  pub branch_imm-IsU64 : (shift : ℕ) → IsU64 (branch_imm instr.imm32 shift)
  unfolding branch_imm
  branch_imm-IsU64 shift =
      omega
        (arith, bit_and-le (bit_or (sign_extend instr.imm32) (2 ^ shift)) (not64 (2 ^ (shift - 1))))

  gen_istore-IsExecutable : IsExecutable (gen_istore instr i old usage).ibc
  unfolding gen_istore
  gen_istore-IsExecutable = (
    omega arith,
    omega arith,
    sign_extend-IsU64 instr.imm32 well.imm32_fits,
    ground (arith, level_mask-le instr),
  )

  -- The entry of every arm fits the type that the arm gives it.
  generator-IsExecutable :
      (type : InstructionType) → IsExecutable (generator type instr i old usage).ibc
  unfolding generator
  generator-IsExecutable iadd_rs = gen_iadd_rs-IntPair
  generator-IsExecutable iadd_m = gen_mem-fits iadd_m
  generator-IsExecutable isub_r =
      gen_reg_or_imm-IntPair isub_r sign_extend (sign_extend-IsU64 instr.imm32 well.imm32_fits)
  generator-IsExecutable isub_m = gen_mem-fits isub_m
  generator-IsExecutable imul_r =
      gen_reg_or_imm-IntPair imul_r sign_extend (sign_extend-IsU64 instr.imm32 well.imm32_fits)
  generator-IsExecutable imul_m = gen_mem-fits imul_m
  generator-IsExecutable imulh_r = (omega arith, omega arith, old_imm)
  generator-IsExecutable imulh_m = gen_mem-fits imulh_m
  generator-IsExecutable ismulh_r = (omega arith, omega arith, old_imm)
  generator-IsExecutable ismulh_m = gen_mem-fits ismulh_m
  generator-IsExecutable imul_rcp = gen_imul_rcp-IsExecutable
  generator-IsExecutable ineg_r = omega arith
  generator-IsExecutable ixor_r =
      gen_reg_or_imm-IntPair ixor_r sign_extend (sign_extend-IsU64 instr.imm32 well.imm32_fits)
  generator-IsExecutable ixor_m = gen_mem-fits ixor_m
  generator-IsExecutable iror_r =
      gen_reg_or_imm-IntPair iror_r (λ imm. imm) (omega (arith, well.imm32_fits))
  generator-IsExecutable irol_r =
      gen_reg_or_imm-IntPair irol_r (λ imm. imm) (omega (arith, well.imm32_fits))
  generator-IsExecutable iswap_r = gen_iswap_r-IsExecutable
  generator-IsExecutable fswap_r = gen_fswap_r-IsExecutable
  generator-IsExecutable fadd_r = (omega arith, omega arith)
  generator-IsExecutable fadd_m =
      (omega arith, omega arith, sign_extend-IsU64 instr.imm32 well.imm32_fits, level_mask-le instr)
  generator-IsExecutable fsub_r = (omega arith, omega arith)
  generator-IsExecutable fsub_m =
      (omega arith, omega arith, sign_extend-IsU64 instr.imm32 well.imm32_fits, level_mask-le instr)
  generator-IsExecutable fscal_r = omega arith
  generator-IsExecutable fmul_r = (omega arith, omega arith)
  generator-IsExecutable fdiv_m =
      (omega arith, omega arith, sign_extend-IsU64 instr.imm32 well.imm32_fits, level_mask-le instr)
  generator-IsExecutable fsqrt_r = omega arith
  generator-IsExecutable cbranch = (omega arith, branch_imm-IsU64 (get_mod_cond instr + 8))
  generator-IsExecutable cfround = (omega arith, omega (arith, bit_and-le instr.imm32 63))
  generator-IsExecutable istore = gen_istore-IsExecutable
  generator-IsExecutable nop = tt

-- Whatever the instruction and the old entry, `compileInstruction` returns, and the entry that it
-- leaves fits its type.
pub compile_instruction-IsExecutable :
    (instr : Instruction) (i : ℕ) (old : InstructionByteCode) (usage : RegisterUsage)
    → IsInstruction instr
    → IsU64 old.imm
    → (c : Compiled) × (compile_instruction instr i old usage ≡ some c) × IsExecutable c.ibc
unfolding compile_instruction
compile_instruction-IsExecutable instr i old usage well old_imm =
    let (type, e) = decode-total instr.opcode well.opcode_fits in
    (
      generator type instr i old usage,
      rw (compile_instruction, e),
      generator-IsExecutable instr well i old old_imm usage type,
    )
