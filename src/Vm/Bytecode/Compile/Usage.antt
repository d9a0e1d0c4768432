-- ===== src/Vm/Bytecode/Compile/Usage.antt =====
-- What `registerUsage` records: a register that an instruction writes is marked with its index.
use nminer.Prelude.{ℕ, ◌<◌, some, ◌≡◌, ◌≢◌, ◌⊎◌, inl, inr, refl, ◌==◌, arith, Bool-cases}
use nminer.Vm.Config.{registers_count, is_zero_or_power_of_2}
use nminer.Vm.Instruction.{
  InstructionType, Instruction, iadd_rs, iadd_m, isub_r, isub_m, imul_r, imul_m, imulh_r, imulh_m,
  ismulh_r, ismulh_m, imul_rcp, ineg_r, ixor_r, ixor_m, iror_r, irol_r, iswap_r, fswap_r, fadd_r,
  fadd_m, fsub_r, fsub_m, fscal_r, fmul_r, fdiv_m, fsqrt_r, cbranch, cfround, istore, nop,
}
use nminer.Vm.Bytecode.{InstructionByteCode, RegisterUsage, mark, Compiled}
use nminer.Vm.Bytecode.Compile.{generator, gen_imul_rcp, gen_iswap_r, gen_cbranch, int_dst, int_src}
use nminer.Vm.Execute.Effect.{Spares, IsStraight}

-- The register `k` after an entry at `i`: marked, or not written and not marked anew.
abbrev pub Marks : ℕ → RegisterUsage → ℕ → Compiled → Type 0
Marks i usage k c = (c.usage k ≡ some i) ⊎ ((c.usage k ≡ usage k) × Spares c.ibc.type c.ibc k)

module _ (instr : Instruction) (i : ℕ) (old : InstructionByteCode) (usage : RegisterUsage)
    (k : ℕ) where
  -- An arm that writes the destination and marks it.
  marked :
      (Spared : Type 0) (j : ℕ)
      → (j ≢ k → Spared)
      → (mark usage j i k ≡ some i) ⊎ ((mark usage j i k ≡ usage k) × Spared)
  marked Spared j spare = elim (Bool-cases (j == k)) [
    | inl same ↦ inl (rw same refl)
    | inr other ↦ inr (rw other refl, spare (ground arith))
  ]

  writes :
      (mark usage (int_dst instr) i k ≡ some i)
      ⊎ ((mark usage (int_dst instr) i k ≡ usage k) × (int_dst instr ≢ k))
  writes = marked (int_dst instr ≢ k) (int_dst instr) (λ ne. ne)

  gen_imul_rcp-Marks : Marks i usage k (gen_imul_rcp instr i old usage)
  unfolding gen_imul_rcp
  gen_imul_rcp-Marks = elim (Bool-cases (is_zero_or_power_of_2 instr.imm32)) [
    | inl unit ↦ rw unit (inr (refl, tt))
    | inr other ↦ rw other writes
  ]

  gen_iswap_r-Marks : Marks i usage k (gen_iswap_r instr i old usage)
  unfolding gen_iswap_r
  gen_iswap_r-Marks = elim (Bool-cases (int_src instr == int_dst instr)) [
    | inl same ↦ rw same (inr (refl, tt))
    | inr other ↦ rw other (elim (Bool-cases (int_src instr == k)) [
      | inl here ↦ inl (rw here refl)
      | inr there ↦ elim (Bool-cases (int_dst instr == k)) [
        | inl here ↦ inl (rw (there, here) refl)
        | inr away ↦ inr (rw (there, away) refl, (ground arith, ground arith))
      ]
    ])
  ]

  gen_cbranch-Marks : k < registers_count → Marks i usage k (gen_cbranch instr i old usage)
  unfolding gen_cbranch
  gen_cbranch-Marks h = inl (ground arith)

  -- Every arm marks the integer registers that it writes, and CBRANCH marks all of them.
  pub generator-Marks :
      (type : InstructionType)
      → k < registers_count
      → Marks i usage k (generator type instr i old usage)
  unfolding generator
  generator-Marks iadd_rs h = writes
  generator-Marks iadd_m h = writes
  generator-Marks isub_r h = writes
  generator-Marks isub_m h = writes
  generator-Marks imul_r h = writes
  generator-Marks imul_m h = writes
  generator-Marks imulh_r h = writes
  generator-Marks imulh_m h = writes
  generator-Marks ismulh_r h = writes
  generator-Marks ismulh_m h = writes
  generator-Marks imul_rcp h = gen_imul_rcp-Marks
  generator-Marks ineg_r h = writes
  generator-Marks ixor_r h = writes
  generator-Marks ixor_m h = writes
  generator-Marks iror_r h = writes
  generator-Marks irol_r h = writes
  generator-Marks iswap_r h = gen_iswap_r-Marks
  generator-Marks fswap_r h = inr (refl, tt)
  generator-Marks fadd_r h = inr (refl, tt)
  generator-Marks fadd_m h = inr (refl, tt)
  generator-Marks fsub_r h = inr (refl, tt)
  generator-Marks fsub_m h = inr (refl, tt)
  generator-Marks fscal_r h = inr (refl, tt)
  generator-Marks fmul_r h = inr (refl, tt)
  generator-Marks fdiv_m h = inr (refl, tt)
  generator-Marks fsqrt_r h = inr (refl, tt)
  generator-Marks cbranch h = gen_cbranch-Marks h
  generator-Marks cfround h = inr (refl, tt)
  generator-Marks istore h = inr (refl, tt)
  generator-Marks nop h = inr (refl, tt)

  gen_imul_rcp-IsStraight : IsStraight (gen_imul_rcp instr i old usage).ibc.type
  unfolding gen_imul_rcp
  gen_imul_rcp-IsStraight = elim (Bool-cases (is_zero_or_power_of_2 instr.imm32)) [
    | inl unit ↦ rw unit tt
    | inr other ↦ rw other tt
  ]

  gen_iswap_r-IsStraight : IsStraight (gen_iswap_r instr i old usage).ibc.type
  unfolding gen_iswap_r
  gen_iswap_r-IsStraight = elim (Bool-cases (int_src instr == int_dst instr)) [
    | inl same ↦ rw same tt
    | inr other ↦ rw other tt
  ]

  -- Only the arm of CBRANCH makes a branch.
  pub generator-IsStraight :
      (type : InstructionType)
      → IsStraight (generator type instr i old usage).ibc.type ⊎ (type ≡ cbranch)
  unfolding generator
  generator-IsStraight cbranch = inr refl
  generator-IsStraight imul_rcp = inl gen_imul_rcp-IsStraight
  generator-IsStraight iswap_r = inl gen_iswap_r-IsStraight
  generator-IsStraight _ = inl tt
