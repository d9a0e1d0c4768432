-- ===== src/Dataset/Cache/Equivalence.antt =====
-- Programs with cached reciprocals against the programs that were generated.
use nminer.Prelude.{
  ℕ, suc, ◌+◌, ◌%◌, ◌^◌, ◌≤◌, List, [], ◌∷◌, ◌++◌, true, false, Option, none, some, ◌>>=◌, ◌≡◌,
  refl, ap, sym, ◌∙◌, fun_ext, subst, length, get_elem?, if◌then◌else◌, arith, length-append,
  Bool-cases, inl, inr,
}
use mathlib.Core.Path.{ap₂}
use native.Mathlib.Nat.{mod-eq_of_lt}
use mathlib.Core.List.{append-nil, append_assoc}
use nminer.Vm.Instruction.{Instruction}
use nminer.Vm.Machine.{put}
use nminer.Vm.Reciprocal.{reciprocal}
use nminer.Dataset.Superscalar.{
  SuperscalarInstructionType, isub_r, ixor_r, iadd_rs, imul_r, iror_c, iadd_c7, ixor_c7, iadd_c8,
  ixor_c8, iadd_c9, ixor_c9, imulh_r, ismulh_r, imul_rcp, superscalar_type, is_rcp, factor,
  superscalar_result, register, superscalar_step, execute_superscalar,
}
use nminer.Dataset.Cache.{cache_instructions}

-- A step, given what it computes from its two registers.
abbrev step_by : (ℕ → ℕ → Option ℕ) → Instruction → (ℕ → ℕ) → Option (ℕ → ℕ)
step_by result instr r = do
  d ← register r instr.dst
  s ← register r instr.src
  value ← result d s
  some (put r instr.dst value)

module _ (cached : List ℕ) (instr : Instruction) where
  result_plain :
      (type : SuperscalarInstructionType) (d s : ℕ)
      → is_rcp (some type) ≡ false
      → superscalar_result (some cached) instr d s type ≡ superscalar_result none instr d s type
  unfolding superscalar_result is_rcp
  result_plain isub_r d s h = refl
  result_plain ixor_r d s h = refl
  result_plain iadd_rs d s h = refl
  result_plain imul_r d s h = refl
  result_plain iror_c d s h = refl
  result_plain iadd_c7 d s h = refl
  result_plain iadd_c8 d s h = refl
  result_plain iadd_c9 d s h = refl
  result_plain ixor_c7 d s h = refl
  result_plain ixor_c8 d s h = refl
  result_plain ixor_c9 d s h = refl
  result_plain imulh_r d s h = refl
  result_plain ismulh_r d s h = refl
  result_plain imul_rcp d s h = absurd (cc)

  -- Any other instruction does not look at the reciprocals.
  step_plain :
      (r : ℕ → ℕ) (type : Option SuperscalarInstructionType)
      → superscalar_type instr.opcode ≡ type
      → is_rcp type ≡ false
      → superscalar_step (some cached) instr r ≡ superscalar_step none instr r
  unfolding superscalar_step
  step_plain r none e h = rw e refl
  step_plain r (some type) e h = rw e (
      ap (λ result. step_by result instr r) (fun_ext (λ d. fun_ext (λ s. result_plain type d s h))))

  -- An IMUL_RCP that finds its own reciprocal in the cache.
  step_rcp :
      (r : ℕ → ℕ) (index : ℕ) (type : Option SuperscalarInstructionType)
      → superscalar_type instr.opcode ≡ type
      → is_rcp type ≡ true
      → get_elem? cached index ≡ some (reciprocal instr.imm32)
      → superscalar_step (some cached) (record instr { imm32 = index }) r
        ≡ superscalar_step none instr r
  unfolding superscalar_step superscalar_result factor is_rcp
  step_rcp r index (some imul_rcp) e h found = rw (e, found) refl
  step_rcp r index none e h found = absurd (cc)
  step_rcp r index (some isub_r) e h found = absurd (cc)
  step_rcp r index (some ixor_r) e h found = absurd (cc)
  step_rcp r index (some iadd_rs) e h found = absurd (cc)
  step_rcp r index (some imul_r) e h found = absurd (cc)
  step_rcp r index (some iror_c) e h found = absurd (cc)
  step_rcp r index (some iadd_c7) e h found = absurd (cc)
  step_rcp r index (some iadd_c8) e h found = absurd (cc)
  step_rcp r index (some iadd_c9) e h found = absurd (cc)
  step_rcp r index (some ixor_c7) e h found = absurd (cc)
  step_rcp r index (some ixor_c8) e h found = absurd (cc)
  step_rcp r index (some ixor_c9) e h found = absurd (cc)
  step_rcp r index (some imulh_r) e h found = absurd (cc)
  step_rcp r index (some ismulh_r) e h found = absurd (cc)

-- What the inner loop appends to the reciprocals.
pub reciprocals_of : List Instruction → List ℕ
reciprocals_of [] = []
reciprocals_of (instr ∷ rest) =
    if is_rcp (superscalar_type instr.opcode)
    then reciprocal instr.imm32 ∷ reciprocals_of rest
    else reciprocals_of rest

pub cache_instructions-appends :
    (program : List Instruction) (cached : List ℕ)
    → (cache_instructions program cached).1 ≡ cached ++ reciprocals_of program
unfolding cache_instructions reciprocals_of
cache_instructions-appends [] cached = sym (append-nil cached)
cache_instructions-appends (instr ∷ rest) cached =
    elim (Bool-cases (is_rcp (superscalar_type instr.opcode))) [
      | inl rcp ↦ rw rcp (
          cache_instructions-appends rest (cached ++ (reciprocal instr.imm32 ∷ []))
          ∙ append_assoc cached (reciprocal instr.imm32 ∷ []) (reciprocals_of rest))
      | inr plain ↦ rw plain (cache_instructions-appends rest cached)
    ]

get_elem?-middle :
    (front : List ℕ) (x : ℕ) (back : List ℕ)
    → get_elem? (front ++ (x ∷ back)) (length front) ≡ some x
get_elem?-middle [] x back = refl
get_elem?-middle (y ∷ front) x back = get_elem?-middle front x back

reciprocals_of-rcp :
    (instr : Instruction) (rest : List Instruction)
    → is_rcp (superscalar_type instr.opcode) ≡ true
    → reciprocals_of (instr ∷ rest) ≡ reciprocal instr.imm32 ∷ reciprocals_of rest
unfolding reciprocals_of
reciprocals_of-rcp instr rest h = rw h refl

reciprocals_of-plain :
    (instr : Instruction) (rest : List Instruction)
    → is_rcp (superscalar_type instr.opcode) ≡ false
    → reciprocals_of (instr ∷ rest) ≡ reciprocals_of rest
unfolding reciprocals_of
reciprocals_of-plain instr rest h = rw h refl

-- Two steps that agree, followed by runs that agree.
same_runs :
    {first second : Option (ℕ → ℕ)} {run run' : (ℕ → ℕ) → Option (ℕ → ℕ)}
    → first ≡ second
    → ((r : ℕ → ℕ) → run r ≡ run' r)
    → (first >>= run) ≡ (second >>= run')
same_runs {first} {second} {run} {run'} e runs =
    ap (λ t. t >>= run) e ∙ ap (λ k. second >>= k) (fun_ext runs)

-- A rewritten program, over the reciprocals that were cached before it, its own, and any after.
pub execute-cache_instructions :
    (program : List Instruction) (cached later all : List ℕ) (r : ℕ → ℕ)
    → all ≡ cached ++ (reciprocals_of program ++ later)
    → length cached + length (reciprocals_of program) ≤ 2 ^ 32
    → execute_superscalar (some all) (cache_instructions program cached).0 r
      ≡ execute_superscalar none program r
unfolding execute_superscalar cache_instructions
execute-cache_instructions [] cached later all r e h = refl
execute-cache_instructions (instr ∷ rest) cached later all r e h =
    elim (Bool-cases (is_rcp (superscalar_type instr.opcode))) [
      | inl rcp ↦
          let own = reciprocal instr.imm32 in
          let mine = reciprocals_of-rcp instr rest rcp in
          let e' : all ≡ cached ++ (own ∷ (reciprocals_of rest ++ later)) =
            e ∙ ap (λ l. cached ++ (l ++ later)) mine in
          let h' : length cached + suc (length (reciprocals_of rest)) ≤ 2 ^ 32 =
            subst (λ (l : List ℕ). length cached + length l ≤ 2 ^ 32) mine h in
          let index : length cached % 2 ^ 32 ≡ length cached = mod-eq_of_lt (omega arith) in
          let found : get_elem? all (length cached % 2 ^ 32) ≡ some own =
            ap₂ get_elem? e' index ∙ get_elem?-middle cached own (reciprocals_of rest ++ later) in
          rw rcp (
            same_runs
              (step_rcp all instr r (length cached % 2 ^ 32) (superscalar_type instr.opcode) refl
                rcp found)
              (λ r'.
                execute-cache_instructions rest (cached ++ (own ∷ [])) later all r'
                  (e' ∙ sym (append_assoc cached (own ∷ []) (reciprocals_of rest ++ later)))
                  (omega (arith, length-append cached (own ∷ []), h'))))
      | inr plain ↦
          let mine = reciprocals_of-plain instr rest plain in
          rw plain (
            same_runs (step_plain all instr r (superscalar_type instr.opcode) refl plain) (λ r'.
              execute-cache_instructions rest cached later all r'
                (e ∙ ap (λ l. cached ++ (l ++ later)) mine)
                (subst (λ (l : List ℕ). length cached + length l ≤ 2 ^ 32) mine h)))
    ]
