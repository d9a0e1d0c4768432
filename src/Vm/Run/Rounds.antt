-- ===== src/Vm/Run/Rounds.antt =====
-- Rounds of the loop of `executeBytecode`: at a branch, at another entry, and over a stretch of those.
use nminer.Prelude.{
  bind-some_inv, if-some_inv, ℕ, zero, suc, ◌+◌, ◌≤◌, ◌<◌, List, none, some, ◌≡◌, ◌⊎◌, inl, inr,
  refl, sym, ap, ◌∙◌, get_elem?, arith, Bool-cases, bit_and, ◌==◌, Bool, ltb, if◌then◌else◌,
}
use mathlib.Core.Option.{some-injective}
use nminer.Word.{add64}
use nminer.Vm.Config.{registers_count}
use nminer.Vm.Instruction.{cbranch}
use nminer.Vm.Bytecode.{InstructionByteCode, int_reg}
use nminer.Vm.Bytecode.Executable.{IsExecutable}
use nminer.Vm.Branch.{Jumps, bumped}
use nminer.Vm.Machine.{Fpu, Machine, put}
use nminer.Vm.Execute.{after, execute_instruction, executor, exe_cbranch, read_int, write_int}
use nminer.Vm.Execute.Operands.{IsMachine}
use nminer.Vm.Execute.Safety.{Runs, execute_instruction-Continues}
use nminer.Vm.Execute.Effect.{Spares, execute_instruction-Keeps}
use nminer.Vm.Run.{finished, execute_bytecode}
use nminer.Vm.Run.Branches.{SparesAt, IsBranch}

put_same : (file : ℕ → ℕ) (k v : ℕ) → put file k v k ≡ v
put_same file k v = ground arith

goes :
    (ibc : InstructionByteCode) (v next pc : ℕ)
    → pc ≡ (if bit_and (bumped ibc v) ibc.mem_mask == 0 then after ibc.target else next)
    → (Jumps ibc v × (pc ≡ after ibc.target)) ⊎ ((¬ Jumps ibc v) × (pc ≡ next))
goes ibc v next pc e = elim (Bool-cases (bit_and (bumped ibc v) ibc.mem_mask == 0)) [
  | inl clear ↦ inl (ground arith, e ∙ rw clear refl)
  | inr set ↦ inr (ground arith, e ∙ rw set refl)
]

-- What CBRANCH leaves in its register, and where it goes.
module _ (fp : Fpu) where
  exe_cbranch_lem :
      (m m' : Machine fp) (ibc : InstructionByteCode) (next pc k : ℕ)
      → ibc.dst ≡ int_reg k
      → exe_cbranch fp ibc next m ≡ some (m', pc)
      → (m'.r k ≡ bumped ibc (m.r k))
        × ((Jumps ibc (m.r k) × (pc ≡ after ibc.target)) ⊎ ((¬ Jumps ibc (m.r k)) × (pc ≡ next)))
  unfolding exe_cbranch read_int write_int
  exe_cbranch_lem m m' ibc next pc k dst e =
      let (d, read, e1) = bind-some_inv (read_int fp ibc ibc.dst m) _ _ e in
      let (last, wrote, e2) = bind-some_inv (write_int fp ibc.dst (add64 d ibc.imm) m) _ _ e1 in
      let d_is : m.r k ≡ d =
        if-some_inv (ltb k registers_count) _ d (ap (λ o. read_int fp ibc o m) (sym dst) ∙ read) in
      let last_is : record m { r = put m.r k (add64 d ibc.imm) } ≡ last =
        if-some_inv (ltb k registers_count) _ last
          (ap (λ o. write_int fp o (add64 d ibc.imm) m) (sym dst) ∙ wrote) in
      let test : Bool = bit_and (add64 d ibc.imm) ibc.mem_mask == 0 in
      let ended =
        some-injective {A = Machine fp × ℕ} (last, if test then after ibc.target else next) (m', pc)
          e2 in
      let bump : last.r k ≡ add64 d ibc.imm =
        ap (λ (n : Machine fp). n.r k) (sym last_is) ∙ put_same m.r k (add64 d ibc.imm) in
      (
        sym (ap (λ (q : Machine fp × ℕ). q.0.r k) ended)
            ∙ bump
            ∙ ap (λ (v : ℕ). add64 v ibc.imm) (sym d_is),
        goes ibc (m.r k) next pc (
            sym (ap (λ (q : Machine fp × ℕ). q.1) ended)
            ∙ ap
                (λ (v : ℕ).
                  if bit_and (add64 v ibc.imm) ibc.mem_mask == 0 then after ibc.target else next)
                (sym d_is)),
      )

  execute_instruction-branch :
      (m m' : Machine fp) (ibc : InstructionByteCode) (next pc : ℕ)
      → ibc.type ≡ cbranch
      → execute_instruction fp ibc next m ≡ some (m', pc)
      → exe_cbranch fp ibc next m ≡ some (m', pc)
  unfolding execute_instruction executor
  execute_instruction-branch m m' ibc next pc type e =
      ap (λ t. executor fp t ibc next m) (sym type) ∙ e

module _ (fp : Fpu) (code : List InstructionByteCode) where
  -- One round at an entry that ran.
  one_round :
      (rounds pc pc' : ℕ) (m m' : Machine fp) (ibc : InstructionByteCode)
      → get_elem? code pc ≡ some ibc
      → execute_instruction fp ibc (pc + 1) m ≡ some (m', pc')
      → execute_bytecode fp (suc rounds) code pc m ≡ execute_bytecode fp rounds code pc' m'
  unfolding execute_bytecode
  one_round rounds pc pc' m m' ibc at e = rw (execute_bytecode, at, e)

  pub no_round :
      (rounds pc : ℕ) (m : Machine fp)
      → get_elem? code pc ≡ none
      → execute_bytecode fp (suc rounds) code pc m ≡ finished m
  unfolding execute_bytecode
  no_round rounds pc m at = rw (execute_bytecode, at)

  module _
      (executable : (pc : ℕ) (ibc : InstructionByteCode)
        → get_elem? code pc ≡ some ibc
        → IsExecutable ibc) where
    -- A round at an entry that is no branch goes on to the next entry, and keeps a register that it spares.
    pub straight_round :
        (rounds pc k : ℕ) (m : Machine fp) (ibc : InstructionByteCode)
        → get_elem? code pc ≡ some ibc
        → IsMachine fp m
        → Spares ibc.type ibc k
        → (m' : Machine fp) × (execute_bytecode fp (suc rounds) code pc m
            ≡ execute_bytecode fp rounds code (pc + 1) m')
          × IsMachine fp m'
          × (m'.r k ≡ m.r k)
    straight_round rounds pc k m ibc at good spares =
        elim (execute_instruction-Continues fp m ibc (pc + 1) good (executable pc ibc at)) [
          | inl (m', e, g) ↦ (
            m',
            one_round rounds pc (pc + 1) m m' ibc at e,
            g,
            (execute_instruction-Keeps fp m m' ibc (pc + 1) (pc + 1) k spares e).1,
          )
          | inr (m', e, g) ↦
              let (next, same) =
                execute_instruction-Keeps fp m m' ibc (pc + 1) (after ibc.target) k spares e in
              (
                m',
                one_round rounds pc (after ibc.target) m m' ibc at e
                    ∙ ap (λ (p : ℕ). execute_bytecode fp rounds code p m') next,
                g,
                same,
              )
        ]

    -- A stretch of such entries.
    pub stretch :
        (n rounds pc k : ℕ) (m : Machine fp)
        → ((l : ℕ) → pc ≤ l → l < pc + n → SparesAt code l k)
        → IsMachine fp m
        → (m' : Machine fp) × (execute_bytecode fp (n + rounds) code pc m
            ≡ execute_bytecode fp rounds code (pc + n) m')
          × IsMachine fp m'
          × (m'.r k ≡ m.r k)
    stretch zero rounds pc k m spared good = (
      m,
      ap (λ (p : ℕ). execute_bytecode fp (0 + rounds) code p m) {x = pc} {y = pc + 0} (omega arith)
          ∙ ap (λ (n : ℕ). execute_bytecode fp n code (pc + 0) m) {x = 0 + rounds} {y = rounds}
              (omega arith),
      good,
      refl,
    )
    stretch (suc n) rounds pc k m spared good =
        let (ibc, at, spares) = spared pc (omega arith) (omega arith) in
        let (m', e, good', same) = straight_round (n + rounds) pc k m ibc at good spares in
        let (m'', e', good'', same') =
          stretch n rounds (pc + 1) k m' (λ l from to. spared l (omega arith) (omega arith))
            good' in
        (
          m'',
          ap (λ (n : ℕ). execute_bytecode fp n code pc m) {x = suc n + rounds}
                {y = suc (n + rounds)} (omega arith)
              ∙ e
              ∙ e'
              ∙ ap (λ (p : ℕ). execute_bytecode fp rounds code p m'') {x = pc + 1 + n}
                  {y = pc + suc n} (omega arith),
          good'',
          same' ∙ same,
        )

    branch_ran :
        (rounds pc : ℕ) (m : Machine fp) (ibc : InstructionByteCode)
        → get_elem? code pc ≡ some ibc
        → (b : IsBranch code pc ibc) → (to : ℕ) → Runs fp to (execute_instruction fp ibc (pc + 1) m)
        → (m' : Machine fp) × IsMachine fp m'
          × (m'.r b.register ≡ bumped ibc (m.r b.register))
          × ((Jumps ibc (m.r b.register)
                × (execute_bytecode fp (suc rounds) code pc m
                    ≡ execute_bytecode fp rounds code (after ibc.target) m'))
              ⊎ ((¬ Jumps ibc (m.r b.register))
                  × (execute_bytecode fp (suc rounds) code pc m
                      ≡ execute_bytecode fp rounds code (pc + 1) m')))
    branch_ran rounds pc m ibc at b to (m', e, g) =
        let (bump, way) =
          exe_cbranch_lem fp m m' ibc (pc + 1) to b.register b.dst_is
            (execute_instruction-branch fp m m' ibc (pc + 1) to b.type_is e) in
        let ran = one_round rounds pc to m m' ibc at e in
        let to_place : (p : ℕ)
            → to ≡ p
            → execute_bytecode fp (suc rounds) code pc m ≡ execute_bytecode fp rounds code p m' =
          λ p same. ran ∙ ap (λ (q : ℕ). execute_bytecode fp rounds code q m') same in
        (
          m',
          g,
          bump,
          elim way [
            | inl (jumps, back) ↦ inl (jumps, to_place (after ibc.target) back)
            | inr (stays, on) ↦ inr (stays, to_place (pc + 1) on)
          ],
        )

    -- A round at a branch: on, with the register bumped, or back.
    pub branch_round :
        (rounds pc : ℕ) (m : Machine fp) (ibc : InstructionByteCode)
        → get_elem? code pc ≡ some ibc
        → IsMachine fp m
        → (b : IsBranch code pc ibc)
        → (m' : Machine fp) × IsMachine fp m'
          × (m'.r b.register ≡ bumped ibc (m.r b.register))
          × ((Jumps ibc (m.r b.register)
                × (execute_bytecode fp (suc rounds) code pc m
                    ≡ execute_bytecode fp rounds code (after ibc.target) m'))
              ⊎ ((¬ Jumps ibc (m.r b.register))
                  × (execute_bytecode fp (suc rounds) code pc m
                      ≡ execute_bytecode fp rounds code (pc + 1) m')))
    branch_round rounds pc m ibc at good b =
        elim (execute_instruction-Continues fp m ibc (pc + 1) good (executable pc ibc at)) [
          | inl run ↦ branch_ran rounds pc m ibc at b (pc + 1) run
          | inr run ↦ branch_ran rounds pc m ibc at b (after ibc.target) run
        ]
