-- ===== src/Vm/Run/Termination.antt =====
-- `executeBytecode` leaves its loop: a branch goes back at most twice in a row, and no stretch that a
-- branch repeats overlaps with that of another.
use nminer.Prelude.{
  bind-some_inv, get_elem?-inside, ℕ, zero, suc, ◌+◌, ◌-◌, ◌*◌, ◌≤◌, ◌<◌, List, [], ◌∷◌, Option,
  none, some, ◌≡◌, inl, inr, refl, sym, subst, ap, ◌∙◌, length, get_elem?, arith,
}
use native.Mathlib.Decide.{dec_lt}
use mathlib.Core.Option.{some-injective}
use nminer.Vm.Instruction.{
  Instruction, InstructionType, cbranch, iswap_r, fswap_r, fadd_r, fadd_m, fsub_r, fsub_m, fscal_r,
  fmul_r, fdiv_m, fsqrt_r, cfround, istore, nop,
}
use nminer.Vm.Bytecode.{Operand, InstructionByteCode, RegisterUsage, int_reg}
use nminer.Vm.Bytecode.Executable.{IsExecutable}
use nminer.Vm.Bytecode.Compile.Program.{no_usage, compile_from, compile_program}
use nminer.Vm.Bytecode.Compile.{compile_instruction}
use nminer.Vm.Branch.{Jumps, bumped}
use nminer.Vm.Machine.{Fpu, Machine}
use nminer.Vm.Execute.{after}
use nminer.Vm.Execute.Operands.{IsMachine}
use nminer.Vm.Execute.Effect.{Spares, IsStraight, Untouched}
use nminer.Vm.Run.{finished, execute_bytecode}
use nminer.Vm.Run.Rounds.{no_round, straight_round, stretch, branch_round}
use nminer.Vm.Run.Branches.{IsBranch, Branches, compile_program-Branches}
use nminer.Vm.Run.Safety.{
  IsProgram, EntryIsExecutable, get_elem?-IsExecutable, compile_from-AllExecutable,
}

-- Indices of registers below which no operand lies.
index : Operand → ℕ
index (int_reg j) = j
index _ = 0

fresh : InstructionByteCode → ℕ
unfolding index
fresh ibc = suc (index ibc.dst + index ibc.src)

fresh-Untouched : (o : Operand) (k : ℕ) → index o < k → Untouched o k
unfolding index
fresh-Untouched (int_reg j) k h = λ e. absurd (omega arith)
fresh-Untouched _ k h = tt

fresh-Spares :
    (type : InstructionType) (ibc : InstructionByteCode)
    → IsStraight type
    → Spares type ibc (fresh ibc)
unfolding fresh
fresh-Spares iswap_r ibc h =
    (fresh-Untouched ibc.dst _ (omega arith), fresh-Untouched ibc.src _ (omega arith))
fresh-Spares cbranch ibc h = absurd h
fresh-Spares fswap_r ibc h = tt
fresh-Spares fadd_r ibc h = tt
fresh-Spares fadd_m ibc h = tt
fresh-Spares fsub_r ibc h = tt
fresh-Spares fsub_m ibc h = tt
fresh-Spares fscal_r ibc h = tt
fresh-Spares fmul_r ibc h = tt
fresh-Spares fdiv_m ibc h = tt
fresh-Spares fsqrt_r ibc h = tt
fresh-Spares cfround ibc h = tt
fresh-Spares istore ibc h = tt
fresh-Spares nop ibc h = tt
fresh-Spares _ ibc h = fresh-Untouched ibc.dst _ (omega arith)

get_elem?-end {ℓ} : {A : Type ℓ} (xs : List A) (i : ℕ) → length xs ≤ i → get_elem? xs i ≡ none
get_elem?-end [] i h = refl
get_elem?-end (x ∷ xs) zero h = absurd (omega arith)
get_elem?-end (x ∷ xs) (suc i) h = get_elem?-end xs i (omega arith)

module _ (fp : Fpu) (code : List InstructionByteCode)
    (executable : (pc : ℕ) (ibc : InstructionByteCode)
      → get_elem? code pc ≡ some ibc
      → IsExecutable ibc) where
  -- The loop is left on a well-formed machine.
  abbrev Finishes : ℕ → ℕ → Machine fp → Type 0
  Finishes rounds pc m =
      (m' : Machine fp) × (execute_bytecode fp rounds code pc m ≡ finished m') × IsMachine fp m'

  rounds-Finishes :
      (rounds pc rounds' pc' : ℕ) (m m' : Machine fp)
      → execute_bytecode fp rounds code pc m ≡ execute_bytecode fp rounds' code pc' m'
      → Finishes rounds' pc' m'
      → Finishes rounds pc m
  rounds-Finishes rounds pc rounds' pc' m m' e (last, e', good) = (last, e ∙ e', good)

  module _ (pc : ℕ) (ibc : InstructionByteCode) (at : get_elem? code pc ≡ some ibc)
      (b : IsBranch code pc ibc) (need : ℕ)
      (on : (m : Machine fp) (rounds : ℕ)
        → IsMachine fp m
        → need ≤ rounds
        → Finishes rounds (pc + 1) m) where
    -- From this value of its register the branch jumps at most `laps` times in a row.
    Calm : ℕ → ℕ → Type 0
    Calm zero v = ¬ Jumps ibc v
    Calm (suc laps) v = Jumps ibc v → Calm laps (bumped ibc v)

    budget : ℕ → ℕ
    budget zero = need
    budget (suc laps) = budget laps + (pc - after ibc.target) + 1

    need-budget : (laps : ℕ) → need ≤ budget laps
    unfolding budget
    need-budget zero = omega arith
    need-budget (suc laps) = omega (arith, need-budget laps)

    -- After a jump, the stretch up to the branch again.
    lap :
        (rounds : ℕ) (m : Machine fp)
        → IsMachine fp m
        → pc - after ibc.target + 1 ≤ rounds
        → (m' : Machine fp) × (execute_bytecode fp rounds code (after ibc.target) m
            ≡ execute_bytecode fp (suc (rounds - (pc - after ibc.target + 1))) code pc m')
          × IsMachine fp m'
          × (m'.r b.register ≡ m.r b.register)
    lap rounds m good enough =
        let start : ℕ = after ibc.target in
        let n : ℕ = pc - start in
        let back : start ≤ pc = b.back in
        let left : ℕ = rounds - (n + 1) in
        let (m', e, good', same) =
          stretch fp code executable n (suc left) start b.register m
            (λ l from to. b.spared l from (omega arith)) good in
        (
          m',
          ap (λ (k : ℕ). execute_bytecode fp k code start m) {x = rounds} {y = n + suc left}
                (omega arith)
              ∙ e
              ∙ ap (λ (p : ℕ). execute_bytecode fp (suc left) code p m') {x = start + n} {y = pc}
                  (omega arith),
          good',
          same,
        )

    laps-Finishes :
        (laps rounds : ℕ) (m : Machine fp)
        → IsMachine fp m
        → Calm laps (m.r b.register)
        → budget laps ≤ rounds
        → Finishes (suc rounds) pc m
    unfolding Calm budget
    laps-Finishes zero rounds m good calm enough =
        let (m', good', _, way) = branch_round fp code executable rounds pc m ibc at good b in
        elim way [
          | inl (jumps, _) ↦ absurd (calm jumps)
          | inr (_, e) ↦
              rounds-Finishes (suc rounds) pc rounds (pc + 1) m m' e (on m' rounds good' enough)
        ]
    laps-Finishes (suc laps) rounds m good calm enough =
        let (m', good', bump, way) = branch_round fp code executable rounds pc m ibc at good b in
        elim way [
          | inl (jumps, e) ↦
              let (m'', e', good'', same) = lap rounds m' good' (omega (arith, enough)) in
              rounds-Finishes (suc rounds) pc (suc (rounds - (pc - after ibc.target + 1))) pc m m''
                (e ∙ e')
                (laps-Finishes laps (rounds - (pc - after ibc.target + 1)) m'' good''
                  (subst (Calm laps) (sym (same ∙ bump)) (calm jumps)) (omega (arith, enough)))
          | inr (_, e) ↦
              rounds-Finishes (suc rounds) pc rounds (pc + 1) m m' e
                (on m' rounds good' (omega (arith, need-budget laps, enough)))
        ]

  -- Branches ahead of `pc` do not lead back before `s`.
  Ahead : ℕ → ℕ → Type 0
  Ahead s pc =
      (j : ℕ) (ibc : InstructionByteCode)
      → pc ≤ j
      → get_elem? code j ≡ some ibc
      → IsBranch code j ibc
      → s ≤ after ibc.target

  -- No branch behind a branch leads back over it.
  Ahead-branch :
      (pc : ℕ) (ibc : InstructionByteCode)
      → get_elem? code pc ≡ some ibc
      → ibc.type ≡ cbranch
      → Ahead (pc + 1) (pc + 1)
  unfolding Ahead
  Ahead-branch pc ibc at type j ibc' from at' b = elim (dec_lt pc (after ibc'.target)) [
    | yes beyond ↦ omega arith
    | no over ↦
        let (other, there, spares) = b.spared pc (omega arith) (omega arith) in
        let same : other ≡ ibc = some-injective other ibc (sym there ∙ at) in
        absurd (
          subst (λ t. Spares t other b.register)
            (ap (λ (x : InstructionByteCode). x.type) same ∙ type) spares)
  ]

  ends-Finishes :
      (d pc s rounds : ℕ) (m : Machine fp)
      → Branches code 0
      → pc + d ≡ length code
      → s ≤ pc
      → Ahead s pc
      → IsMachine fp m
      → d + 2 * (length code - s) + 1 ≤ rounds
      → Finishes rounds pc m
  unfolding Ahead Calm budget
  ends-Finishes d pc s zero m branches size before ahead good enough =
      absurd (omega (arith, enough))
  ends-Finishes zero pc s (suc rounds) m branches size before ahead good enough =
      (m, no_round fp code rounds pc m (get_elem?-end code pc (omega (arith, size))), good)
  ends-Finishes (suc d) pc s (suc rounds) m branches size before ahead good enough =
      let (ibc, at) = get_elem?-inside code pc (omega (arith, size)) in
      elim (branches pc ibc (omega arith) at) [
        | inl straight ↦
            let (m', e, good', _) =
              straight_round fp code executable rounds pc (fresh ibc) m ibc at good
                (fresh-Spares ibc.type ibc straight) in
            rounds-Finishes (suc rounds) pc rounds (pc + 1) m m' e (
              ends-Finishes d (pc + 1) s rounds m' branches (omega (arith, size))
                (omega (arith, before)) (λ j x from. ahead j x (omega arith)) good'
                (omega (arith, enough)))
        | inr b ↦
            laps-Finishes pc ibc at b (d + 2 * (length code - (pc + 1)) + 1)
              (λ m' rounds' good' enough'.
                ends-Finishes d (pc + 1) (pc + 1) rounds' m' branches (omega (arith, size))
                  (omega arith) (Ahead-branch pc ibc at b.type_is) good' enough')
              2 rounds m good (b.twice (m.r b.register))
              (omega (arith, enough, size, before, b.back, ahead pc ibc (omega arith) at b))
      ]

length-compile_from :
    (i : ℕ) (usage : RegisterUsage) (program : List (Instruction × InstructionByteCode))
    (bytecode : List InstructionByteCode)
    → compile_from i usage program ≡ some bytecode
    → length bytecode ≡ length program
unfolding compile_from
length-compile_from i usage [] bytecode e =
    ap (λ (b : List InstructionByteCode). length b) (sym (some-injective [] bytecode e))
length-compile_from i usage ((instr, old) ∷ rest) bytecode e =
    let (c, _, e1) = bind-some_inv (compile_instruction instr i old usage) _ _ e in
    let (others, et, e2) = bind-some_inv (compile_from (i + 1) c.usage rest) _ _ e1 in
    ap (λ (b : List InstructionByteCode). length b) (sym (some-injective _ bytecode e2))
    ∙ ap suc (length-compile_from (i + 1) c.usage rest others et)

entry :
    (found : Option InstructionByteCode) (ibc : InstructionByteCode)
    → EntryIsExecutable found
    → found ≡ some ibc
    → IsExecutable ibc
entry found ibc h e = subst EntryIsExecutable e h

-- Every program compiles, and from any well-formed machine its bytecode leaves the loop of `executeBytecode`, on a
-- well-formed machine, within three rounds for each instruction and one more.
pub compile_program-Finishes :
    (fp : Fpu) (program : List (Instruction × InstructionByteCode)) (m : Machine fp) (rounds : ℕ)
    → IsProgram program
    → IsMachine fp m
    → 3 * length program + 1 ≤ rounds
    → (bytecode : List InstructionByteCode) × (compile_program program ≡ some bytecode)
      × (m' : Machine fp) × (execute_bytecode fp rounds bytecode 0 m ≡ finished m')
      × IsMachine fp m'
unfolding compile_program Ahead
compile_program-Finishes fp program m rounds well good enough =
    let (bytecode, e, all) = compile_from-AllExecutable 0 no_usage program well in
    let size = length-compile_from 0 no_usage program bytecode e in
    let executable : (pc : ℕ) (ibc : InstructionByteCode)
        → get_elem? bytecode pc ≡ some ibc
        → IsExecutable ibc =
      λ pc ibc at. entry (get_elem? bytecode pc) ibc (get_elem?-IsExecutable bytecode pc all) at in
    let (m', ran, good') =
      ends-Finishes fp bytecode executable (length bytecode) 0 0 rounds m
        (compile_program-Branches program bytecode e well) (omega arith) (omega arith)
        (λ j ibc from at b. omega arith) good (omega (arith, size, enough)) in
    (bytecode, e, m', ran, good')
