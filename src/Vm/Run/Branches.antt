-- ===== src/Vm/Run/Branches.antt =====
-- Where the branches of a compiled program lead: back over instructions that neither branch nor write the
-- branch's register.
use nminer.Prelude.{
  bind-some_inv, ℕ, suc, ◌+◌, ◌-◌, ◌%◌, ◌≤◌, ◌<◌, List, [], ◌∷◌, none, some, ◌≡◌, ◌⊎◌, inl, inr,
  refl, sym, subst, ap, ◌∙◌, get_elem?, arith,
}
use native.Mathlib.Decide.{dec_lt}
use mathlib.Core.Option.{some-injective, none-ne-some}
use nminer.Vm.Config.{registers_count}
use nminer.Vm.Instruction.{Instruction, InstructionType, IsInstruction, cbranch}
use nminer.Vm.Opcode.Laws.{decode-total}
use nminer.Vm.Bytecode.{int_reg, InstructionByteCode, RegisterUsage, Compiled}
use nminer.Vm.Bytecode.Compile.{compile_instruction, generator, gen_cbranch}
use nminer.Vm.Bytecode.Compile.Program.{no_usage, compile_from, compile_program}
use nminer.Vm.Bytecode.Compile.Usage.{generator-Marks, generator-IsStraight}
use nminer.Vm.Branch.{Jumps, bumped, gen_cbranch-twice}
use nminer.Vm.Execute.{after}
use nminer.Vm.Execute.Effect.{Spares, IsStraight}
use nminer.Vm.Run.Safety.{IsProgram}

-- The entry at `l` leaves the register `k` alone, and is no branch.
abbrev pub SparesAt : List InstructionByteCode → ℕ → ℕ → Type 0
SparesAt code l k =
    (ibc : InstructionByteCode) × (get_elem? code l ≡ some ibc) × Spares ibc.type ibc k

pub record IsBranch (code : List InstructionByteCode) (j : ℕ) (ibc : InstructionByteCode)
    : Type 0 where
  pub type_is : ibc.type ≡ cbranch
  pub register : ℕ
  pub small : register < registers_count
  pub dst_is : ibc.dst ≡ int_reg register
  pub back : after ibc.target ≤ j
  pub spared : (l : ℕ) → after ibc.target ≤ l → l < j → SparesAt code l register
  pub twice :
      (d : ℕ) → Jumps ibc d → Jumps ibc (bumped ibc d) → ¬ Jumps ibc (bumped ibc (bumped ibc d))

-- Every entry from `i` on is straight or a branch like this.
abbrev pub Branches : List InstructionByteCode → ℕ → Type 0
Branches code i =
    (j : ℕ) (ibc : InstructionByteCode)
    → i ≤ j
    → get_elem? code j ≡ some ibc
    → IsStraight ibc.type ⊎ IsBranch code j ibc

-- The register usage says of the entries before `p` what it should.
Tracks : List InstructionByteCode → ℕ → RegisterUsage → Type 0
Tracks code p usage =
    (k : ℕ)
    → k < registers_count
    → (after (usage k) ≤ p) × ((l : ℕ) → after (usage k) ≤ l → l < p → SparesAt code l k)

module _ (code : List InstructionByteCode) (i : ℕ) (instr : Instruction) (old : InstructionByteCode)
    (usage : RegisterUsage) (type : InstructionType)
    (at : get_elem? code i ≡ some (generator type instr i old usage).ibc)
    (tracks : Tracks code i usage) where
  generator-Tracks : Tracks code (i + 1) (generator type instr i old usage).usage
  unfolding Tracks
  generator-Tracks k small = elim (generator-Marks instr i old usage k type small) [
    | inl marked ↦ rw marked (omega arith, λ l from to. absurd (omega arith))
    | inr (same, spares) ↦ rw same (
      omega (arith, (tracks k small).0),
      λ l from to. elim (dec_lt l i) [
        | yes before ↦ (tracks k small).1 l from before
        | no later ↦
            let here : i ≡ l = omega arith in
            (
              (generator type instr i old usage).ibc,
              subst (λ t. get_elem? code t ≡ some (generator type instr i old usage).ibc) here at,
              spares,
            )
      ],
    )
  ]

cbranch-IsBranch :
    (code : List InstructionByteCode) (i : ℕ) (instr : Instruction) (old : InstructionByteCode)
    (usage : RegisterUsage)
    → Tracks code i usage
    → instr.mod_byte < 256
    → IsBranch code i (gen_cbranch instr i old usage).ibc
unfolding gen_cbranch Tracks
cbranch-IsBranch code i instr old usage tracks fits =
    let register : ℕ = instr.dst % registers_count in
    let small : register < registers_count = omega arith in
    record {
      type_is = refl;
      register = register;
      small = small;
      dst_is = refl;
      back = (tracks register small).0;
      spared = (tracks register small).1;
      twice = λ d. gen_cbranch-twice instr i old usage d fits;
    }

generator-Branches :
    (code : List InstructionByteCode) (i : ℕ) (instr : Instruction) (old : InstructionByteCode)
    (usage : RegisterUsage) (type : InstructionType)
    → Tracks code i usage
    → instr.mod_byte < 256
    → let ibc = (generator type instr i old usage).ibc in IsStraight ibc.type ⊎ IsBranch code i ibc
unfolding generator
generator-Branches code i instr old usage type tracks fits =
    elim (generator-IsStraight instr i old usage 0 type) [
      | inl straight ↦ inl straight
      | inr branch ↦ inr (
          subst (λ t. IsBranch code i (generator t instr i old usage).ibc) (sym branch)
            (cbranch-IsBranch code i instr old usage tracks fits))
    ]

compile_instruction-arm :
    (instr : Instruction) (i : ℕ) (old : InstructionByteCode) (usage : RegisterUsage)
    → IsInstruction instr
    → (type : InstructionType) × (compile_instruction instr i old usage
        ≡ some (generator type instr i old usage))
unfolding compile_instruction
compile_instruction-arm instr i old usage well =
    let (type, e) = decode-total instr.opcode well.opcode_fits in
    (type, rw (compile_instruction, e))

compile_from-Branches :
    (code : List InstructionByteCode) (i : ℕ) (usage : RegisterUsage)
    (program : List (Instruction × InstructionByteCode)) (bytecode : List InstructionByteCode)
    → compile_from i usage program ≡ some bytecode
    → IsProgram program
    → ((l : ℕ) → get_elem? code (i + l) ≡ get_elem? bytecode l)
    → Tracks code i usage
    → Branches code i
unfolding compile_from
compile_from-Branches code i usage [] bytecode e well tail tracks j ibc from found =
    let none_there : none ≡ get_elem? bytecode (j - i) =
      ap (λ (b : List InstructionByteCode). get_elem? b (j - i)) (some-injective [] bytecode e) in
    absurd (
      none-ne-some ibc (
        none_there
        ∙ sym (tail (j - i))
        ∙ ap (get_elem? code) {x = i + (j - i)} {y = j} (omega arith)
        ∙ found))
compile_from-Branches code i usage ((instr, old) ∷ rest) bytecode e well tail tracks j ibc from
      found =
    let (type, made) = compile_instruction-arm instr i old usage well.0 in
    let (c, ec, e1) = bind-some_inv (compile_instruction instr i old usage) _ _ e in
    let (others, et, e2) = bind-some_inv (compile_from (i + 1) c.usage rest) _ _ e1 in
    let arm : generator type instr i old usage ≡ c = some-injective _ c (sym made ∙ ec) in
    let whole : c.ibc ∷ others ≡ bytecode = some-injective _ bytecode e2 in
    let element : (l : ℕ) → get_elem? code (i + l) ≡ get_elem? (c.ibc ∷ others) l =
      λ l. tail l ∙ ap (λ (b : List InstructionByteCode). get_elem? b l) (sym whole) in
    let here : get_elem? code i ≡ some c.ibc =
      ap (get_elem? code) {x = i} {y = i + 0} (omega arith) ∙ element 0 in
    elim (dec_lt i j) [
      | yes later ↦
          compile_from-Branches code (i + 1) c.usage rest others et well.2
            (λ l.
              ap (get_elem? code) {x = i + 1 + l} {y = i + suc l} (omega arith) ∙ element (suc l))
            (subst (λ (d : Compiled). Tracks code (i + 1) d.usage) arm
              (generator-Tracks code i instr old usage type
                (here ∙ ap (λ (d : Compiled). some d.ibc) (sym arm)) tracks))
            j ibc (omega arith) found
      | no not_later ↦
          let same : i ≡ j = omega arith in
          let entry : c.ibc ≡ ibc =
            some-injective c.ibc ibc
              (sym here ∙ ap (get_elem? code) {x = i} {y = j} same ∙ found) in
          subst (λ (x : InstructionByteCode). IsStraight x.type ⊎ IsBranch code j x)
            (ap (λ (d : Compiled). d.ibc) arm ∙ entry)
            (subst
              (λ t.
                let x = (generator type instr i old usage).ibc in
                IsStraight x.type ⊎ IsBranch code t x)
              same (generator-Branches code i instr old usage type tracks well.0.mod_fits))
    ]

-- A compiled program's branches.
pub compile_program-Branches :
    (program : List (Instruction × InstructionByteCode)) (bytecode : List InstructionByteCode)
    → compile_program program ≡ some bytecode
    → IsProgram program
    → Branches bytecode 0
unfolding compile_program Tracks
compile_program-Branches program bytecode e well =
    compile_from-Branches bytecode 0 no_usage program bytecode e well
      (λ l. ap (get_elem? bytecode) {x = 0 + l} {y = l} (omega arith))
      (λ k small. (omega arith, λ l from to. absurd (omega arith)))
