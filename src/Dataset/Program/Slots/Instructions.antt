-- ===== src/Dataset/Program/Slots/Instructions.antt =====
-- The instructions that the generator adds to a program.
use nminer.Prelude.{
  ℕ, ◌≤◌, ◌<◌, List, [], ◌∷◌, ◌++◌, Option, none, some, ◌≡◌, ◌≢◌, refl, sym, ap, ◌∙◌, length, subst,
  arith,
}
use mathlib.Core.Option.{some-injective, none-ne-some}
use nminer.Vm.Instruction.{Instruction}
use nminer.Dataset.Superscalar.{
  SuperscalarInstructionType, isub_r, ixor_r, iadd_rs, imul_r, imulh_r, ismulh_r, imul_rcp,
  superscalar_type,
}
use nminer.Dataset.Program.Tables.{superscalar_value, ops_of, dst_op, src_op, result_op}
use nminer.Dataset.Program.Creation.{SuperscalarInstruction, to_instr, group_value}
use nminer.Dataset.Program.Creation.Valid.{HasImmediate, IsApart, InFlight, IsRegister}

-- A subtraction, an exclusive or and a product have two registers, and so has IADD_RS, which does not write r5.
abbrev pub Differs : SuperscalarInstructionType → ℕ → ℕ → Type 0
Differs isub_r dst src = dst ≢ src
Differs ixor_r dst src = dst ≢ src
Differs imul_r dst src = dst ≢ src
Differs iadd_rs dst src = (dst ≢ src) × (dst ≢ 5)
Differs _ dst src = Unit

-- An instruction that executeSuperscalar runs.
pub record IsSuperscalar (instr : Instruction) : Type 0 where
  pub type : SuperscalarInstructionType
  pub decodes : superscalar_type instr.opcode ≡ some type
  pub dst_register : instr.dst < 8
  pub src_register : instr.src < 8
  pub immediate : HasImmediate type instr.imm32
  pub differs : Differs type instr.dst instr.src

abbrev pub AllSuperscalar : List Instruction → Type 0
AllSuperscalar [] = Unit
AllSuperscalar (instr ∷ rest) = IsSuperscalar instr × AllSuperscalar rest

pub AllSuperscalar-append :
    (xs : List Instruction) (instr : Instruction)
    → AllSuperscalar xs
    → IsSuperscalar instr
    → AllSuperscalar (xs ++ (instr ∷ []))
AllSuperscalar-append [] instr all one = (one, tt)
AllSuperscalar-append (x ∷ xs) instr all one = (all.0, AllSuperscalar-append xs instr all.1 one)

pub dst_op-lt : (type : SuperscalarInstructionType) → dst_op type < length (ops_of type)
unfolding dst_op ops_of
dst_op-lt imul_rcp = omega arith
dst_op-lt imulh_r = omega arith
dst_op-lt ismulh_r = omega arith
dst_op-lt _ = omega arith

-- The destination is known when the result is written.
pub dst_op-le-result_op : (type : SuperscalarInstructionType) → dst_op type ≤ result_op type
unfolding dst_op result_op
dst_op-le-result_op imul_rcp = omega arith
dst_op-le-result_op imulh_r = omega arith
dst_op-le-result_op ismulh_r = omega arith
dst_op-le-result_op _ = omega arith

src_op-lt :
    (type : SuperscalarInstructionType) (op : ℕ) → src_op type ≡ some op → op < length (ops_of type)
unfolding src_op ops_of
src_op-lt isub_r op e = omega (arith, some-injective 0 op e)
src_op-lt ixor_r op e = omega (arith, some-injective 0 op e)
src_op-lt iadd_rs op e = omega (arith, some-injective 0 op e)
src_op-lt imul_r op e = omega (arith, some-injective 0 op e)
src_op-lt imulh_r op e = omega (arith, some-injective 1 op e)
src_op-lt ismulh_r op e = omega (arith, some-injective 1 op e)
src_op-lt _ op e = absurd (none-ne-some op e)

superscalar_type-value :
    (type : SuperscalarInstructionType) → superscalar_type (superscalar_value type) ≡ some type
unfolding superscalar_type superscalar_value
superscalar_type-value isub_r = refl
superscalar_type-value _ = refl

-- toInstr takes the destination for a source that there is not.
abbrev src_or : ℕ → Option ℕ → ℕ
src_or dst none = dst
src_or dst (some src) = src

src_or-lt : (dst : ℕ) (src : Option ℕ) → dst < 8 → IsRegister src → src_or dst src < 8
src_or-lt dst none h r = h
src_or-lt dst (some src) h r = r

apart-Differs :
    (type : SuperscalarInstructionType) (dst : ℕ) (src : Option ℕ)
    → IsApart type dst src
    → ((op : ℕ) → src_op type ≡ some op → (s : ℕ) × (src ≡ some s))
    → Differs type dst (src_or dst src)
unfolding src_op superscalar_value
apart-Differs isub_r dst src apart has =
    let (s, e) = has 0 refl in
    subst (λ (o : Option ℕ). dst ≢ src_or dst o) (sym e) (apart.other refl s e)
apart-Differs ixor_r dst src apart has =
    let (s, e) = has 0 refl in
    subst (λ (o : Option ℕ). dst ≢ src_or dst o) (sym e) (apart.other refl s e)
apart-Differs imul_r dst src apart has =
    let (s, e) = has 0 refl in
    subst (λ (o : Option ℕ). dst ≢ src_or dst o) (sym e) (apart.other refl s e)
apart-Differs iadd_rs dst src apart has =
    let (s, e) = has 0 refl in
    (subst (λ (o : Option ℕ). dst ≢ src_or dst o) (sym e) (apart.other refl s e), apart.no_r5 refl)
apart-Differs _ dst src apart has = tt

-- An instruction whose operations are all issued becomes one that runs.
pub to_instr-IsSuperscalar :
    (type : SuperscalarInstructionType) (c : SuperscalarInstruction) (k : ℕ)
    → InFlight type c k
    → length (ops_of type) ≤ k
    → (instr : Instruction) × (to_instr c ≡ some instr) × IsSuperscalar instr
unfolding to_instr group_value
to_instr-IsSuperscalar type c k flight all_issued =
    let (dst, is_dst, below, apart) = flight.placed (omega (arith, dst_op-lt type)) in
    let is_value : group_value c.type ≡ superscalar_value type =
      ap group_value flight.created.is_type in
    (
      record {
        opcode = group_value c.type;
        dst = dst;
        src = src_or dst c.src;
        mod_byte = c.mod_byte;
        imm32 = c.imm32;
      },
      rw is_dst refl,
      record {
        type = type;
        decodes = ap superscalar_type is_value ∙ superscalar_type-value type;
        dst_register = below;
        src_register = src_or-lt dst c.src below flight.created.src_register;
        immediate = flight.created.immediate;
        differs =
            apart-Differs type dst c.src apart
              (λ op e. flight.sourced op e (omega (arith, src_op-lt type op e)));
      },
    )
