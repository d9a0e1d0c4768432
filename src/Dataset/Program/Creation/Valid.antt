-- ===== src/Dataset/Program/Creation/Valid.antt =====
-- What an instruction that is being made has at each of its operations.
use nminer.Prelude.{
  ℕ, zero, suc, ◌%◌, ◌<◌, List, Bool, true, false, not, ◌&&◌, Option, none, some, ◌>>=◌, ◌≡◌, ◌≢◌,
  ◌⊎◌, inl, inr, refl, sym, ◌∙◌, ◌==◌, if◌then◌else◌, length, Bool-cases, if-both, get_elem?-inside,
  subst, arith,
}
use mathlib.Core.Option.{some-injective, none-ne-some}
use native.Mathlib.Nat.{mod-lt}
use nminer.Vm.Config.{is_zero_or_power_of_2}
use nminer.Dataset.Superscalar.{
  SuperscalarInstructionType, isub_r, ixor_r, iadd_rs, imul_r, iror_c, iadd_c7, ixor_c7, iadd_c8,
  ixor_c8, iadd_c9, ixor_c9, imulh_r, ismulh_r, imul_rcp,
}
use nminer.Dataset.Generator.{Generator, Call, get_byte, get_uint32, get}
use nminer.Dataset.Program.Tables.{
  superscalar_value, dst_op, src_op, slot_3, slot_3l, slot_4, slot_7, slot_8, slot_9,
}
use nminer.Dataset.Program.Creation.{
  SuperscalarInstruction, draw_rotation, draw_divisor, reset, create, choose, type_for_slot,
  create_for_slot, from_source, from_constant, from_product,
}

-- A stream of random numbers in the states `Ok`: it answers every call, and each of the two loops that draw
-- again has a value within `tries` draws.
pub record Source (blake2b : List ℕ → List ℕ) (tries : ℕ) (Ok : Generator → Type 0) : Type 0 where
  pub answers :
      (call : Call) (g : Generator)
      → Ok g
      → (value : ℕ) × (g' : Generator) × (get blake2b call g ≡ some (value, g')) × Ok g'
  pub rotates :
      (g : Generator) → Ok g → (r : ℕ × Generator) × (draw_rotation blake2b tries g ≡ some r)
  pub divides :
      (g : Generator) → Ok g → (r : ℕ × Generator) × (draw_divisor blake2b tries g ≡ some r)

-- A rotation is by 1 to 63, and a divisor has a reciprocal.
abbrev pub HasImmediate : SuperscalarInstructionType → ℕ → Type 0
HasImmediate iror_c imm32 = (0 < imm32) × (imm32 < 64)
HasImmediate imul_rcp imm32 = is_zero_or_power_of_2 imm32 ≡ false
HasImmediate _ imm32 = Unit

abbrev pub reuses : SuperscalarInstructionType → Bool
reuses imulh_r = true
reuses ismulh_r = true
reuses _ = false

-- A destination is not the source where that would be of no use, and IADD_RS does not write r5.
pub record IsApart (type : SuperscalarInstructionType) (dst : ℕ) (src : Option ℕ) : Type 0 where
  pub other : reuses type ≡ false → (s : ℕ) → src ≡ some s → dst ≢ s
  pub no_r5 : superscalar_value type ≡ 2 → dst ≢ 5

abbrev pub IsRegister : Option ℕ → Type 0
IsRegister none = Unit
IsRegister (some r) = r < 8

pub record IsCreated (type : SuperscalarInstructionType) (c : SuperscalarInstruction) : Type 0 where
  pub is_type : c.type ≡ some type
  pub immediate : HasImmediate type c.imm32
  pub reuse : c.can_reuse ≡ reuses type
  pub src_register : IsRegister c.src

-- The instruction before its operation `k`: the operations that need its registers and are done have them.
pub record InFlight (type : SuperscalarInstructionType) (c : SuperscalarInstruction) (k : ℕ)
    : Type 0 where
  pub created : IsCreated type c
  pub sourced : (op : ℕ) → src_op type ≡ some op → op < k → (s : ℕ) × (c.src ≡ some s)
  pub placed : dst_op type < k → (d : ℕ) × (c.dst ≡ some d) × (d < 8) × IsApart type d c.src

-- The source of an instruction that may not be its own destination is chosen before or with the destination.
pub source_before :
    (type : SuperscalarInstructionType) (k : ℕ)
    → reuses type ≡ false
    → src_op type ≡ some k
    → dst_op type < k
    → ⊥
unfolding src_op dst_op
source_before isub_r k e f h = absurd (omega (arith, some-injective 0 k f))
source_before imulh_r k e f h = cc
source_before ismulh_r k e f h = cc
source_before ixor_r k e f h = absurd (omega (arith, some-injective 0 k f))
source_before iadd_rs k e f h = absurd (omega (arith, some-injective 0 k f))
source_before imul_r k e f h = absurd (omega (arith, some-injective 0 k f))
source_before _ k e f h = absurd (none-ne-some k f)

abbrev pub IsSlotSize : ℕ → Type 0
IsSlotSize size =
    (size ≡ 3) ⊎ ((size ≡ 4) ⊎ ((size ≡ 7) ⊎ ((size ≡ 8) ⊎ ((size ≡ 9) ⊎ (size ≡ 10)))))

module _ (blake2b : List ℕ → List ℕ) (tries : ℕ) (Ok : Generator → Type 0)
    (source : Source blake2b tries Ok) where
  draw_rotation-bounds :
      (n : ℕ) (g : Generator) (value : ℕ) (g' : Generator)
      → Ok g
      → draw_rotation blake2b n g ≡ some (value, g')
      → (0 < value) × (value < 64) × Ok g'
  unfolding draw_rotation
  draw_rotation-bounds zero g value g' ok e = absurd (none-ne-some _ e)
  draw_rotation-bounds (suc n) g value g' ok e =
      let (byte, g1, got, ok1) = source.answers get_byte g ok in
      let drawn : (if byte % 64 == 0 then draw_rotation blake2b n g1 else some (byte % 64, g1))
          ≡ some (value, g') =
        sym (rw got refl) ∙ e in
      elim (Bool-cases (byte % 64 == 0)) [
        | inl nought ↦ draw_rotation-bounds n g1 value g' ok1 (rw nought at drawn)
        | inr found ↦
            let same = some-injective (byte % 64, g1) (value, g') (rw found at drawn) in
            subst (λ (r : ℕ × Generator). (0 < r.0) × (r.0 < 64) × Ok r.1) same
              (ground arith, omega arith, ok1)
      ]

  draw_divisor-accepted :
      (n : ℕ) (g : Generator) (value : ℕ) (g' : Generator)
      → Ok g
      → draw_divisor blake2b n g ≡ some (value, g')
      → (is_zero_or_power_of_2 value ≡ false) × Ok g'
  unfolding draw_divisor
  draw_divisor-accepted zero g value g' ok e = absurd (none-ne-some _ e)
  draw_divisor-accepted (suc n) g value g' ok e =
      let (word, g1, got, ok1) = source.answers get_uint32 g ok in
      let drawn : (if is_zero_or_power_of_2 word
            then draw_divisor blake2b n g1
            else some (word, g1))
          ≡ some (value, g') =
        sym (rw got refl) ∙ e in
      elim (Bool-cases (is_zero_or_power_of_2 word)) [
        | inl refused ↦ draw_divisor-accepted n g1 value g' ok1 (rw refused at drawn)
        | inr found ↦
            let same = some-injective (word, g1) (value, g') (rw found at drawn) in
            subst (λ (r : ℕ × Generator). (is_zero_or_power_of_2 r.0 ≡ false) × Ok r.1) same
              (found, ok1)
      ]

  -- What an arm of `create` gives.
  abbrev Creates : SuperscalarInstructionType → Option (SuperscalarInstruction × Generator) → Type 0
  Creates type r =
      (c : SuperscalarInstruction) × (g : Generator) × (r ≡ some (c, g)) × IsCreated type c × Ok g

  with_call-Creates :
      (type : SuperscalarInstructionType) (call : Call) (g : Generator)
      (arm : ℕ → SuperscalarInstruction)
      → Ok g
      → ((value : ℕ) → IsCreated type (arm value))
      → Creates type (get blake2b call g >>= λ r. some (arm r.0, r.1))
  with_call-Creates type call g arm ok made =
      let (value, g', got, ok') = source.answers call g ok in
      (arm value, g', rw got refl, made value, ok')

  create-Creates :
      (type : SuperscalarInstructionType) (c : SuperscalarInstruction) (g : Generator)
      → Ok g
      → Creates type (create blake2b tries type c g)
  unfolding create
  create-Creates isub_r c g ok =
      (_, g, refl, record { is_type = refl; immediate = tt; reuse = refl; src_register = tt }, ok)
  create-Creates ixor_r c g ok =
      (_, g, refl, record { is_type = refl; immediate = tt; reuse = refl; src_register = tt }, ok)
  create-Creates imul_r c g ok =
      (_, g, refl, record { is_type = refl; immediate = tt; reuse = refl; src_register = tt }, ok)
  create-Creates iror_c c g ok =
      let (r, drawn) = source.rotates g ok in
      let (low, high, ok') = draw_rotation-bounds tries g r.0 r.1 ok drawn in
      (
        from_constant iror_c (reset iror_c c) r.0,
        r.1,
        rw drawn refl,
        record { is_type = refl; immediate = (low, high); reuse = refl; src_register = tt },
        ok',
      )
  create-Creates imul_rcp c g ok =
      let (r, drawn) = source.divides g ok in
      let (accepted, ok') = draw_divisor-accepted tries g r.0 r.1 ok drawn in
      (
        from_constant imul_rcp (reset imul_rcp c) r.0,
        r.1,
        rw drawn refl,
        record { is_type = refl; immediate = accepted; reuse = refl; src_register = tt },
        ok',
      )
  create-Creates iadd_rs c g ok =
      with_call-Creates iadd_rs get_byte g (from_source iadd_rs (reset iadd_rs c)) ok
        (λ v. record { is_type = refl; immediate = tt; reuse = refl; src_register = tt })
  create-Creates imulh_r c g ok =
      with_call-Creates imulh_r get_uint32 g (from_product imulh_r (reset imulh_r c)) ok
        (λ v. record { is_type = refl; immediate = tt; reuse = refl; src_register = tt })
  create-Creates ismulh_r c g ok =
      with_call-Creates ismulh_r get_uint32 g (from_product ismulh_r (reset ismulh_r c)) ok
        (λ v. record { is_type = refl; immediate = tt; reuse = refl; src_register = tt })
  create-Creates iadd_c7 c g ok =
      with_call-Creates iadd_c7 get_uint32 g (from_constant iadd_c7 (reset iadd_c7 c)) ok
        (λ v. record { is_type = refl; immediate = tt; reuse = refl; src_register = tt })
  create-Creates iadd_c8 c g ok =
      with_call-Creates iadd_c8 get_uint32 g (from_constant iadd_c7 (reset iadd_c8 c)) ok
        (λ v. record { is_type = refl; immediate = tt; reuse = refl; src_register = tt })
  create-Creates iadd_c9 c g ok =
      with_call-Creates iadd_c9 get_uint32 g (from_constant iadd_c7 (reset iadd_c9 c)) ok
        (λ v. record { is_type = refl; immediate = tt; reuse = refl; src_register = tt })
  create-Creates ixor_c7 c g ok =
      with_call-Creates ixor_c7 get_uint32 g (from_constant ixor_c7 (reset ixor_c7 c)) ok
        (λ v. record { is_type = refl; immediate = tt; reuse = refl; src_register = tt })
  create-Creates ixor_c8 c g ok =
      with_call-Creates ixor_c8 get_uint32 g (from_constant ixor_c7 (reset ixor_c8 c)) ok
        (λ v. record { is_type = refl; immediate = tt; reuse = refl; src_register = tt })
  create-Creates ixor_c9 c g ok =
      with_call-Creates ixor_c9 get_uint32 g (from_constant ixor_c7 (reset ixor_c9 c)) ok
        (λ v. record { is_type = refl; immediate = tt; reuse = refl; src_register = tt })

  abbrev Chooses : Option (SuperscalarInstructionType × Generator) → Type 0
  Chooses r = (type : SuperscalarInstructionType) × (g : Generator) × (r ≡ some (type, g)) × Ok g

  choose-Chooses :
      (types : List SuperscalarInstructionType) (g : Generator)
      → Ok g
      → 0 < length types
      → Chooses (choose blake2b types g)
  unfolding choose
  choose-Chooses types g ok some_types =
      let (byte, g', got, ok') = source.answers get_byte g ok in
      let (type, there) = get_elem?-inside types (byte % length types) (mod-lt byte some_types) in
      (type, g', rw (got, there) refl, ok')

  type_for_slot-Chooses :
      (size fetch_type : ℕ) (is_last : Bool) (g : Generator)
      → Ok g
      → IsSlotSize size
      → Chooses (type_for_slot blake2b size fetch_type is_last g)
  unfolding type_for_slot
  type_for_slot-Chooses size fetch_type is_last g ok is_size =
      let For : ℕ → Type 0 = λ n. Chooses (type_for_slot blake2b n fetch_type is_last g) in
      elim is_size [
        | inl e ↦ subst For (sym e) (
            if-both is_last slot_3l slot_3 (λ types. Chooses (choose blake2b types g))
              (λ _. choose-Chooses slot_3l g ok (omega arith))
              (λ _. choose-Chooses slot_3 g ok (omega arith)))
        | inr (inl e) ↦ subst For (sym e) (
            if-both ((fetch_type == 4) && not is_last) (some (imul_r, g)) (choose blake2b slot_4 g)
              Chooses (λ _. (imul_r, g, refl, ok)) (λ _. choose-Chooses slot_4 g ok (omega arith)))
        | inr (inr (inl e)) ↦ subst For (sym e) (choose-Chooses slot_7 g ok (omega arith))
        | inr (inr (inr (inl e))) ↦ subst For (sym e) (choose-Chooses slot_8 g ok (omega arith))
        | inr (inr (inr (inr (inl e)))) ↦
            subst For (sym e) (choose-Chooses slot_9 g ok (omega arith))
        | inr (inr (inr (inr (inr e)))) ↦ subst For (sym e) (imul_rcp, g, refl, ok)
      ]

  pub create_for_slot-InFlight :
      (size fetch_type : ℕ) (is_last : Bool) (c : SuperscalarInstruction) (g : Generator)
      → Ok g
      → IsSlotSize size
      → (type : SuperscalarInstructionType) × (c' : SuperscalarInstruction) × (g' : Generator)
        × (create_for_slot blake2b tries size fetch_type is_last c g ≡ some (c', g'))
        × InFlight type c' 0
        × Ok g'
  unfolding create_for_slot
  create_for_slot-InFlight size fetch_type is_last c g ok is_size =
      let (type, g1, chosen, ok1) = type_for_slot-Chooses size fetch_type is_last g ok is_size in
      let (c', g', got, made, ok') = create-Creates type c g1 ok1 in
      (
        type,
        c',
        g',
        rw (chosen, got) refl,
        record {
          created = made;
          sourced = λ op e h. absurd (omega arith);
          placed = λ h. absurd (omega arith);
        },
        ok',
      )
