-- ===== src/Dataset/Program/Creation/Registers.antt =====
-- The registers that selectSource and selectDestination give an instruction.
use nminer.Prelude.{
  ℕ, zero, suc, ◌+◌, ◌%◌, ◌<◌, List, [], ◌∷◌, Bool, true, false, not, ◌&&◌, ◌||◌, Option, none,
  some, ◌>>=◌, ◌≡◌, inl, inr, refl, ap, ◌∙◌, ◌==◌, ==_iff, length, get_elem?, Bool-cases, if-both,
  get_elem?-inside, subst, arith,
}
use mathlib.Core.Option.{some-injective, none-ne-some}
use native.Mathlib.Nat.{mod-lt}
use nminer.Dataset.Superscalar.{SuperscalarInstructionType}
use nminer.Dataset.Generator.{Generator, get_uint32}
use nminer.Dataset.Program.Tables.{superscalar_value, dst_op, src_op}
use nminer.Dataset.Program.Creation.{
  SuperscalarInstruction, RegisterInfo, available, select_register, select_source,
  select_destination, with_source, same_register, source_fits, destination_fits, pair_with_r5,
  is_lea, group_value,
}
use nminer.Dataset.Program.Creation.Valid.{Source, IsCreated, InFlight, IsApart, source_before}

available-fits :
    (count i j r : ℕ) (test : ℕ → Bool)
    → get_elem? (available count i test) j ≡ some r
    → (r < i + count) × (test r ≡ true)
unfolding available
available-fits zero i j r test e = absurd (none-ne-some r e)
available-fits (suc count) i j r test e = elim (Bool-cases (test i)) [
  | inl fits ↦ first fits (λ n h. available-fits count (i + 1) n r test h) j (rw fits at e)
  | inr other ↦
      let (below, passed) = available-fits count (i + 1) j r test (rw other at e) in
      (omega (arith, below), passed)
]
  where
    first :
        test i ≡ true
        → ((n : ℕ)
            → get_elem? (available count (i + 1) test) n ≡ some r
            → (r < i + 1 + count) × (test r ≡ true))
        → (n : ℕ) → get_elem? (i ∷ available count (i + 1) test) n ≡ some r
        → (r < i + suc count) × (test r ≡ true)
    first fits rest zero h =
        let same = some-injective i r h in
        (omega (arith, same), subst (λ (t : ℕ). test t ≡ true) same fits)
    first fits rest (suc n) h = let (below, passed) = rest n h in (omega (arith, below), passed)

and_inv : (a b : Bool) → (a && b) ≡ true → (a ≡ true) × (b ≡ true)
and_inv true b e = (refl, e)
and_inv false b e = cc

or_inv : (a b : Bool) → (a || b) ≡ true → a ≡ false → b ≡ true
or_inv true b e f = cc
or_inv false b e f = e

not-eq_false : (b : Bool) → b ≡ true → not b ≡ false
not-eq_false b e = rw e refl

-- What the test of a destination means.
destination_fits-IsApart :
    (type : SuperscalarInstructionType) (c : SuperscalarInstruction) (cycle : ℕ)
    (allow_chained_mul : Bool) (registers : ℕ → RegisterInfo) (d : ℕ)
    → IsCreated type c
    → destination_fits c cycle allow_chained_mul registers d ≡ true
    → IsApart type d c.src
unfolding group_value
destination_fits-IsApart type c cycle allow_chained_mul registers d created fits =
    let (_, rest) = and_inv _ _ fits in
    let (apart, rest') = and_inv _ _ rest in
    let (_, rest'') = and_inv _ _ rest' in
    let (_, lea) = and_inv _ _ rest'' in
    record {
      other = λ no_reuse s is_src same.
          let differs : not (d == s) ≡ true =
            subst (λ (src : Option ℕ). not (same_register d src) ≡ true) is_src
              (or_inv c.can_reuse (not (same_register d c.src)) apart (created.reuse ∙ no_reuse)) in
          cc (differs, not-eq_false (d == s) ((==_iff d s).1 same));
      no_r5 = λ is_add same.
          let value : is_lea c.type ≡ true =
            ap is_lea created.is_type ∙ (==_iff (superscalar_value type) 2).1 is_add in
          let differs : not (d == 5) ≡ true =
            or_inv (not (is_lea c.type)) (not (d == 5)) lea (not-eq_false (is_lea c.type) value) in
          cc (differs, not-eq_false (d == 5) ((==_iff d 5).1 same));
    }

pub record IsSourced (type : SuperscalarInstructionType) (k : ℕ) (c : SuperscalarInstruction)
    : Type 0 where
  pub flight : InFlight type c k
  pub has_src : src_op type ≡ some k → (s : ℕ) × (c.src ≡ some s)

pub record IsPlaced (type : SuperscalarInstructionType) (k : ℕ) (c : SuperscalarInstruction)
    : Type 0 where
  pub with_src : IsSourced type k c
  pub has_dst : dst_op type ≡ k → (d : ℕ) × (c.dst ≡ some d) × (d < 8) × IsApart type d c.src

module _ (blake2b : List ℕ → List ℕ) (tries : ℕ) (Ok : Generator → Type 0)
    (source : Source blake2b tries Ok) where
  -- A register found is one of the list.
  abbrev Picks : List ℕ → Option (ℕ × Generator) → Type 0
  Picks xs none = Unit
  Picks xs (some (r, g)) = ((j : ℕ) × (get_elem? xs j ≡ some r)) × Ok g

  select_register-Picks :
      (xs : List ℕ) (g : Generator)
      → Ok g
      → (found : Option (ℕ × Generator)) × (select_register blake2b xs g ≡ some found)
        × Picks xs found
  unfolding select_register
  select_register-Picks [] g ok = (none, refl, tt)
  select_register-Picks (x ∷ []) g ok = (some (x, g), refl, ((0, refl), ok))
  select_register-Picks (x ∷ y ∷ rest) g ok =
      let (word, g', got, ok') = source.answers get_uint32 g ok in
      let k = word % length (x ∷ y ∷ rest) in
      let (r, there) = get_elem?-inside (x ∷ y ∷ rest) k (mod-lt word (omega arith)) in
      (some (r, g'), rw (got, there) refl, ((k, there), ok'))

  -- An instruction found has a property, and the generator is in a good state.
  abbrev pub Finds :
      (SuperscalarInstruction → Type 0) → Option (SuperscalarInstruction × Generator) → Type 0
  Finds P none = Unit
  Finds P (some (c, g)) = P c × Ok g

  -- The instruction that a selected register makes, or none.
  abbrev made_by :
      (ℕ → SuperscalarInstruction)
      → Option (ℕ × Generator)
      → Option (SuperscalarInstruction × Generator)
  made_by with_reg none = none
  made_by with_reg (some (reg, g)) = some (with_reg reg, g)

  made_by-Finds :
      (P : SuperscalarInstruction → Type 0) (with_reg : ℕ → SuperscalarInstruction) (xs : List ℕ)
      (found : Option (ℕ × Generator))
      → ((j r : ℕ) → get_elem? xs j ≡ some r → P (with_reg r))
      → Picks xs found
      → Finds P (made_by with_reg found)
  made_by-Finds P with_reg xs none all picks = tt
  made_by-Finds P with_reg xs (some (reg, g)) all ((j, there), ok) = (all j reg there, ok)

  -- A selection of a register from a list.
  selects :
      (P : SuperscalarInstruction → Type 0) (with_reg : ℕ → SuperscalarInstruction) (xs : List ℕ)
      (g : Generator)
      → Ok g
      → ((j r : ℕ) → get_elem? xs j ≡ some r → P (with_reg r))
      → (found : Option (SuperscalarInstruction × Generator)) × ((select_register blake2b xs g
            >>= λ picked.
                some (elim picked [ none ↦ none | some (reg, g') ↦ some (with_reg reg, g') ]))
          ≡ some found)
        × Finds P found
  selects P with_reg xs g ok all =
      let (found, picked, picks) = select_register-Picks xs g ok in
      (made_by with_reg found, rw picked (case found), made_by-Finds P with_reg xs found all picks)
    where
      case :
          (found : Option (ℕ × Generator))
          → ◌≡◌ {A = Option (Option (SuperscalarInstruction × Generator))}
              (some (elim found [ none ↦ none | some (reg, g') ↦ some (with_reg reg, g') ]))
              (some (made_by with_reg found))
      case none = refl
      case (some (reg, g')) = refl

  module _ (type : SuperscalarInstructionType) (k cycle : ℕ) (registers : ℕ → RegisterInfo)
      (c : SuperscalarInstruction) (g : Generator) (ok : Ok g) where
    IsSourced-by :
        (r par : ℕ)
        → r < 8
        → InFlight type c k
        → src_op type ≡ some k
        → IsSourced type k (record c { src = some r; op_group_par = par })
    IsSourced-by r par below flight here = record {
      flight = record {
        created = record {
          is_type = flight.created.is_type;
          immediate = flight.created.immediate;
          reuse = flight.created.reuse;
          src_register = below;
        };
        sourced = λ op e h. (r, refl);
        placed = λ h.
            let (d, is_dst, low, apart) = flight.placed h in
            (
              d,
              is_dst,
              low,
              record {
                other = λ no_reuse s e. absurd (source_before type k no_reuse here h);
                no_r5 = apart.no_r5;
              },
            );
      };
      has_src = λ _. (r, refl);
    }

    IsPlaced-by :
        (d : ℕ)
        → d < 8
        → IsApart type d c.src
        → IsSourced type k c
        → dst_op type ≡ k
        → IsPlaced type k (record c { dst = some d })
    IsPlaced-by d below apart sourced here = record {
      with_src = record {
        flight = record {
          created = record {
            is_type = sourced.flight.created.is_type;
            immediate = sourced.flight.created.immediate;
            reuse = sourced.flight.created.reuse;
            src_register = sourced.flight.created.src_register;
          };
          sourced = sourced.flight.sourced;
          placed = λ h. absurd (omega (arith, here, h));
        };
        has_src = sourced.has_src;
      };
      has_dst = λ _. (d, refl, below, apart);
    }

    pub select_source-Finds :
        InFlight type c k
        → src_op type ≡ some k
        → (found : Option (SuperscalarInstruction × Generator)) × (select_source blake2b cycle
              registers c g
            ≡ some found)
          × Finds (IsSourced type k) found
    unfolding select_source
    select_source-Finds flight here =
        let ready = available 8 0 (source_fits cycle registers) in
        if-both (is_lea c.type && pair_with_r5 ready) _ _
          (λ (r : Option (Option (SuperscalarInstruction × Generator))).
            (found : Option (SuperscalarInstruction × Generator)) × (r ≡ some found)
            × Finds (IsSourced type k) found)
          (λ _. (some _, refl, (IsSourced-by 5 5 (omega arith) flight here, ok)))
          (λ _. selects (IsSourced type k) (with_source c) ready g ok (λ j r there.
            let (below, _) = available-fits 8 0 j r (source_fits cycle registers) there in
            IsSourced-by r _ (omega (arith, below)) flight here))

    pub select_destination-Finds :
        (allow_chained_mul : Bool)
        → IsSourced type k c
        → dst_op type ≡ k
        → (found : Option (SuperscalarInstruction × Generator)) × (select_destination blake2b cycle
              allow_chained_mul registers c g
            ≡ some found)
          × Finds (IsPlaced type k) found
    unfolding select_destination
    select_destination-Finds allow_chained_mul sourced here =
        let test = destination_fits c cycle allow_chained_mul registers in
        selects (IsPlaced type k) (λ reg. record c { dst = some reg }) (available 8 0 test) g ok
          (λ j r there.
            let (below, fits) = available-fits 8 0 j r test there in
            IsPlaced-by r (omega (arith, below))
              (destination_fits-IsApart type c cycle allow_chained_mul registers r
                sourced.flight.created fits)
              sourced here)
