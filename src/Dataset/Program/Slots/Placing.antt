-- ===== src/Dataset/Program/Slots/Placing.antt =====
-- A round of the loop over the slots, from its start to where an operation is issued.
use nminer.Prelude.{
  ℕ, zero, suc, ◌+◌, ◌<◌, List, [], ◌∷◌, Bool, true, false, ◌||◌, Option, none, some, ◌≡◌, inl, inr,
  refl, sym, ap, ◌∙◌, ltb, leb, ◌==◌, ==_iff, length, get_elem?, if-both, or_false, lt_of_not_leb,
  get_elem?-inside, subst, arith,
}
use mathlib.Core.Option.{some-injective, none-ne-some}
use nminer.Vm.Config.{superscalar_max_size}
use nminer.Dataset.Superscalar.{SuperscalarInstructionType}
use nminer.Dataset.Generator.{Generator}
use nminer.Dataset.Schedule.{MacroOp, schedule_mop}
use nminer.Dataset.Program.Tables.{DecoderBuffer, ops_of, dst_op, src_op, size_of}
use nminer.Dataset.Program.Creation.{SuperscalarInstruction, select_source, select_destination}
use nminer.Dataset.Program.Creation.Valid.{Source, IsSlotSize, create_for_slot-InFlight}
use nminer.Dataset.Program.Creation.Registers.{
  Finds, IsSourced, IsPlaced, select_source-Finds, select_destination-Finds,
}
use nminer.Dataset.Program.Slots.{
  Locals, breaks, Search, look_forward, seek, throw_away, needs_source, is_at, needs_destination,
  op_at, schedule_and_issue, place_destination, place, next_instruction, place_op, one_slot,
  look_forward_cycles,
}
use nminer.Dataset.Program.Slots.Instructions.{dst_op-lt}
use nminer.Dataset.Program.Slots.Rounds.{
  IsGood, IsReady, Rounds, throw_away-Rounds, saturated-Rounds, schedule_and_issue-Rounds,
}

is_at-some : (op : Option ℕ) (k : ℕ) → is_at op k ≡ true → op ≡ some k
is_at-some none k e = cc
is_at-some (some op) k e = ap some ((==_iff op k).0 e)

abbrev pub AllSlotSizes : List ℕ → Type 0
AllSlotSizes [] = Unit
AllSlotSizes (size ∷ rest) = IsSlotSize size × AllSlotSizes rest

IsSlotSize-at :
    (sizes : List ℕ) (i size : ℕ)
    → AllSlotSizes sizes
    → get_elem? sizes i ≡ some size
    → IsSlotSize size
IsSlotSize-at [] i size all e = absurd (none-ne-some size e)
IsSlotSize-at (x ∷ xs) zero size all e = subst IsSlotSize (some-injective x size e) all.0
IsSlotSize-at (x ∷ xs) (suc i) size all e = IsSlotSize-at xs i size all.1 e

module _ (blake2b : List ℕ → List ℕ) (tries : ℕ) (Ok : Generator → Type 0)
    (source : Source blake2b tries Ok) where
  -- What a search gives, if each of its tries can be made.
  seek-Finds :
      (P : SuperscalarInstruction → Type 0) (needed : Bool)
      (select : ℕ → Option (Option (SuperscalarInstruction × Generator)))
      (c : SuperscalarInstruction) (g : Generator) (schedule_cycle cycle : ℕ)
      → Ok g
      → (needed ≡ false → P c)
      → (needed ≡ true
          → (t : ℕ)
          → (found : Option (SuperscalarInstruction × Generator)) × (select t ≡ some found)
            × Finds blake2b tries Ok source P found)
      → (search : Search) × (seek needed select c g schedule_cycle cycle ≡ some search)
        × Finds blake2b tries Ok source P search.0
  unfolding seek
  seek-Finds P false select c g schedule_cycle cycle ok free tried =
      ((some (c, g), schedule_cycle, cycle), refl, (free refl, ok))
  seek-Finds P true select c g schedule_cycle cycle ok free tried =
      forward look_forward_cycles schedule_cycle cycle
    where
      forward :
          (rounds at now : ℕ)
          → (search : Search) × (look_forward select rounds at now ≡ some search)
            × Finds blake2b tries Ok source P search.0
      forward zero at now = ((none, at, now), refl, tt)
      forward (suc rounds) at now =
          let (found, selected, finds) = tried refl at in
          case found selected finds (forward rounds (at + 1) (now + 1))
        where
          case :
              (found : Option (SuperscalarInstruction × Generator))
              → select at ≡ some found
              → Finds blake2b tries Ok source P found
              → ((search : Search) × (look_forward select rounds (at + 1) (now + 1) ≡ some search)
                  × Finds blake2b tries Ok source P search.0)
              → (search : Search) × (look_forward select (suc rounds) at now ≡ some search)
                × Finds blake2b tries Ok source P search.0
          case none selected finds (search, later, rest) = (search, rw selected later, rest)
          case (some (c', g')) selected finds later =
              ((some (c', g'), at, now), rw selected refl, finds)

  -- The ends of a round that sought its destination, and its source.
  place_destination-Rounds :
      (type : SuperscalarInstructionType) (mop : MacroOp) (top_cycle schedule_cycle : ℕ)
      (s0 s : Locals)
      → IsReady blake2b tries Ok source type s
      → IsSourced type s.macro_op_index s.current
      → s.buffer_index ≡ s0.buffer_index
      → s.throw_away_count ≡ s0.throw_away_count
      → Rounds blake2b tries Ok source s0
          (place_destination blake2b tries mop top_cycle schedule_cycle s)
  unfolding place_destination
  place_destination-Rounds type mop top_cycle schedule_cycle s0 s ready sourced index thrown =
      let needed = needs_destination s.current.type s.macro_op_index in
      let is_needed : needed ≡ (dst_op type == s.macro_op_index) =
        ap (λ t. needs_destination t s.macro_op_index) ready.flight.created.is_type in
      let (search, sought, finds) =
        seek-Finds (IsPlaced type s.macro_op_index) needed
          (λ t.
            select_destination blake2b t (ltb 0 s.throw_away_count) s.registers s.current
              s.generator)
          s.current s.generator schedule_cycle s.cycle ready.gen
          (λ free. record {
            with_src = sourced;
            has_dst = λ e. cc (sym is_needed ∙ free, (==_iff (dst_op type) s.macro_op_index).1 e);
          })
          (λ here t.
            select_destination-Finds blake2b tries Ok source type s.macro_op_index t s.registers
              s.current s.generator ready.gen (ltb 0 s.throw_away_count) sourced
              ((==_iff (dst_op type) s.macro_op_index).0 (sym is_needed ∙ here))) in
      rw sought (ends search.0 search.1 search.2 finds)
    where
      ends :
          (found : Option (SuperscalarInstruction × Generator)) (at cycle : ℕ)
          → Finds blake2b tries Ok source (IsPlaced type s.macro_op_index) found
          → Rounds blake2b tries Ok source s0 (elim found [
            | none ↦ some (throw_away cycle s)
            | some (c, g) ↦
                schedule_and_issue mop top_cycle at
                  (record s { current = c; generator = g; cycle = cycle; throw_away_count = 0 })
          ])
      ends none at cycle finds =
          throw_away-Rounds blake2b tries Ok source type cycle s0 s ready index thrown
      ends (some (c, g)) at cycle (placed, ok) =
          schedule_and_issue-Rounds blake2b tries Ok source type mop top_cycle at s0
            (record s { current = c; generator = g; cycle = cycle; throw_away_count = 0 })
            (record {
              gen = ok;
              program = ready.program;
              open_end = ready.open_end;
              placed = placed;
            })
            index

  place-Rounds :
      (type : SuperscalarInstructionType) (mop : MacroOp) (schedule_cycle : ℕ) (s0 s : Locals)
      → IsReady blake2b tries Ok source type s
      → s.buffer_index ≡ s0.buffer_index
      → s.throw_away_count ≡ s0.throw_away_count
      → Rounds blake2b tries Ok source s0 (place blake2b tries mop schedule_cycle s)
  unfolding place
  place-Rounds type mop schedule_cycle s0 s ready index thrown =
      let needed = needs_source s.current.type s.macro_op_index in
      let is_needed : needed ≡ is_at (src_op type) s.macro_op_index =
        ap (λ t. needs_source t s.macro_op_index) ready.flight.created.is_type in
      let (search, sought, finds) =
        seek-Finds (IsSourced type s.macro_op_index) needed
          (λ t. select_source blake2b t s.registers s.current s.generator) s.current s.generator
          schedule_cycle s.cycle ready.gen
          (λ free. record {
            flight = ready.flight;
            has_src = λ e. cc (
              sym is_needed ∙ free,
              ap (λ op. is_at op s.macro_op_index) e
                  ∙ (==_iff s.macro_op_index s.macro_op_index).1 refl,
            );
          })
          (λ here t.
            select_source-Finds blake2b tries Ok source type s.macro_op_index t s.registers
              s.current s.generator ready.gen ready.flight
              (is_at-some (src_op type) s.macro_op_index (sym is_needed ∙ here))) in
      rw sought (ends search.0 search.1 search.2 finds)
    where
      ends :
          (found : Option (SuperscalarInstruction × Generator)) (at cycle : ℕ)
          → Finds blake2b tries Ok source (IsSourced type s.macro_op_index) found
          → Rounds blake2b tries Ok source s0 (elim found [
            | none ↦ some (throw_away cycle s)
            | some (c, g) ↦
                place_destination blake2b tries mop s.cycle at
                  (record s { current = c; generator = g; cycle = cycle })
          ])
      ends none at cycle finds =
          throw_away-Rounds blake2b tries Ok source type cycle s0 s ready index thrown
      ends (some (c, g)) at cycle (sourced, ok) =
          place_destination-Rounds type mop s.cycle at s0
            (record s { current = c; generator = g; cycle = cycle })
            (record {
              gen = ok;
              program = ready.program;
              open_end = ready.open_end;
              flight = sourced.flight;
            })
            sourced index thrown

  place_op-Rounds :
      (type : SuperscalarInstructionType) (s0 s : Locals)
      → IsReady blake2b tries Ok source type s
      → s.macro_op_index < length (ops_of type)
      → s.buffer_index ≡ s0.buffer_index
      → s.throw_away_count ≡ s0.throw_away_count
      → Rounds blake2b tries Ok source s0 (place_op blake2b tries s)
  unfolding place_op
  place_op-Rounds type s0 s ready inside index thrown =
      let (mop, there) = get_elem?-inside (ops_of type) s.macro_op_index inside in
      let is_op : op_at s.current.type s.macro_op_index ≡ some mop =
        ap (λ t. op_at t s.macro_op_index) ready.flight.created.is_type ∙ there in
      rw is_op
        (elim (schedule_mop false mop s.port_busy s.cycle s.dep_cycle)
          as (λ r. Rounds blake2b tries Ok source s0 (elim r [
            | none ↦ some (breaks, record s { ports_saturated = true })
            | some (schedule_cycle, _) ↦ place blake2b tries mop schedule_cycle s
          ])) [
            | none ↦ saturated-Rounds blake2b tries Ok source type s0 s ready
            | some (schedule_cycle, _) ↦
                place-Rounds type mop schedule_cycle s0 s ready index thrown
          ])

  -- What the start of a round gives: nothing to do, or an operation of an instruction.
  abbrev Begins : Locals → Option Locals → Type 0
  Begins s0 none = Unit
  Begins s0 (some s) =
      (type : SuperscalarInstructionType) × IsReady blake2b tries Ok source type s
      × (s.macro_op_index < length (ops_of type))
      × (s.buffer_index ≡ s0.buffer_index)
      × (s.throw_away_count ≡ s0.throw_away_count)

  abbrev BeginsWith : Locals → Option (Option Locals) → Type 0
  BeginsWith s0 r = (begun : Option Locals) × (r ≡ some begun) × Begins s0 begun

  next_instruction-Begins :
      (buffer : DecoderBuffer) (s : Locals)
      → IsGood blake2b tries Ok source s
      → s.buffer_index < length buffer.counts
      → AllSlotSizes buffer.counts
      → BeginsWith s (next_instruction blake2b tries buffer s)
  unfolding next_instruction size_of
  next_instruction-Begins buffer s good inside sizes =
      if-both (leb (size_of s.current.type) s.macro_op_index) _ _ (BeginsWith s)
        (λ issued.
          if-both (s.ports_saturated || leb superscalar_max_size (length s.program)) _ _
            (BeginsWith s) (λ _. (none, refl, tt))
            (λ going_on.
              let (_, not_full) =
                or_false s.ports_saturated (leb superscalar_max_size (length s.program)) going_on in
              let (size, there) = get_elem?-inside buffer.counts s.buffer_index inside in
              let (type, c, g, created, flight, ok) =
                create_for_slot-InFlight blake2b tries Ok source size buffer.index
                  (length buffer.counts == s.buffer_index + 1) s.current s.generator good.gen
                  (IsSlotSize-at buffer.counts s.buffer_index size sizes there) in
              (
                some (record s { current = c; generator = g; macro_op_index = 0 }),
                rw (there, created) refl,
                (
                  type,
                  record {
                    gen = ok;
                    program = good.program;
                    open_end = lt_of_not_leb superscalar_max_size (length s.program) not_full;
                    flight = flight;
                  },
                  omega (arith, dst_op-lt type),
                  refl,
                  refl,
                ),
              )))
        (λ more.
          let not_issued = lt_of_not_leb (size_of s.current.type) s.macro_op_index more in
          elim good.current [
            | inl issued ↦ absurd (omega (arith, issued, not_issued))
            | inr (type, flight, open_end) ↦
                let is_size : size_of s.current.type ≡ length (ops_of type) =
                  ap size_of flight.created.is_type in
                (
                  some s,
                  refl,
                  (
                    type,
                    record {
                      gen = good.gen;
                      program = good.program;
                      open_end = open_end;
                      flight = flight;
                    },
                    omega (arith, not_issued, is_size),
                    refl,
                    refl,
                  ),
                )
          ])

  -- A round of the loop over the slots does what it should and gets further, or leaves the loop.
  pub one_slot-Rounds :
      (buffer : DecoderBuffer) (s : Locals)
      → IsGood blake2b tries Ok source s
      → s.buffer_index < length buffer.counts
      → AllSlotSizes buffer.counts
      → Rounds blake2b tries Ok source s (one_slot blake2b tries buffer s)
  unfolding one_slot
  one_slot-Rounds buffer s good inside sizes =
      let (begun, begins, ready) = next_instruction-Begins buffer s good inside sizes in
      rw begins (round begun ready)
    where
      round :
          (begun : Option Locals)
          → Begins s begun
          → Rounds blake2b tries Ok source s
              (elim begun [ none ↦ some (breaks, s) | some s' ↦ place_op blake2b tries s' ])
      round none ready = (breaks, s, refl, good, tt)
      round (some s') (type, ready, within, index, thrown) =
          place_op-Rounds type s s' ready within index thrown
