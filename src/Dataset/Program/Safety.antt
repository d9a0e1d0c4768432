-- ===== src/Dataset/Program/Safety.antt =====
-- That `generateSuperscalar` ends, and what its program is.
use nminer.Prelude.{
  ℕ, zero, suc, ◌+◌, ◌-◌, ◌*◌, ◌%◌, ◌≤◌, ◌<◌, List, [], ◌∷◌, Bool, not, ◌&&◌, Option, some, ◌≡◌,
  ◌⊎◌, inl, inr, refl, sym, ap, ◌∙◌, ltb, ltb→lt, ◌==◌, ==_iff, if◌then◌else◌, length, get_elem?,
  get_elem?-inside, Bool-cases, if-both, le_of_not_ltb, subst, arith,
}
use mathlib.Core.Option.{some-injective, none-ne-some}
use native.Mathlib.Nat.{mod-lt}
use nminer.Vm.Config.{superscalar_max_size, superscalar_latency, registers_count}
use nminer.Dataset.Superscalar.{SuperscalarInstructionType}
use nminer.Dataset.Generator.{Generator, get_byte}
use nminer.Dataset.Program.Tables.{
  DecoderBuffer, decode_buffers, decode_buffer_7333, decode_buffer_3733, decode_buffer_484,
  decode_buffer_493, decode_buffer_4444, decode_buffer_3310,
}
use nminer.Dataset.Program.Creation.{group_value}
use nminer.Dataset.Program.Creation.Valid.{Source}
use nminer.Dataset.Program.Slots.{Locals, Flow, goes_on, breaks, fill_buffer, max_throwaway_count}
use nminer.Dataset.Program.Slots.Instructions.{AllSuperscalar}
use nminer.Dataset.Program.Slots.Rounds.{IsGood, Moves}
use nminer.Dataset.Program.Slots.Placing.{AllSlotSizes, one_slot-Rounds}
use nminer.Dataset.Program.{
  slot_rounds, start_state, asic_latencies, highest_latency, Generated, finish_program,
  is_high_product, pick_buffer, fetch_next, decode_round, decode_cycles, generate_superscalar,
}

-- How many rounds a buffer may still take.
abbrev left : DecoderBuffer → Locals → ℕ
left buffer s =
    (length buffer.counts - s.buffer_index) * 257 + (max_throwaway_count - s.throw_away_count)

abbrev IsBuffer : DecoderBuffer → Type 0
IsBuffer buffer = AllSlotSizes buffer.counts × (length buffer.counts ≤ 4)

abbrev AllBuffers : List DecoderBuffer → Type 0
AllBuffers [] = Unit
AllBuffers (buffer ∷ rest) = IsBuffer buffer × AllBuffers rest

IsBuffer-at :
    (buffers : List DecoderBuffer) (i : ℕ) (buffer : DecoderBuffer)
    → AllBuffers buffers
    → get_elem? buffers i ≡ some buffer
    → IsBuffer buffer
IsBuffer-at [] i buffer all e = absurd (none-ne-some buffer e)
IsBuffer-at (x ∷ xs) zero buffer all e = subst IsBuffer (some-injective x buffer e) all.0
IsBuffer-at (x ∷ xs) (suc i) buffer all e = IsBuffer-at xs i buffer all.1 e

IsBuffer-484 : IsBuffer decode_buffer_484
IsBuffer-484 = ((inr (inl refl), (inr (inr (inr (inl refl))), (inr (inl refl), tt))), omega arith)

IsBuffer-7333 : IsBuffer decode_buffer_7333
IsBuffer-7333 = ((inr (inr (inl refl)), (inl refl, (inl refl, (inl refl, tt)))), omega arith)

IsBuffer-3733 : IsBuffer decode_buffer_3733
IsBuffer-3733 = ((inl refl, (inr (inr (inl refl)), (inl refl, (inl refl, tt)))), omega arith)

IsBuffer-493 : IsBuffer decode_buffer_493
IsBuffer-493 = ((inr (inl refl), (inr (inr (inr (inr (inl refl)))), (inl refl, tt))), omega arith)

IsBuffer-4444 : IsBuffer decode_buffer_4444
IsBuffer-4444 =
    ((inr (inl refl), (inr (inl refl), (inr (inl refl), (inr (inl refl), tt)))), omega arith)

IsBuffer-3310 : IsBuffer decode_buffer_3310
IsBuffer-3310 = ((inl refl, (inl refl, (inr (inr (inr (inr (inr refl)))), tt))), omega arith)

-- What the loop for the address register keeps of the registers from `i` on: the highest latency, and where it is.
abbrev IsHighest : (ℕ → ℕ) → ℕ → ℕ → ℕ → ℕ → ℕ × ℕ → Type 0
IsHighest latencies count i highest reg r =
    (highest ≤ r.0)
    × ((j : ℕ) → i ≤ j → j < i + count → latencies j ≤ r.0)
    × (((r.0 ≡ highest) × (r.1 ≡ reg)) ⊎ ((r.0 ≡ latencies r.1) × (r.1 < i + count)))

-- One more register in front.
from_next :
    (latencies : ℕ → ℕ) (count i highest highest' : ℕ) (r : ℕ × ℕ)
    → highest ≤ highest'
    → latencies i ≤ highest'
    → highest' ≤ r.0
    → ((j : ℕ) → i + 1 ≤ j → j < i + 1 + count → latencies j ≤ r.0)
    → (highest ≤ r.0) × ((j : ℕ) → i ≤ j → j < i + suc count → latencies j ≤ r.0)
from_next latencies count i highest highest' r more own above all = (
  omega (arith, more, above),
  λ j low high. elim (Bool-cases (i == j)) [
    | inl here ↦
        subst (λ (t : ℕ). latencies t ≤ r.0) ((==_iff i j).0 here) (omega (arith, own, above))
    | inr later ↦ all j (ground arith) (omega (arith, high))
  ],
)

highest_latency-IsHighest :
    (latencies : ℕ → ℕ) (count i highest reg : ℕ)
    → IsHighest latencies count i highest reg (highest_latency latencies count i highest reg)
unfolding highest_latency
highest_latency-IsHighest latencies zero i highest reg =
    (omega arith, λ j low high. absurd (omega (arith, low, high)), inl (refl, refl))
highest_latency-IsHighest latencies (suc count) i highest reg =
    let Outcome : Bool → Type 0 = λ b. IsHighest latencies (suc count) i highest reg (
      highest_latency latencies count (i + 1) (if b then latencies i else highest)
        (if b then i else reg)) in
    elim (Bool-cases (ltb highest (latencies i))) [
      | inl higher ↦
          let r = highest_latency latencies count (i + 1) (latencies i) i in
          let (above, all, where_it_is) =
            highest_latency-IsHighest latencies count (i + 1) (latencies i) i in
          let more = ltb→lt highest (latencies i) higher in
          let (bound, all') =
            from_next latencies count i highest (latencies i) r (omega (arith, more)) (omega arith)
              above all in
          subst Outcome (sym higher) (
            bound,
            all',
            inr (elim where_it_is [
              | inl (same, reg_same) ↦ (same ∙ ap latencies (sym reg_same), omega (arith, reg_same))
              | inr (same, below) ↦ (same, omega (arith, below))
            ]),
          )
      | inr lower ↦
          let r = highest_latency latencies count (i + 1) highest reg in
          let (above, all, where_it_is) =
            highest_latency-IsHighest latencies count (i + 1) highest reg in
          let (bound, all') =
            from_next latencies count i highest highest r (omega arith)
              (le_of_not_ltb highest (latencies i) lower) above all in
          subst Outcome (sym lower) (
            bound,
            all',
            elim where_it_is [
              | inl same ↦ inl same
              | inr (same, below) ↦ inr (same, omega (arith, below))
            ],
          )
    ]

-- A generated program: its instructions, at most as many as the buffer holds, and the address register, the highest
-- latency of which no other register exceeds.
pub record IsProgram (made : Generated) : Type 0 where
  pub all : AllSuperscalar made.program.instructions
  pub size : length made.program.instructions ≤ superscalar_max_size
  pub address : made.program.address_register < registers_count
  pub highest :
      (i : ℕ)
      → i < registers_count
      → made.asic_latencies_of i ≤ made.asic_latencies_of made.program.address_register

address_register-highest :
    (latencies : ℕ → ℕ)
    → let reg = (highest_latency latencies registers_count 0 0 0).1 in
      (reg < registers_count) × ((i : ℕ) → i < registers_count → latencies i ≤ latencies reg)
address_register-highest latencies =
    let (_, all, where_it_is) = highest_latency-IsHighest latencies registers_count 0 0 0 in
    elim where_it_is [
      | inl (nought, first) ↦
          (omega (arith, first), λ i low. omega (arith, nought, all i (omega arith) low))
      | inr (same, below) ↦
          (omega (arith, below), λ i low. omega (arith, same, all i (omega arith) low))
    ]

module _ (blake2b : List ℕ → List ℕ) (tries : ℕ) (Ok : Generator → Type 0)
    (source : Source blake2b tries Ok) where
  -- The loop over the slots ends, since a round fills one or throws away one more of 256 instructions.
  fill_buffer-IsGood :
      (rounds : ℕ) (buffer : DecoderBuffer) (s : Locals)
      → IsGood blake2b tries Ok source s
      → AllSlotSizes buffer.counts
      → left buffer s < rounds
      → (s' : Locals) × (fill_buffer blake2b tries rounds buffer s ≡ some s')
        × IsGood blake2b tries Ok source s'
  unfolding fill_buffer
  fill_buffer-IsGood zero buffer s good sizes enough = absurd (omega arith)
  fill_buffer-IsGood (suc rounds) buffer s good sizes enough =
      elim (Bool-cases (ltb s.buffer_index (length buffer.counts))) [
        | inr done ↦ (s, rw done refl, good)
        | inl more ↦
            let inside = ltb→lt s.buffer_index (length buffer.counts) more in
            let (flow, s1, made, good1, moves) =
              one_slot-Rounds blake2b tries Ok source buffer s good inside sizes in
            rw (more, made)
              (go flow s1 good1 moves inside
                (λ less. fill_buffer-IsGood rounds buffer s1 good1 sizes less))
      ]
    where
      go :
          (flow : Flow) (s1 : Locals)
          → IsGood blake2b tries Ok source s1
          → Moves blake2b tries Ok source s flow s1
          → s.buffer_index < length buffer.counts
          → (left buffer s1 < rounds
              → (s' : Locals) × (fill_buffer blake2b tries rounds buffer s1 ≡ some s')
                × IsGood blake2b tries Ok source s')
          → (s' : Locals) × ((elim flow [
            | goes_on ↦ fill_buffer blake2b tries rounds buffer s1
            | breaks ↦ some s1
          ])
              ≡ some s')
            × IsGood blake2b tries Ok source s'
      go breaks s1 good1 moves inside rest = (s1, refl, good1)
      go goes_on s1 good1 (inl filled) inside rest = rest (omega (arith, filled, enough))
      go goes_on s1 good1 (inr (same, thrown, few)) inside rest =
          rest (omega (arith, same, thrown, few, enough))

  abbrev Fetches : Option (DecoderBuffer × Generator) → Type 0
  Fetches r =
      (buffer : DecoderBuffer) × (g : Generator) × (r ≡ some (buffer, g)) × IsBuffer buffer × Ok g

  pick_buffer-Fetches :
      (buffers : List DecoderBuffer) (g : Generator)
      → Ok g
      → 0 < length buffers
      → AllBuffers buffers
      → Fetches (pick_buffer blake2b tries buffers g)
  unfolding pick_buffer
  pick_buffer-Fetches buffers g ok some_buffers all =
      let (byte, g', got, ok') = source.answers get_byte g ok in
      let k = byte % length buffers in
      let (buffer, there) = get_elem?-inside buffers k (mod-lt byte some_buffers) in
      (buffer, g', rw (got, there) refl, IsBuffer-at buffers k buffer all there, ok')

  fetch_next-Fetches :
      (type : Option SuperscalarInstructionType) (cycle mul_count : ℕ) (g : Generator)
      → Ok g
      → Fetches (fetch_next blake2b tries type cycle mul_count g)
  unfolding fetch_next
  fetch_next-Fetches type cycle mul_count g ok =
      if-both (is_high_product type) _ _ Fetches
        (λ _. (decode_buffer_3310, g, refl, IsBuffer-3310, ok))
        (λ _.
          if-both (ltb mul_count (cycle + 1)) _ _ Fetches
            (λ _. (decode_buffer_4444, g, refl, IsBuffer-4444, ok))
            (λ _.
              if-both (group_value type == 13) _ _ Fetches
                (λ _.
                  pick_buffer-Fetches (decode_buffer_493 ∷ decode_buffer_484 ∷ []) g ok
                    (omega arith) (IsBuffer-493, (IsBuffer-484, tt)))
                (λ _.
                  pick_buffer-Fetches decode_buffers g ok (omega arith)
                    (IsBuffer-484, (IsBuffer-7333, (IsBuffer-3733, (IsBuffer-493, tt)))))))

  decode_round-IsGood :
      (decode_cycle : ℕ) (s : Locals)
      → IsGood blake2b tries Ok source s
      → (s' : Locals) × (decode_round blake2b tries decode_cycle s ≡ some s')
        × IsGood blake2b tries Ok source s'
  unfolding decode_round
  decode_round-IsGood decode_cycle s good =
      let (buffer, g, fetched, (sizes, four), ok) =
        fetch_next-Fetches s.current.type decode_cycle s.mul_count s.generator good.gen in
      let s1 : Locals = record s { buffer_index = 0; generator = g } in
      let (s2, filled, good2) =
        fill_buffer-IsGood slot_rounds buffer s1
          (record { gen = ok; program = good.program; room = good.room; current = good.current })
          sizes (omega (arith, four)) in
      (
        record s2 { cycle = s2.cycle + 1 },
        rw (fetched, filled) refl,
        record {
          gen = good2.gen;
          program = good2.program;
          room = good2.room;
          current = good2.current;
        },
      )

  decode_cycles-IsGood :
      (rounds decode_cycle : ℕ) (s : Locals)
      → IsGood blake2b tries Ok source s
      → (r : Locals × ℕ) × (decode_cycles blake2b tries rounds decode_cycle s ≡ some r)
        × IsGood blake2b tries Ok source r.0
  unfolding decode_cycles
  decode_cycles-IsGood zero decode_cycle s good = ((s, decode_cycle), refl, good)
  decode_cycles-IsGood (suc rounds) decode_cycle s good =
      let (s1, decoded, good1) = decode_round-IsGood decode_cycle s good in
      let (r, rest, good') = decode_cycles-IsGood rounds (decode_cycle + 1) s1 good1 in
      elim (Bool-cases (not s.ports_saturated && ltb (length s.program) superscalar_max_size)) [
        | inl more ↦ (r, rw (more, decoded) rest, good')
        | inr done ↦ ((s, decode_cycle), rw done refl, good)
      ]

  pub generate_superscalar-IsProgram :
      (g : Generator)
      → Ok g
      → (made : Generated) × (g' : Generator) × (generate_superscalar blake2b tries g
          ≡ some (made, g'))
        × IsProgram made
        × Ok g'
  unfolding generate_superscalar finish_program
  generate_superscalar-IsProgram g ok =
      let ((s, decode_cycle), decoded, good) =
        decode_cycles-IsGood superscalar_latency 0 (start_state g)
          (record { gen = ok; program = tt; room = omega arith; current = inl (omega arith) }) in
      let (address, highest) = address_register-highest (asic_latencies s.program (λ i. 0)) in
      (
        finish_program s decode_cycle,
        s.generator,
        rw decoded refl,
        record { all = good.program; size = good.room; address = address; highest = highest },
        good.gen,
      )
