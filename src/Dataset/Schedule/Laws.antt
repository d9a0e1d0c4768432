-- ===== src/Dataset/Schedule/Laws.antt =====
-- What `scheduleUop` books.
use nminer.Prelude.{
  ℕ, zero, suc, ◌+◌, ◌-◌, ◌≤◌, ◌<◌, true, false, Option, none, some, ◌≡◌, refl, subst, arith,
  Bool-cases, inl, inr,
}
use native.Mathlib.Decide.{dec_lt}
use nminer.Dataset.Schedule.{cycle_map_size, Ports, is_open, pick, occupy, uop_from, schedule_uop}

abbrev Opens : ℕ → (ℕ → ℕ) → Option ℕ → Type 0
Opens uop row none = Unit
Opens uop row (some port) = (port < 3) × (is_open uop row port ≡ true)

pick-Opens : (uop : ℕ) (row : ℕ → ℕ) → Opens uop row (pick uop row)
unfolding pick
pick-Opens uop row = elim (Bool-cases (is_open uop row 2)) [
  | inl e2 ↦ rw e2 (omega arith, e2)
  | inr n2 ↦ elim (Bool-cases (is_open uop row 0)) [
    | inl e0 ↦ rw (n2, e0) (omega arith, e0)
    | inr n0 ↦ elim (Bool-cases (is_open uop row 1)) [
      | inl e1 ↦ rw (n2, n0, e1) (omega arith, e1)
      | inr n1 ↦ rw (n2, n0, n1) tt
    ]
  ]
]

-- The booking of a uOP: a cycle of the map that is not before the one asked for, and in it a port that
-- was free and that the uOP may use, which is all that changes.
abbrev pub Books : ℕ → ℕ → Ports → ℕ → Option (ℕ × Ports) → Type 0
Books bound uop busy cycle none = Unit
Books bound uop busy cycle (some (found, busy')) =
    (cycle ≤ found)
    × (found < bound)
    × (port : ℕ) × (port < 3)
    × (is_open uop (busy found) port ≡ true)
    × (busy' ≡ occupy busy found port uop)

Books-later :
    (bound uop : ℕ) (busy : Ports) (cycle : ℕ) (result : Option (ℕ × Ports))
    → Books bound uop busy (cycle + 1) result
    → Books bound uop busy cycle result
Books-later bound uop busy cycle none h = tt
Books-later bound uop busy cycle (some (found, busy')) h =
    let (after, inside, port, small, opens, same) = h in
    (omega (arith, after), inside, port, small, opens, same)

book_or_go_on :
    (bound uop : ℕ) (busy : Ports) (cycle : ℕ) (picked : Option ℕ) (later : Option (ℕ × Ports))
    → cycle < bound
    → Opens uop (busy cycle) picked
    → Books bound uop busy (cycle + 1) later
    → Books bound uop busy cycle
        (elim picked [ none ↦ later | some port ↦ some (cycle, occupy busy cycle port uop) ])
book_or_go_on bound uop busy cycle none later inside h rest =
    Books-later bound uop busy cycle later rest
book_or_go_on bound uop busy cycle (some port) later inside h rest =
    (omega arith, inside, port, h.0, h.1, refl)

uop_from-Books :
    (rounds uop : ℕ) (busy : Ports) (cycle : ℕ)
    → Books (cycle + rounds) uop busy cycle (uop_from rounds true uop busy cycle)
unfolding uop_from
uop_from-Books zero uop busy cycle = tt
uop_from-Books (suc rounds) uop busy cycle =
    book_or_go_on (cycle + suc rounds) uop busy cycle (pick uop (busy cycle))
      (uop_from rounds true uop busy (cycle + 1)) (omega arith) (pick-Opens uop (busy cycle))
      (subst
        (λ (bound : ℕ).
          Books bound uop busy (cycle + 1) (uop_from rounds true uop busy (cycle + 1)))
        {x = cycle + 1 + rounds} {y = cycle + suc rounds} (omega arith)
        (uop_from-Books rounds uop busy (cycle + 1)))

-- When `scheduleUop` books a uOP from a cycle inside the map on, it books it at a cycle of the map that
-- is not before that one, on one of the three ports, which the uOP may use and which was free, and
-- nothing else changes.
pub schedule_uop-Books :
    (uop : ℕ) (busy : Ports) (cycle : ℕ)
    → cycle ≤ cycle_map_size
    → Books cycle_map_size uop busy cycle (schedule_uop true uop busy cycle)
unfolding schedule_uop
schedule_uop-Books uop busy cycle h =
    subst
      (λ (bound : ℕ).
        Books bound uop busy cycle (uop_from (cycle_map_size - cycle) true uop busy cycle))
      {x = cycle + (cycle_map_size - cycle)} {y = cycle_map_size} (omega arith)
      (uop_from-Books (cycle_map_size - cycle) uop busy cycle)

pick-none :
    (uop : ℕ) (row : ℕ → ℕ) (port : ℕ)
    → port < 3
    → pick uop row ≡ none
    → is_open uop row port ≡ false
unfolding pick
pick-none uop row zero h e = ground arith
pick-none uop row (suc zero) h e = ground arith
pick-none uop row (suc (suc zero)) h e = ground arith
pick-none uop row (suc (suc (suc port))) h e = absurd (omega arith)

some_or_none :
    (picked : Option ℕ) (later : Option (ℕ × Ports)) (booked : ℕ → ℕ × Ports)
    → elim picked [ none ↦ later | some port ↦ some (booked port) ] ≡ none
    → (picked ≡ none) × (later ≡ none)
some_or_none none later booked e = (refl, e)
some_or_none (some port) later booked e = absurd (cc)

uop_from-none :
    (rounds : ℕ) (uop : ℕ) (busy : Ports) (cycle t port : ℕ)
    → uop_from rounds true uop busy cycle ≡ none
    → cycle ≤ t
    → t < cycle + rounds
    → port < 3
    → is_open uop (busy t) port ≡ false
unfolding uop_from
uop_from-none zero uop busy cycle t port e lo hi small = absurd (omega arith)
uop_from-none (suc rounds) uop busy cycle t port e lo hi small =
    let (here, later) =
      some_or_none (pick uop (busy cycle)) (uop_from rounds true uop busy (cycle + 1))
        (λ port. (cycle, occupy busy cycle port uop)) e in
    elim (dec_lt cycle t) [
      | yes after ↦
          uop_from-none rounds uop busy (cycle + 1) t port later (omega arith) (omega arith) small
      | no now ↦
          let same : cycle ≡ t = omega arith in
          subst (λ (c : ℕ). is_open uop (busy c) port ≡ false) same
            (pick-none uop (busy cycle) port small here)
    ]

-- When `scheduleUop` books nothing, no cycle of the map from the one asked for on has a free port that
-- the uOP may use.
pub schedule_uop-none :
    (uop : ℕ) (busy : Ports) (cycle t port : ℕ)
    → schedule_uop true uop busy cycle ≡ none
    → cycle ≤ t
    → t < cycle_map_size
    → port < 3
    → is_open uop (busy t) port ≡ false
unfolding schedule_uop
schedule_uop-none uop busy cycle t port e lo hi small =
    uop_from-none (cycle_map_size - cycle) uop busy cycle t port e lo (omega arith) small
