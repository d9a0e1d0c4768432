-- ===== src/Dataset/Schedule.antt =====
-- `scheduleUop` and `scheduleMop` of src/algo/randomx/superscalar.cpp: the execution ports that the
-- generator of superscalar programs books. A result of `none` is -1.
pub mod Laws
use nminer.Prelude.{
  ℕ, zero, suc, ◌+◌, ◌-◌, Bool, true, false, not, ◌&&◌, Option, none, some, bit_and, max, ◌==◌,
  if◌then◌else◌, leb,
}
use nminer.Vm.Config.{superscalar_latency}
use nminer.Vm.Machine.{put}

abbrev pub cycle_map_size : ℕ
cycle_map_size = superscalar_latency + 4

-- portBusy: a cycle and one of its three ports, 0 when it is free.
abbrev pub Ports : Type 0
Ports = ℕ → ℕ → ℕ

-- The bits P0, P1 and P5 of a uOP that stand for the ports 0, 1 and 2.
abbrev pub allows : ℕ → ℕ → Bool
allows uop zero = not (bit_and uop 1 == 0)
allows uop (suc zero) = not (bit_and uop 2 == 0)
allows uop (suc (suc port)) = not (bit_and uop 4 == 0)

abbrev pub is_open : ℕ → (ℕ → ℕ) → ℕ → Bool
is_open uop row port = allows uop port && (row port == 0)

-- The port that a cycle gives the uOP: P5, then P0, then P1.
unfoldable pub pick : ℕ → (ℕ → ℕ) → Option ℕ
pick uop row =
    if is_open uop row 2
    then some 2
    else if is_open uop row 0
    then some 0
    else if is_open uop row 1
    then some 1
    else none

abbrev pub occupy : Ports → ℕ → ℕ → ℕ → Ports
occupy busy cycle port uop = put busy cycle (put (busy cycle) port uop)

-- The loop of `scheduleUop`, with `rounds` cycles left, and the ports as it leaves them.
unfoldable pub uop_from : ℕ → Bool → ℕ → Ports → ℕ → Option (ℕ × Ports)
unfolding pick
uop_from zero commit uop busy cycle = none
uop_from (suc rounds) commit uop busy cycle =
    let later = uop_from rounds commit uop busy (cycle + 1) in
    elim (pick uop (busy cycle)) [
      | none ↦ later
      | some port ↦ some (cycle, if commit then occupy busy cycle port uop else busy)
    ]

unfoldable pub schedule_uop : Bool → ℕ → Ports → ℕ → Option (ℕ × Ports)
unfolding uop_from
schedule_uop commit uop busy cycle = uop_from (cycle_map_size - cycle) commit uop busy cycle

-- A macro-op; a uOP of 0 is none.
pub record MacroOp : Type 0 where
  pub size : ℕ
  pub latency : ℕ
  pub uop1 : ℕ
  pub uop2 : ℕ
  pub dependent : Bool

-- The cycle and the ports after both uOPs are committed.
unfoldable pub commit_both : MacroOp → Ports → ℕ → ℕ × Ports
unfolding schedule_uop
commit_both mop busy cycle =
    let first : Ports = elim (schedule_uop true mop.uop1 busy cycle) [
      | none ↦ busy
      | some r ↦ r.1
    ] in
    (cycle, elim (schedule_uop true mop.uop2 first cycle) [ none ↦ first | some r ↦ r.1 ])

-- The loop over the cycles for two uOPs.
unfoldable pub mop_from : ℕ → Bool → MacroOp → Ports → ℕ → Option (ℕ × Ports)
unfolding schedule_uop commit_both
mop_from zero commit mop busy cycle = none
mop_from (suc rounds) commit mop busy cycle =
    let later = mop_from rounds commit mop busy (cycle + 1) in
    elim (schedule_uop false mop.uop1 busy cycle) [
      | none ↦ later
      | some (cycle1, _) ↦ elim (schedule_uop false mop.uop2 busy cycle) [
        | none ↦ later
        | some (cycle2, _) ↦
            if cycle1 == cycle2
            then some (if commit then commit_both mop busy cycle1 else (cycle1, busy))
            else later
      ]
    ]

unfoldable pub schedule_mop : Bool → MacroOp → Ports → ℕ → ℕ → Option (ℕ × Ports)
unfolding schedule_uop mop_from
schedule_mop commit mop busy cycle dep_cycle =
    let start = if mop.dependent then max cycle dep_cycle else cycle in
    if mop.uop1 == 0
    then some (start, busy)
    else if mop.uop2 == 0
    then schedule_uop commit mop.uop1 busy start
    else mop_from (cycle_map_size - start) commit mop busy start
