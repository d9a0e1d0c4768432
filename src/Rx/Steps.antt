-- ===== src/Rx/Steps.antt =====
-- The calls and the workers in any order: what holds of the machines at every moment.
use nminer.Prelude.{ℕ, ◌+◌, ◌-◌, ◌<◌, List, ◌∷◌, Bool, Option, length}
use nminer.Rx.{
  RxAlgoVersion, Rx, queue_allocate, create_vm, execute, clear, remove, destroy_vm, uncount_vm,
}

-- `queued` are the seeds of the workers that have not run, `executed` how many have run and not been cleared, and
-- `dying` how many machines are destroyed but still counted.
pub record System : Type 0 where
  pub rx : Rx
  pub queued : List (List ℕ)
  pub executed : ℕ
  pub dying : ℕ

module _ (nodes : List ℕ) where
  -- `lifecycle` makes `create_vm` and `Execute` exclude each other. `queue_allocate` and the destructor do not take it:
  -- a request inside one of the two counts as one after it, and a machine may be destroyed at any time.
  pub data Step : System → System → Type 0 where
    request :
        (s : System) (variant : Option RxAlgoVersion) (seed : List ℕ)
        → Step s (record s { rx = queue_allocate variant s.rx; queued = seed ∷ s.queued })
    create :
        (s : System) (numa_node : ℕ) (memory : Bool)
        → Step s (record s { rx = (create_vm numa_node memory s.rx).0 })
    destroy :
        (s : System) (i : ℕ)
        → i < length s.rx.vms
        → Step s (record s { rx = destroy_vm i s.rx; dying = s.dying + 1 })
    uncount :
        (s : System) → 0 < s.dying → Step s (record s { rx = uncount_vm s.rx; dying = s.dying - 1 })
    run :
        (s : System) (i : ℕ) (seed : List ℕ) (cache_memory : Bool) (allocates : ℕ → Bool)
        → i < length s.queued
        → Step s (record s {
          rx = (execute nodes cache_memory allocates seed s.rx).0;
          queued = remove i s.queued;
          executed = s.executed + 1;
        })
    finish :
        (s : System)
        → 0 < s.executed
        → Step s (record s { rx = clear s.rx; executed = s.executed - 1 })

  pub data Reach : System → System → Type 0 where
    here : (s : System) → Reach s s
    next : (s t u : System) → Reach s t → Step t u → Reach s u

  -- No worker runs.
  abbrev pub IsNoRun : {s t : System} → Step s t → Type 0
  IsNoRun (run s i seed cache_memory allocates h) = ⊥
  IsNoRun _ = Unit

  abbrev pub NoRuns : {s t : System} → Reach s t → Type 0
  NoRuns (here s) = Unit
  NoRuns (next s t u r st) = NoRuns r × IsNoRun st
