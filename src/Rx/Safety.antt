-- ===== src/Rx/Safety.antt =====
-- The machines over the cache, at every moment of the calls and the workers.
use nminer.Prelude.{
  ℕ, ◌+◌, List, [], Bool, false, none, ◌≡◌, refl, subst, ap, ◌∙◌, length, ltb, arith,
}
use mathlib.Core.Option.{none-ne-some}
use nminer.Rx.{RxAlgoVersion, queue_allocate, execute, clear}
use nminer.Rx.Steps.{
  System, Step, request, create, destroy, uncount, run, finish, Reach, here, next,
}
use nminer.Rx.Current.{AllCurrent, length-remove}
use nminer.Rx.Sound.{
  IsSound, queue_allocate-IsSound, create_vm-IsSound, execute-IsSound, destroy_vm-IsSound,
  uncount_vm-IsSound, clear-IsSound,
}

-- An `Rx` as its constructor leaves it.
abbrev pub new_rx : Bool → RxAlgoVersion → System
new_rx fast version = record {
  rx = record {
    cache = none;
    datasets = λ k. none;
    fast = fast;
    version = version;
    vms = [];
    active_vms = 0;
    pending = 0;
    updating = false;
    allocated = 0;
  };
  queued = [];
  executed = 0;
  dying = 0;
}

module _ (nodes : List ℕ) where
  Sound : System → Type 0
  Sound s = IsSound nodes s.rx (length s.queued + s.executed) s.dying

  Step-Sound : (s t : System) → Step nodes s t → Sound s → Sound t
  unfolding Sound
  Step-Sound _ _ (request s variant seed) h =
      subst (λ w. IsSound nodes (queue_allocate variant s.rx) w s.dying) (omega arith)
        (queue_allocate-IsSound nodes variant s.rx (length s.queued + s.executed) s.dying h)
  Step-Sound _ _ (create s numa_node memory) h =
      create_vm-IsSound nodes numa_node memory s.rx (length s.queued + s.executed) s.dying h
  Step-Sound _ _ (destroy s i inside) h =
      destroy_vm-IsSound nodes i s.rx (length s.queued + s.executed) s.dying inside h
  Step-Sound _ _ (uncount s dying) h =
      uncount_vm-IsSound nodes s.rx (length s.queued + s.executed) s.dying dying h
  Step-Sound _ _ (run s i seed cache_memory allocates inside) h =
      subst (λ w. IsSound nodes (execute nodes cache_memory allocates seed s.rx).0 w s.dying)
        (omega (arith, length-remove i s.queued inside))
        (execute-IsSound nodes cache_memory allocates seed s.rx (length s.queued + s.executed)
          s.dying h)
  Step-Sound _ _ (finish s executed) h =
      subst (λ w. IsSound nodes (clear s.rx) w s.dying) (omega (arith, executed))
        (clear-IsSound nodes s.rx (length s.queued + s.executed) s.dying (omega (arith, executed))
          h)

  Reach-Sound : (s t : System) → Reach nodes s t → Sound s → Sound t
  Reach-Sound _ _ (here s) h = h
  Reach-Sound _ _ (next s t u before step) h = Step-Sound t u step (Reach-Sound s t before h)

  -- In every state that requests, machines, workers and their ends lead to in any order, each machine uses
  -- the cache that is there now, never a released one, and in fast mode a dataset that was computed from that
  -- cache; the count of active machines is that of those that exist and of those whose destructor has not
  -- finished; and `updating` holds exactly while a request is not cleared.
  pub Reach-AllCurrent :
      (fast : Bool) (version : RxAlgoVersion) (s : System)
      → Reach nodes (new_rx fast version) s
      → AllCurrent s.rx.cache s.rx.fast s.rx.vms
        × (s.rx.active_vms ≡ length s.rx.vms + s.dying)
        × (s.rx.updating ≡ ltb 0 (length s.queued + s.executed))
  unfolding Sound
  Reach-AllCurrent fast version s reached =
      let h : IsSound nodes s.rx (length s.queued + s.executed) s.dying =
        Reach-Sound (new_rx fast version) s reached (record {
          counted = refl;
          pending_is = refl;
          updating_is = refl;
          current = tt;
          of_node = λ k d e. absurd (none-ne-some d e);
          made = λ f c e k d there. absurd (none-ne-some c e);
        }) in
      (h.current, h.counted, h.updating_is ∙ ap (λ (n : ℕ). ltb 0 n) h.pending_is)
