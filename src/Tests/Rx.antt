-- ===== src/Tests/Rx.antt =====
-- A cache with its dataset and a machine over them, and an allocation without memory.
use nminer.Prelude.{
  ◌<◌, ℕ, List, [], ◌∷◌, Bool, true, false, some, ◌≡◌, ◌⊎◌, ◌+◌, refl, length, ltb, arith,
}
use mathlib.Core.Option.{none-ne-some}
use nminer.Rx.{
  Cache, Rx, v1, v2, timed_out, no_cache, no_dataset, queue_allocate, execute, clear, remove,
  create_vm,
}
use nminer.Rx.Steps.{System, request, create, run, finish, Reach, here, next}
use nminer.Rx.Current.{AllCurrent}
use nminer.Rx.Safety.{new_rx, Reach-AllCurrent}
use nminer.Rx.Failure.{execute-fails}

abbrev node0 : List ℕ
node0 = 0 ∷ []

abbrev memory_of : ℕ → Bool
memory_of k = true

abbrev requested : System
requested = record (new_rx true v1) {
  rx = record (new_rx true v1).rx { pending = 1; updating = true; version = v2 };
  queued = (7 ∷ []) ∷ [];
}

abbrev seven : Cache
seven = record { serial = 0; seed = 7 ∷ [] }

abbrev ran : System
ran = record requested {
  rx = (execute node0 true memory_of (7 ∷ []) requested.rx).0;
  queued = [];
  executed = 1;
}

abbrev cleared : System
cleared = record ran { rx = record ran.rx { pending = 0; updating = false }; executed = 0 }

abbrev mining : System
mining = record cleared { rx = (create_vm 0 true cleared.rx).0 }

-- A request, its worker, and then a machine.
reached : Reach node0 (new_rx true v1) mining
unfolding execute clear queue_allocate remove
reached =
    next (new_rx true v1) cleared mining
      (next (new_rx true v1) ran cleared
        (next (new_rx true v1) requested ran
          (next (new_rx true v1) (new_rx true v1) requested (here (new_rx true v1))
            (request (new_rx true v1) (some v2) (7 ∷ [])))
          (run requested 0 (7 ∷ []) true memory_of (omega arith)))
        (finish ran (omega arith)))
      (create cleared 0 true)

one_machine : length mining.rx.vms ≡ 1
unfolding execute create_vm
one_machine = refl

Reach-AllCurrent_example :
    AllCurrent mining.rx.cache mining.rx.fast mining.rx.vms
    × (mining.rx.active_vms ≡ length mining.rx.vms + mining.dying)
    × (mining.rx.updating ≡ ltb 0 (length mining.queued + mining.executed))
Reach-AllCurrent_example = Reach-AllCurrent node0 true v1 mining reached

abbrev without_cache : Rx
without_cache = (execute node0 false memory_of (7 ∷ []) requested.rx).0

no_cache_error : (execute node0 false memory_of (7 ∷ []) requested.rx).1 ≡ some no_cache
unfolding execute
no_cache_error = refl

abbrev failed : System
failed = record requested { rx = without_cache; queued = []; executed = 1 }

-- The allocation ends, and with it `updating`.
abbrev ended : System
ended = record failed { rx = clear without_cache; executed = 0 }

ended_updating : ended.rx.updating ≡ false
unfolding execute clear
ended_updating = refl

execute-fails_example :
    ((no_cache ≡ timed_out) × (0 < requested.rx.active_vms) × (without_cache ≡ requested.rx))
    ⊎ (((no_cache ≡ no_cache) ⊎ (no_cache ≡ no_dataset))
        × (requested.rx.active_vms ≡ 0)
        × ((numa_node : ℕ) (memory : Bool)
            → create_vm numa_node memory ended.rx ≡ (ended.rx, false)))
execute-fails_example =
    execute-fails node0 false memory_of (7 ∷ []) requested.rx no_cache failed ended
      (λ k d e. absurd (none-ne-some d e)) no_cache_error refl
      (next failed failed ended (here failed) (finish failed (omega arith))) (tt, tt)
