-- ===== src/Rx/Failure.antt =====
-- What an allocation that fails leaves.
use nminer.Prelude.{
  ◌<◌, subst, ltb→lt, le_of_not_ltb, arith, if-both, or_false, ℕ, List, [], ◌∷◌, Bool, true, false,
  not, Option, none, some, ◌≡◌, ◌⊎◌, inl, inr, refl, sym, ap, ◌∙◌, ltb, ◌==◌, if◌then◌else◌,
  Bool-cases, Option-cases,
}
use mathlib.Core.Option.{some-injective, none-ne-some}
use nminer.Vm.Machine.{put}
use nminer.Rx.{
  AllocateError, timed_out, no_cache, no_dataset, Cache, Rx, RxAlgoVersion, create_vm, cached_vm,
  make_vm, fast_vm, add_vm, build_dataset, replace_cache, execute, queue_allocate, destroy_vm,
  uncount_vm, clear,
}
use nminer.Rx.Steps.{
  System, Step, request, create, destroy, uncount, run, finish, Reach, here, next, IsNoRun, NoRuns,
}
use nminer.Rx.Current.{is_node, true_is_not_false, put-here, put-there}

-- If no node got a dataset, a dataset that there is belongs to no node.
build_dataset-failed :
    (allocates : ℕ → Bool) (cache : Cache) (nodes : List ℕ) (datasets : ℕ → Option Cache) (k : ℕ)
    (d : Cache)
    → (build_dataset allocates cache nodes datasets).1 ≡ false
    → (build_dataset allocates cache nodes datasets).0 k ≡ some d
    → (is_node k nodes ≡ false) × (datasets k ≡ some d)
unfolding build_dataset
build_dataset-failed allocates cache [] datasets k d failed e = (refl, e)
build_dataset-failed allocates cache (n ∷ rest) datasets k d failed e =
    let reserved : Bool = elim (datasets n) [ none ↦ allocates n | some _ ↦ true ] in
    let stored : Option Cache = if reserved then some cache else none in
    let (unreserved, others) =
      or_false reserved (build_dataset allocates cache rest (put datasets n stored)).1 failed in
    let (outside, old) =
      build_dataset-failed allocates cache rest (put datasets n stored) k d others e in
    let nothing : stored ≡ none = ap (λ (b : Bool). if b then some cache else none) unreserved in
    elim (Bool-cases (n == k)) [
      | inl same ↦ absurd (none-ne-some d (sym nothing ∙ put-here datasets n k stored same ∙ old))
      | inr other ↦ (rw (other, outside) refl, put-there datasets n k stored other ∙ old)
    ]

fast_of : (b : Bool) → not b ≡ false → b ≡ true
fast_of true e = refl
fast_of false e = absurd (true_is_not_false e)

failed_of :
    (b : Bool) (error : AllocateError)
    → (if b then none else some no_dataset) ≡ some error
    → (error ≡ no_dataset) × (b ≡ false)
failed_of true error e = absurd (none-ne-some error e)
failed_of false error e = (sym (some-injective no_dataset error e), refl)

-- If no node got a dataset and the datasets were the nodes' own, there is no dataset.
build_dataset-none :
    (allocates : ℕ → Bool) (cache : Cache) (nodes : List ℕ) (datasets : ℕ → Option Cache)
    → ((k : ℕ) (d : Cache) → datasets k ≡ some d → is_node k nodes ≡ true)
    → (build_dataset allocates cache nodes datasets).1 ≡ false
    → (k : ℕ) → (build_dataset allocates cache nodes datasets).0 k ≡ none
build_dataset-none allocates cache nodes datasets of_node failed k =
    elim (Option-cases ((build_dataset allocates cache nodes datasets).0 k)) [
      | inl none_there ↦ none_there
      | inr (d, has) ↦
          let (outside, old) = build_dataset-failed allocates cache nodes datasets k d failed has in
          absurd (true_is_not_false (sym (of_node k d old) ∙ outside))
    ]

-- There is no cache, or in fast mode no dataset.
data IsBarren (rx : Rx) : Type 0 where
  no_cache_left : rx.cache ≡ none → IsBarren rx
  no_dataset_left :
      (cache : Cache)
      → rx.cache ≡ some cache
      → rx.fast ≡ true
      → ((k : ℕ) → rx.datasets k ≡ none)
      → IsBarren rx

refuses :
    (numa_node : ℕ) (memory : Bool) (rx : Rx)
    → IsBarren rx
    → create_vm numa_node memory rx ≡ (rx, false)
unfolding create_vm cached_vm make_vm fast_vm
refuses numa_node memory rx (no_cache_left gone) = ap (λ c. cached_vm c numa_node memory rx) gone
refuses numa_node memory rx (no_dataset_left cache there fast missing) =
    ap (λ c. cached_vm c numa_node memory rx) there
    ∙ if-both rx.updating (rx, false) (make_vm numa_node memory cache rx) (λ r. r ≡ (rx, false))
        (λ _. refl)
        (λ _.
          ap
            (λ (b : Bool).
              (if b
                then fast_vm (rx.datasets numa_node) memory cache rx
                else if memory
                then (add_vm cache none rx, true)
                else (rx, false)))
            fast
          ∙ ap (λ d. fast_vm d memory cache rx) (missing numa_node))

-- It stays so over what neither the cache nor the datasets take part in.
still-IsBarren :
    (rx rx' : Rx)
    → rx'.cache ≡ rx.cache
    → rx'.fast ≡ rx.fast
    → rx'.datasets ≡ rx.datasets
    → IsBarren rx
    → IsBarren rx'
still-IsBarren rx rx' c f d (no_cache_left gone) = no_cache_left (c ∙ gone)
still-IsBarren rx rx' c f d (no_dataset_left cache there fast missing) =
    no_dataset_left cache (c ∙ there) (f ∙ fast) (λ k. ap (λ m. m k) d ∙ missing k)

queue_allocate-IsBarren :
    (variant : Option RxAlgoVersion) (rx : Rx) → IsBarren rx → IsBarren (queue_allocate variant rx)
unfolding queue_allocate
queue_allocate-IsBarren none rx h = still-IsBarren rx _ refl refl refl h
queue_allocate-IsBarren (some version) rx h = still-IsBarren rx _ refl refl refl h

module _ (nodes : List ℕ) where
  Step-IsBarren :
      {s t : System} (st : Step nodes s t) → IsNoRun nodes st → IsBarren s.rx → IsBarren t.rx
  unfolding destroy_vm uncount_vm clear
  Step-IsBarren (request s variant seed) _ h = queue_allocate-IsBarren variant s.rx h
  Step-IsBarren (create s numa_node memory) _ h =
      subst (λ (r : Rx × Bool). IsBarren r.0) (sym (refuses numa_node memory s.rx h)) h
  Step-IsBarren (destroy s i inside) _ h = still-IsBarren s.rx _ refl refl refl h
  Step-IsBarren (uncount s dying) _ h = still-IsBarren s.rx _ refl refl refl h
  Step-IsBarren (run s i seed cache_memory allocates inside) runs h = absurd runs
  Step-IsBarren (finish s executed) _ h = still-IsBarren s.rx _ refl refl refl h

  Reach-IsBarren :
      {s t : System} (r : Reach nodes s t) → NoRuns nodes r → IsBarren s.rx → IsBarren t.rx
  Reach-IsBarren (here s) _ h = h
  Reach-IsBarren (next s t u r st) quiet h = Step-IsBarren st quiet.1 (Reach-IsBarren r quiet.0 h)

  -- A failed allocation without machines has found no memory, and leaves no cache or, in fast mode, no dataset.
  replace_cache-fails :
      (cache_memory : Bool) (allocates : ℕ → Bool) (seed : List ℕ) (rx : Rx) (error : AllocateError)
      → ((k : ℕ) (d : Cache) → rx.datasets k ≡ some d → is_node k nodes ≡ true)
      → (replace_cache nodes cache_memory allocates seed rx).1 ≡ some error
      → ((error ≡ no_cache) ⊎ (error ≡ no_dataset))
        × IsBarren (replace_cache nodes cache_memory allocates seed rx).0
  unfolding replace_cache
  replace_cache-fails cache_memory allocates seed rx error of_node =
      let Left : Rx × Option AllocateError → Type 0 =
        λ r. r.1 ≡ some error → ((error ≡ no_cache) ⊎ (error ≡ no_dataset)) × IsBarren r.0 in
      if-both (not cache_memory) _ _ Left
        (λ _ e. (inl (sym (some-injective no_cache error e)), no_cache_left refl))
        (λ _.
          if-both (not rx.fast) _ _ Left (λ _ e. absurd (none-ne-some error e))
            (λ fast e.
              let (error_is, failed) = failed_of _ error e in
              (
                inr error_is,
                no_dataset_left _ refl (fast_of rx.fast fast)
                    (build_dataset-none allocates _ nodes rx.datasets of_node failed),
              )))

-- An allocation that fails has timed out with machines still there, and then nothing has changed; or it found no
-- machine and no memory, for the cache or for a dataset, and then no machine is made on any node, whatever
-- requests, machines that go and ends of allocations follow, until a worker runs again.
pub execute-fails :
    (nodes : List ℕ) (cache_memory : Bool) (allocates : ℕ → Bool) (seed : List ℕ) (rx : Rx)
    (error : AllocateError) (s t : System)
    → ((k : ℕ) (d : Cache) → rx.datasets k ≡ some d → is_node k nodes ≡ true)
    → (execute nodes cache_memory allocates seed rx).1 ≡ some error
    → s.rx ≡ (execute nodes cache_memory allocates seed rx).0
    → (r : Reach nodes s t) → NoRuns nodes r
    → ((error ≡ timed_out) × (0 < rx.active_vms) × (s.rx ≡ rx))
      ⊎ (((error ≡ no_cache) ⊎ (error ≡ no_dataset))
          × (rx.active_vms ≡ 0)
          × ((numa_node : ℕ) (memory : Bool) → create_vm numa_node memory t.rx ≡ (t.rx, false)))
unfolding execute
execute-fails nodes cache_memory allocates seed rx error s t of_node failed after r quiet =
    elim (Bool-cases (ltb 0 rx.active_vms)) [
      | inl waiting ↦
          let out : execute nodes cache_memory allocates seed rx ≡ (rx, some timed_out) =
            rw waiting refl in
          inl (
            sym (some-injective timed_out error (sym (ap (λ o. o.1) out) ∙ failed)),
            ltb→lt 0 rx.active_vms waiting,
            after ∙ ap (λ o. o.0) out,
          )
      | inr alone ↦
          let out : execute nodes cache_memory allocates seed rx
              ≡ replace_cache nodes cache_memory allocates seed rx =
            rw alone refl in
          let (error_is, barren) =
            replace_cache-fails nodes cache_memory allocates seed rx error of_node
              (sym (ap (λ o. o.1) out) ∙ failed) in
          let start : IsBarren s.rx = subst IsBarren (sym (after ∙ ap (λ o. o.0) out)) barren in
          inr (
            error_is,
            omega (arith, le_of_not_ltb 0 rx.active_vms alone),
            λ numa_node memory. refuses numa_node memory t.rx (Reach-IsBarren nodes r quiet start),
          )
    ]
