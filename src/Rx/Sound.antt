-- ===== src/Rx/Sound.antt =====
-- What each call and each worker keeps of the machines, the cache and the counts.
use nminer.Prelude.{
  ℕ, ◌+◌, ◌-◌, ◌<◌, List, [], Bool, true, false, not, Option, none, some, ◌≡◌, inl, inr, refl, sym,
  subst, ap, ◌∙◌, length, ltb, if◌then◌else◌, arith, take,
}
use mathlib.Core.Option.{some-injective, none-ne-some}
use nminer.Rx.{
  timed_out, fast_vm, cached_vm, RxAlgoVersion, Cache, Rx, queue_allocate, create_vm, make_vm,
  add_vm, replace_cache, execute, clear, destroy_vm, uncount_vm,
}
use nminer.Rx.Current.{
  AllCurrent, is_node, AllCurrent-remove, length-remove, no_vms, true_is_not_false, not_both,
  build_dataset-made,
}

module _ (nodes : List ℕ) where
  -- `waiting` allocations are not cleared, and `dying` machines are destroyed and still counted.
  pub record IsSound (rx : Rx) (waiting dying : ℕ) : Type 0 where
    pub counted : rx.active_vms ≡ length rx.vms + dying
    pub pending_is : rx.pending ≡ waiting
    pub updating_is : rx.updating ≡ ltb 0 rx.pending
    pub current : AllCurrent rx.cache rx.fast rx.vms
    pub of_node : (k : ℕ) (d : Cache) → rx.datasets k ≡ some d → is_node k nodes ≡ true
    pub made :
        rx.fast ≡ true
        → (c : Cache) → rx.cache ≡ some c
        → (k : ℕ) (d : Cache) → rx.datasets k ≡ some d
        → d ≡ c

  pub queue_allocate-IsSound :
      (variant : Option RxAlgoVersion) (rx : Rx) (waiting dying : ℕ)
      → IsSound rx waiting dying
      → IsSound (queue_allocate variant rx) (waiting + 1) dying
  unfolding queue_allocate
  queue_allocate-IsSound none rx waiting dying h = record {
    counted = h.counted;
    pending_is = omega (arith, h.pending_is);
    updating_is = ground arith;
    current = h.current;
    of_node = h.of_node;
    made = h.made;
  }
  queue_allocate-IsSound (some version) rx waiting dying h = record {
    counted = h.counted;
    pending_is = omega (arith, h.pending_is);
    updating_is = ground arith;
    current = h.current;
    of_node = h.of_node;
    made = h.made;
  }

  add_vm-IsSound :
      (cache : Cache) (dataset : Option Cache) (rx : Rx) (waiting dying : ℕ)
      → rx.cache ≡ some cache
      → (rx.fast ≡ true → dataset ≡ some cache)
      → IsSound rx waiting dying
      → IsSound (add_vm cache dataset rx) waiting dying
  unfolding add_vm
  add_vm-IsSound cache dataset rx waiting dying same made h = record {
    counted = omega (arith, h.counted);
    pending_is = h.pending_is;
    updating_is = h.updating_is;
    current = (record { same_cache = same; same_dataset = made }, h.current);
    of_node = h.of_node;
    made = h.made;
  }

  if-IsSound :
      {B : Type 0} (b : Bool) (x y : Rx × B) (waiting dying : ℕ)
      → (b ≡ true → IsSound x.0 waiting dying)
      → (b ≡ false → IsSound y.0 waiting dying)
      → IsSound (if b then x else y).0 waiting dying
  if-IsSound true x y waiting dying h k = h refl
  if-IsSound false x y waiting dying h k = k refl

  -- In fast mode, by what the node has.
  fast_vm-IsSound :
      (found : Option Cache) (memory : Bool) (cache : Cache) (rx : Rx) (waiting dying : ℕ)
      → rx.cache ≡ some cache
      → ((d : Cache) → found ≡ some d → d ≡ cache)
      → IsSound rx waiting dying
      → IsSound (fast_vm found memory cache rx).0 waiting dying
  unfolding fast_vm
  fast_vm-IsSound none memory cache rx waiting dying same made h = h
  fast_vm-IsSound (some d) memory cache rx waiting dying same made h =
      if-IsSound memory (add_vm cache (some d) rx, true) (rx, false) waiting dying
        (λ _.
          add_vm-IsSound cache (some d) rx waiting dying same
            (λ _. ap (λ (c : Cache). some c) (made d refl)) h)
        (λ _. h)

  make_vm-IsSound :
      (numa_node : ℕ) (memory : Bool) (cache : Cache) (rx : Rx) (waiting dying : ℕ)
      → rx.cache ≡ some cache
      → IsSound rx waiting dying
      → IsSound (make_vm numa_node memory cache rx).0 waiting dying
  unfolding make_vm
  make_vm-IsSound numa_node memory cache rx waiting dying same h =
      if-IsSound rx.fast (fast_vm (rx.datasets numa_node) memory cache rx)
        (if memory then (add_vm cache none rx, true) else (rx, false)) waiting dying
        (λ fast.
          fast_vm-IsSound (rx.datasets numa_node) memory cache rx waiting dying same
            (h.made fast cache same numa_node) h)
        (λ light.
          if-IsSound memory (add_vm cache none rx, true) (rx, false) waiting dying
            (λ _.
              add_vm-IsSound cache none rx waiting dying same
                (λ fast. absurd (true_is_not_false (sym fast ∙ light))) h)
            (λ _. h))

  cached_vm-IsSound :
      (found : Option Cache) (numa_node : ℕ) (memory : Bool) (rx : Rx) (waiting dying : ℕ)
      → rx.cache ≡ found
      → IsSound rx waiting dying
      → IsSound (cached_vm found numa_node memory rx).0 waiting dying
  unfolding cached_vm
  cached_vm-IsSound none numa_node memory rx waiting dying same h = h
  cached_vm-IsSound (some cache) numa_node memory rx waiting dying same h =
      if-IsSound rx.updating (rx, false) (make_vm numa_node memory cache rx) waiting dying (λ _. h)
        (λ _. make_vm-IsSound numa_node memory cache rx waiting dying same h)

  pub create_vm-IsSound :
      (numa_node : ℕ) (memory : Bool) (rx : Rx) (waiting dying : ℕ)
      → IsSound rx waiting dying
      → IsSound (create_vm numa_node memory rx).0 waiting dying
  unfolding create_vm
  create_vm-IsSound numa_node memory rx waiting dying h =
      cached_vm-IsSound rx.cache numa_node memory rx waiting dying refl h

  -- Without machines, a new cache or none.
  replace_cache-IsSound :
      (cache_memory : Bool) (allocates : ℕ → Bool) (seed : List ℕ) (rx : Rx) (waiting dying : ℕ)
      → rx.vms ≡ []
      → IsSound rx waiting dying
      → IsSound (replace_cache nodes cache_memory allocates seed rx).0 waiting dying
  unfolding replace_cache
  replace_cache-IsSound cache_memory allocates seed rx waiting dying empty h =
      let none_current : (cache : Option Cache) (fast : Bool) → AllCurrent cache fast rx.vms =
        λ cache fast. subst (λ vms. AllCurrent cache fast vms) (sym empty) tt in
      if-IsSound (not cache_memory) _ _ waiting dying
        (λ _. record {
          counted = h.counted;
          pending_is = h.pending_is;
          updating_is = h.updating_is;
          current = none_current none rx.fast;
          of_node = h.of_node;
          made = λ fast c e. absurd (none-ne-some c e);
        })
        (λ _.
          if-IsSound (not rx.fast) _ _ waiting dying
            (λ light. record {
              counted = h.counted;
              pending_is = h.pending_is;
              updating_is = h.updating_is;
              current = none_current _ rx.fast;
              of_node = h.of_node;
              made = λ fast c e. absurd (not_both rx.fast light fast);
            })
            (λ _. record {
              counted = h.counted;
              pending_is = h.pending_is;
              updating_is = h.updating_is;
              current = none_current _ rx.fast;
              of_node = λ k d e.
                  elim (build_dataset-made allocates
                    (record { serial = rx.allocated; seed = take 32 seed }) nodes rx.datasets k d
                    e) [ inl (inside, _) ↦ inside | inr (_, old) ↦ h.of_node k d old ];
              made = λ fast c e k d there.
                  elim (build_dataset-made allocates
                    (record { serial = rx.allocated; seed = take 32 seed }) nodes rx.datasets k d
                    there) [
                      | inl (_, new) ↦ new ∙ some-injective _ c e
                      | inr (outside, old) ↦
                          absurd (true_is_not_false (sym (h.of_node k d old) ∙ outside))
                    ];
            }))

  pub execute-IsSound :
      (cache_memory : Bool) (allocates : ℕ → Bool) (seed : List ℕ) (rx : Rx) (waiting dying : ℕ)
      → IsSound rx waiting dying
      → IsSound (execute nodes cache_memory allocates seed rx).0 waiting dying
  unfolding execute
  execute-IsSound cache_memory allocates seed rx waiting dying h =
      if-IsSound (ltb 0 rx.active_vms) (rx, some timed_out)
        (replace_cache nodes cache_memory allocates seed rx) waiting dying (λ _. h)
        (λ idle.
          replace_cache-IsSound cache_memory allocates seed rx waiting dying
            (no_vms rx.vms (ground (arith, h.counted, idle))) h)

  pub destroy_vm-IsSound :
      (i : ℕ) (rx : Rx) (waiting dying : ℕ)
      → i < length rx.vms
      → IsSound rx waiting dying
      → IsSound (destroy_vm i rx) waiting (dying + 1)
  unfolding destroy_vm
  destroy_vm-IsSound i rx waiting dying inside h = record {
    counted = omega (arith, h.counted, length-remove i rx.vms inside);
    pending_is = h.pending_is;
    updating_is = h.updating_is;
    current = AllCurrent-remove i rx.vms rx.cache rx.fast h.current;
    of_node = h.of_node;
    made = h.made;
  }

  pub uncount_vm-IsSound :
      (rx : Rx) (waiting dying : ℕ)
      → 0 < dying
      → IsSound rx waiting dying
      → IsSound (uncount_vm rx) waiting (dying - 1)
  unfolding uncount_vm
  uncount_vm-IsSound rx waiting dying some_dying h = record {
    counted = omega (arith, h.counted);
    pending_is = h.pending_is;
    updating_is = h.updating_is;
    current = h.current;
    of_node = h.of_node;
    made = h.made;
  }

  pub clear-IsSound :
      (rx : Rx) (waiting dying : ℕ)
      → 0 < waiting
      → IsSound rx waiting dying
      → IsSound (clear rx) (waiting - 1) dying
  unfolding clear
  clear-IsSound rx waiting dying some_waiting h = record {
    counted = h.counted;
    pending_is = omega (arith, h.pending_is);
    updating_is = ground (arith, h.updating_is, h.pending_is);
    current = h.current;
    of_node = h.of_node;
    made = h.made;
  }
