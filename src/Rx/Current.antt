-- ===== src/Rx/Current.antt =====
-- The machines over a cache, and how lists and maps of them change.
use nminer.Prelude.{
  if-some_inv, ℕ, zero, suc, ◌<◌, List, [], ◌∷◌, Bool, true, false, not, ◌||◌, Option, none, some,
  ◌≡◌, ◌⊎◌, inl, inr, refl, sym, ap, ◌∙◌, length, ◌==◌, if◌then◌else◌, arith, Bool-cases,
}
use nminer.Vm.Machine.{put}
use nminer.Rx.{Cache, RxVm, build_dataset, remove}

-- The machine uses the cache that is there, and in fast mode a dataset that was computed from it.
pub record IsCurrent (cache : Option Cache) (fast : Bool) (vm : RxVm) : Type 0 where
  pub same_cache : cache ≡ some vm.cache
  pub same_dataset : fast ≡ true → vm.dataset ≡ some vm.cache

abbrev pub AllCurrent : Option Cache → Bool → List RxVm → Type 0
AllCurrent cache fast [] = Unit
AllCurrent cache fast (vm ∷ vms) = IsCurrent cache fast vm × AllCurrent cache fast vms

abbrev pub is_node : ℕ → List ℕ → Bool
is_node k [] = false
is_node k (n ∷ rest) = (n == k) || is_node k rest

pub AllCurrent-remove :
    (i : ℕ) (vms : List RxVm) (cache : Option Cache) (fast : Bool)
    → AllCurrent cache fast vms
    → AllCurrent cache fast (remove i vms)
unfolding remove
AllCurrent-remove i [] cache fast all = tt
AllCurrent-remove zero (vm ∷ vms) cache fast all = all.1
AllCurrent-remove (suc i) (vm ∷ vms) cache fast all =
    (all.0, AllCurrent-remove i vms cache fast all.1)

pub length-remove {ℓ} :
    {A : Type ℓ} (i : ℕ) (xs : List A) → i < length xs → length xs ≡ suc (length (remove i xs))
unfolding remove
length-remove i [] h = absurd (omega arith)
length-remove zero (x ∷ xs) h = refl
length-remove (suc i) (x ∷ xs) h = ap suc (length-remove i xs (omega arith))

pub no_vms : (vms : List RxVm) → length vms ≡ 0 → vms ≡ []
no_vms [] e = refl
no_vms (vm ∷ vms) e = absurd (omega (arith, e))

pub true_is_not_false : ¬ (true ≡ false)
true_is_not_false e = ground arith

pub not_both : (b : Bool) → not b ≡ true → ¬ (b ≡ true)
not_both true e f = true_is_not_false (sym e)
not_both false e f = true_is_not_false (sym f)

or_true : (b : Bool) → (b || true) ≡ true
or_true true = refl
or_true false = refl

pub put-here :
    (datasets : ℕ → Option Cache) (n k : ℕ) (v : Option Cache)
    → (n == k) ≡ true
    → v ≡ put datasets n v k
put-here datasets n k v e = rw e refl

pub put-there :
    (datasets : ℕ → Option Cache) (n k : ℕ) (v : Option Cache)
    → (n == k) ≡ false
    → datasets k ≡ put datasets n v k
put-there datasets n k v e = rw e refl

-- After the nodes' datasets were built: one that there is belongs to a node and is of the new cache, or
-- belongs to none and is as it was.
pub build_dataset-made :
    (allocates : ℕ → Bool) (cache : Cache) (nodes : List ℕ) (datasets : ℕ → Option Cache) (k : ℕ)
    (d : Cache)
    → (build_dataset allocates cache nodes datasets).0 k ≡ some d
    → ((is_node k nodes ≡ true) × (d ≡ cache)) ⊎ ((is_node k nodes ≡ false) × (datasets k ≡ some d))
unfolding build_dataset
build_dataset-made allocates cache [] datasets k d e = inr (refl, e)
build_dataset-made allocates cache (n ∷ rest) datasets k d e =
    let reserved : Bool = elim (datasets n) [ none ↦ allocates n | some _ ↦ true ] in
    let stored : Option Cache = if reserved then some cache else none in
    elim (build_dataset-made allocates cache rest (put datasets n stored) k d e) [
      | inl (inside, made) ↦ inl (rw inside (or_true (n == k)), made)
      | inr (outside, old) ↦ elim (Bool-cases (n == k)) [
        | inl same ↦ inl (
          rw same refl,
          sym (if-some_inv reserved cache d (put-here datasets n k stored same ∙ old)),
        )
        | inr other ↦ inr (rw (other, outside) refl, put-there datasets n k stored other ∙ old)
      ]
    ]
