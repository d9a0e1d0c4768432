-- ===== src/Dataset/Split.antt =====
-- `init_parallel` of src/algo/randomx/rx_worker.cpp: what the threads write to the dataset's lines.
use nminer.Prelude.{
  ℕ, zero, suc, ◌+◌, ◌-◌, ◌*◌, ◌/◌, ◌%◌, ◌^◌, ◌≤◌, ◌<◌, List, [], ◌∷◌, Bool, true, false, ◌||◌,
  ◌==◌, ltb, ◌≡◌, ◌⊎◌, inl, inr, refl, ap, sym, ◌∙◌, subst, arith, Bool-cases, ltb→lt,
  le_of_not_ltb, ==_iff,
}
use native.Mathlib.Nat.{
  le_refl, suc-mul, zero-div, mul-div_cancel, mul-le-mul_left, mul-le-mul, le-div_iff_mul-le,
  div-lt_iff_lt-mul, mod-eq_of_lt,
}
use nminer.Word.{sub32}
use nminer.Dataset.Init.{randomx_init_dataset}
use nminer.Dataset.Init.Laws.{IsInit, init_dataset-Items}

-- static_cast<uint32_t>((items * i) / threads)
unfoldable pub boundary : ℕ → ℕ → ℕ → ℕ
boundary items threads i = items * i % 2 ^ 64 / threads % 2 ^ 32

-- The body of thread `i`. `buf` is what the local buffer of `randomx_init_dataset` holds before.
unfoldable pub init_thread {ℓ} :
    {A : Type ℓ} → (ℕ → ℕ → ℕ → (ℕ → A) → ℕ → A) → (ℕ → A) → ℕ → ℕ → ℕ → (ℕ → A) → ℕ → A
unfolding boundary randomx_init_dataset
init_thread dataset_init buf items threads i memory =
    let start = boundary items threads i in
    let end = boundary items threads (i + 1) in
    randomx_init_dataset dataset_init buf start (sub32 end start) memory

-- The threads in the order in which they happen to run, thread `i` with its own buffer. None reads a line of the
-- dataset, and each writes within its own range only, so that one after the other stands for any
-- interleaving of their writes.
unfoldable pub init_parallel {ℓ} :
    {A : Type ℓ} → (ℕ → ℕ → ℕ → (ℕ → A) → ℕ → A) → (ℕ → ℕ → A) → ℕ → ℕ → List ℕ → (ℕ → A) → ℕ → A
unfolding init_thread
init_parallel dataset_init buf items threads [] memory = memory
init_parallel dataset_init buf items threads (i ∷ order) memory =
    init_parallel dataset_init buf items threads order
      (init_thread dataset_init (buf i) items threads i memory)

abbrev pub has_thread : ℕ → List ℕ → Bool
has_thread i [] = false
has_thread i (j ∷ order) = (j == i) || has_thread i order

-- Every thread runs, and no other.
abbrev AllBelow : ℕ → List ℕ → Type 0
AllBelow threads [] = Unit
AllBelow threads (i ∷ order) = (i < threads) × AllBelow threads order

pub record IsOrder (threads : ℕ) (order : List ℕ) : Type 0 where
  pub all : (i : ℕ) → i < threads → has_thread i order ≡ true
  pub only : AllBelow threads order

module _ (items threads : ℕ) (some_threads : 0 < threads) (few : threads < 2 ^ 31)
    (fits : items < 2 ^ 32) where
  quotient : ℕ → ℕ
  quotient i = items * i / threads

  quotient-le : (i : ℕ) → i ≤ threads → quotient i ≤ items
  unfolding quotient
  quotient-le i h =
      let below : items * i ≤ items * threads = mul-le-mul_left items h in
      let bound : items * i < suc items * threads = omega (arith, below, suc-mul items threads) in
      let less : items * i / threads < suc items = (div-lt_iff_lt-mul some_threads).1 bound in
      omega (arith, less)

  -- No product overflows, so the boundaries are the exact quotients.
  boundary-quotient : (i : ℕ) → i ≤ threads → boundary items threads i ≡ quotient i
  unfolding boundary quotient
  boundary-quotient i h =
      let small : items * i ≤ (2 ^ 32 - 1) * 2 ^ 31 =
        mul-le-mul {n₁ = items} {m₁ = i} {n₂ = 2 ^ 32 - 1} {m₂ = 2 ^ 31} (omega arith)
          (omega arith) in
      let e : items * i % 2 ^ 64 ≡ items * i = mod-eq_of_lt (omega (arith, small)) in
      ap (λ (t : ℕ). t / threads % 2 ^ 32) e ∙ mod-eq_of_lt (omega (arith, quotient-le i h))

  quotient_mono : (i : ℕ) → quotient i ≤ quotient (i + 1)
  unfolding quotient
  quotient_mono i =
      let below : items * i / threads * threads ≤ items * i =
        (le-div_iff_mul-le some_threads).0 (le_refl (items * i / threads)) in
      let more : items * i ≤ items * (i + 1) = mul-le-mul_left items (omega arith) in
      let enough : items * i / threads * threads ≤ items * (i + 1) = omega (arith, below, more) in
      (le-div_iff_mul-le some_threads).1 enough

  all_items : quotient threads ≡ items
  unfolding quotient
  all_items = mul-div_cancel items some_threads

  from_zero : quotient 0 ≡ 0
  unfolding quotient
  from_zero = ap (λ (t : ℕ). t / threads) {y = 0} (omega arith) ∙ zero-div threads

  -- The thread that a line belongs to.
  owner : (k i : ℕ) → k < quotient i → (j : ℕ) × (j < i) × (quotient j ≤ k) × (k < quotient (j + 1))
  owner k zero below = absurd (omega (arith, below, from_zero))
  owner k (suc i) below = elim (Bool-cases (ltb k (quotient i))) [
    | inl before ↦
        let (j, less, low, high) = owner k i (ltb→lt k (quotient i) before) in
        (j, omega (arith, less), low, high)
    | inr after ↦ (
      i,
      omega arith,
      le_of_not_ltb k (quotient i) after,
      subst (λ (t : ℕ). k < quotient t) {x = suc i} {y = i + 1} (omega arith) below,
    )
  ]

  module _ {ℓ} {A : Type ℓ} (item : ℕ → A) (dataset_init : ℕ → ℕ → ℕ → (ℕ → A) → ℕ → A)
      (buf : ℕ → ℕ → A) (init : IsInit item dataset_init) where
    -- A thread leaves its own lines with their items, and every other line as it was.
    init_thread-Lines :
        (i k : ℕ) (memory : ℕ → A)
        → i < threads
        → (quotient i ≤ k
            → k < quotient (i + 1)
            → init_thread dataset_init (buf i) items threads i memory k ≡ item k)
          × ((k < quotient i) ⊎ (quotient (i + 1) ≤ k)
              → init_thread dataset_init (buf i) items threads i memory k ≡ memory k)
    unfolding init_thread
    init_thread-Lines i k memory h =
        let e = boundary-quotient i (omega arith) in
        let e' = boundary-quotient (i + 1) (omega arith) in
        let count : sub32 (quotient (i + 1)) (quotient i) ≡ quotient (i + 1) - quotient i =
          omega (arith, quotient_mono i, quotient-le (i + 1) (omega arith)) in
        let (own, others) =
          init_dataset-Items item dataset_init (buf i) memory (quotient i)
            (quotient (i + 1) - quotient i) k init in
        (
          λ low high. rw (e, e', count) (own low (omega (arith, low, high))),
          λ out. rw (e, e', count) (others (omega (arith, out, quotient_mono i))),
        )

    -- A line that has its item keeps it.
    run-done :
        (order : List ℕ) (k : ℕ) (memory : ℕ → A)
        → AllBelow threads order
        → memory k ≡ item k
        → init_parallel dataset_init buf items threads order memory k ≡ item k
    unfolding init_parallel
    run-done [] k memory below e = e
    run-done (i ∷ order) k memory below e =
        let (own, others) = init_thread-Lines i k memory below.0 in
        run-done order k (init_thread dataset_init (buf i) items threads i memory) below.1
          (elim (Bool-cases (ltb k (quotient i))) [
            | inl before ↦ others (inl (ltb→lt k (quotient i) before)) ∙ e
            | inr from ↦ elim (Bool-cases (ltb k (quotient (i + 1)))) [
              | inl inside ↦
                  own (le_of_not_ltb k (quotient i) from) (ltb→lt k (quotient (i + 1)) inside)
              | inr after ↦ others (inr (le_of_not_ltb k (quotient (i + 1)) after)) ∙ e
            ]
          ])

    -- A line whose thread runs gets its item.
    run-owned :
        (order : List ℕ) (j k : ℕ) (memory : ℕ → A)
        → AllBelow threads order
        → has_thread j order ≡ true
        → quotient j ≤ k
        → k < quotient (j + 1)
        → init_parallel dataset_init buf items threads order memory k ≡ item k
    unfolding init_parallel
    run-owned [] j k memory below runs low high = absurd (ground arith)
    run-owned (i ∷ order) j k memory below runs low high =
        let after : ℕ → A = init_thread dataset_init (buf i) items threads i memory in
        elim (Bool-cases (i == j)) [
          | inl same ↦
              let e : j ≡ i = sym ((==_iff i j).0 same) in
              run-done order k after below.1 (
                (init_thread-Lines i k memory below.0).0 (subst (λ t. quotient t ≤ k) e low)
                  (subst (λ t. k < quotient (t + 1)) e high))
          | inr other ↦
              run-owned order j k after below.1
                (subst (λ b. (b || has_thread j order) ≡ true) other runs) low high
        ]

    run-beyond :
        (order : List ℕ) (k : ℕ) (memory : ℕ → A)
        → AllBelow threads order
        → items ≤ k
        → init_parallel dataset_init buf items threads order memory k ≡ memory k
    unfolding init_parallel
    run-beyond [] k memory below beyond = refl
    run-beyond (i ∷ order) k memory below beyond =
        run-beyond order k (init_thread dataset_init (buf i) items threads i memory) below.1 beyond
        ∙ (init_thread-Lines i k memory below.0).1
            (inr (omega (arith, quotient-le (i + 1) (omega (arith, below.0)))))

    -- With from 1 to 2 ^ 31 - 1 threads and fewer than 2 ^ 32 items, over an initialisation of the cache that is
    -- right for multiples of four items, the threads leave every item below `items` in its line and every
    -- other line as it was, in whatever order they run.
    pub init_parallel-Items :
        (order : List ℕ) (memory : ℕ → A) (k : ℕ)
        → IsOrder threads order
        → ((k < items) × (init_parallel dataset_init buf items threads order memory k ≡ item k))
          ⊎ ((items ≤ k) × (init_parallel dataset_init buf items threads order memory k ≡ memory k))
    init_parallel-Items order memory k is = elim (Bool-cases (ltb k items)) [
      | inl inside ↦
          let less = ltb→lt k items inside in
          let (j, below, low, high) = owner k threads (omega (arith, less, all_items)) in
          inl (less, run-owned order j k memory is.only (is.all j below) low high)
      | inr outside ↦
          let beyond = le_of_not_ltb k items outside in
          inr (beyond, run-beyond order k memory is.only beyond)
    ]
