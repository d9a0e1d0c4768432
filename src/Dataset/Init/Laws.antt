-- ===== src/Dataset/Init/Laws.antt =====
-- Which lines of the dataset an initialisation writes, and what.
use nminer.Prelude.{
  le_of_not_ltb, ℕ, zero, suc, ◌+◌, ◌-◌, ◌%◌, ◌≤◌, ◌<◌, ◌≡◌, ◌⊎◌, inl, inr, Bool, true, false, refl,
  ap, ◌∙◌, ltb, ◌==◌, if◌then◌else◌, Bool-cases, ltb→lt, ==_iff, subst, arith,
}
use nminer.Vm.Machine.{put}
use nminer.Dataset.Init.{init_lines, init_dataset, copy_lines, randomx_init_dataset}

-- What is asked of the cache's initialisation, of which a compiled one takes four items at a time: for a number of
-- items that four divides, it writes their lines and no other.
pub record IsInit {ℓ} {A : Type ℓ} (item : ℕ → A) (dataset_init : ℕ → ℕ → ℕ → (ℕ → A) → ℕ → A)
    : Type ℓ where
  pub inside :
      (at start count k : ℕ) (memory : ℕ → A)
      → count % 4 ≡ 0
      → k < count
      → dataset_init at start (start + count) memory (at + k) ≡ item (start + k)
  pub outside :
      (at start count k : ℕ) (memory : ℕ → A)
      → count % 4 ≡ 0
      → (k < at) ⊎ (at + count ≤ k)
      → dataset_init at start (start + count) memory k ≡ memory k

put-outside {ℓ} :
    {A : Type ℓ} (memory : ℕ → A) (at k : ℕ) (x : A)
    → (k < at) ⊎ (at + 1 ≤ k)
    → put memory at x k ≡ memory k
put-outside memory at k x out = ground arith

put-at {ℓ} : {A : Type ℓ} (memory : ℕ → A) (at k : ℕ) (x : A) → k ≡ at → put memory at x k ≡ x
put-at memory at k x same = ground arith

copy_lines-inside {ℓ} :
    {A : Type ℓ} (count at k : ℕ) (from memory : ℕ → A)
    → at ≤ k
    → k < at + count
    → copy_lines count at from memory k ≡ from (k - at)
unfolding copy_lines
copy_lines-inside count at k from memory low high = ground arith

copy_lines-outside {ℓ} :
    {A : Type ℓ} (count at k : ℕ) (from memory : ℕ → A)
    → (k < at) ⊎ (at + count ≤ k)
    → copy_lines count at from memory k ≡ memory k
unfolding copy_lines
copy_lines-outside count at k from memory out = ground arith

module _ {ℓ} {A : Type ℓ} (item : ℕ → A) where
  init_lines-outside :
      (count at start k : ℕ) (memory : ℕ → A)
      → (k < at) ⊎ (at + count ≤ k)
      → init_lines item count at start memory k ≡ memory k
  unfolding init_lines
  init_lines-outside zero at start k memory out = refl
  init_lines-outside (suc count) at start k memory out =
      init_lines-outside count (at + 1) (start + 1) k (put memory at (item start))
        (omega (arith, out))
      ∙ put-outside memory at k (item start) (omega (arith, out))

  init_lines-inside :
      (count at start k : ℕ) (memory : ℕ → A)
      → k < count
      → init_lines item count at start memory (at + k) ≡ item (start + k)
  unfolding init_lines
  init_lines-inside zero at start k memory less = absurd (omega (arith, less))
  init_lines-inside (suc count) at start zero memory less =
      init_lines-outside count (at + 1) (start + 1) (at + 0) (put memory at (item start))
        (inl (omega arith))
      ∙ put-at memory at (at + 0) (item start) (omega arith)
      ∙ ap item {x = start} (omega arith)
  init_lines-inside (suc count) at start (suc k) memory less =
      ap (init_lines item count (at + 1) (start + 1) (put memory at (item start))) {x = at + suc k}
        (omega arith)
      ∙ init_lines-inside count (at + 1) (start + 1) k (put memory at (item start))
          (omega (arith, less))
      ∙ ap item {x = start + 1 + k} (omega arith)

  pub init_dataset-IsInit : IsInit item (init_dataset item)
  unfolding init_dataset
  init_dataset-IsInit =
      let rounds : (start count at k : ℕ) (memory : ℕ → A)
          → init_lines item (start + count - start) at start memory k
            ≡ init_lines item count at start memory k =
        λ start count at k memory.
          ap (λ (n : ℕ). init_lines item n at start memory k) {x = start + count - start}
            {y = count} (omega arith) in
      record {
        inside = λ at start count k memory _ less.
            rounds start count at (at + k) memory ∙ init_lines-inside count at start k memory less;
        outside = λ at start count k memory _ out.
            rounds start count at k memory ∙ init_lines-outside count at start k memory out;
      }

  -- The memory `m` has the items in the lines from `start` on, and is `memory` elsewhere.
  abbrev Lines : (ℕ → A) → ℕ → ℕ → ℕ → (ℕ → A) → Type ℓ
  Lines memory start count k m =
      (start ≤ k → k < start + count → m k ≡ item k)
      × ((k < start) ⊎ (start + count ≤ k) → m k ≡ memory k)

  if-Lines :
      (memory : ℕ → A) (start count k : ℕ) (b : Bool) (x y : ℕ → A)
      → (b ≡ true → Lines memory start count k x)
      → (b ≡ false → Lines memory start count k y)
      → Lines memory start count k (if b then x else y)
  if-Lines memory start count k true x y h g = h refl
  if-Lines memory start count k false x y h g = g refl

  module _ (dataset_init : ℕ → ℕ → ℕ → (ℕ → A) → ℕ → A) (init : IsInit item dataset_init) where
    own-Lines :
        (memory : ℕ → A) (start count k : ℕ)
        → count % 4 ≡ 0
        → Lines memory start count k (dataset_init start start (start + count) memory)
    own-Lines memory start count k fours = (
      λ low high.
          let back : start + (k - start) ≡ k = omega arith in
          subst (λ (t : ℕ). dataset_init start start (start + count) memory t ≡ item t) back
            (init.inside start start count (k - start) memory fours (omega arith)),
      init.outside start start count k memory fours,
    )

    few-Lines :
        (buf memory : ℕ → A) (start count k : ℕ)
        → count < 4
        → Lines memory start count k
            (copy_lines count start (dataset_init 0 start (start + 4) buf) memory)
    few-Lines buf memory start count k few = (
      λ low high.
          copy_lines-inside count start k (dataset_init 0 start (start + 4) buf) memory low high
          ∙ ap (dataset_init 0 start (start + 4) buf) {x = k - start} {y = 0 + (k - start)}
              (omega arith)
          ∙ init.inside 0 start 4 (k - start) buf refl (omega arith)
          ∙ ap item {x = start + (k - start)} (omega arith),
      copy_lines-outside count start k (dataset_init 0 start (start + 4) buf) memory,
    )

    -- The last four lines are written over a front that four divides.
    overlap-Lines :
        (memory : ℕ → A) (start count rest k : ℕ)
        → 4 ≤ count
        → rest < 4
        → (count - rest) % 4 ≡ 0
        → Lines memory start count k (
            dataset_init
              (start + (count - 4))
              (start + (count - 4))
              (start + (count - 4) + 4)
              (dataset_init start start (start + (count - rest)) memory))
    overlap-Lines memory start count rest k enough small fours =
        let front = own-Lines memory start (count - rest) k fours in
        let last =
          own-Lines (dataset_init start start (start + (count - rest)) memory) (start + (count - 4))
            4 k refl in
        (
          λ low high. elim (Bool-cases (ltb k (start + (count - 4)))) [
            | inl before ↦
                last.1 (inl (ltb→lt k (start + (count - 4)) before))
                ∙ front.0 low (omega (arith, ltb→lt k (start + (count - 4)) before))
            | inr after ↦ last.0 (le_of_not_ltb k (start + (count - 4)) after) (omega arith)
          ],
          λ out. last.1 (omega arith) ∙ front.1 (omega arith),
        )

-- The lines of the items asked for hold them, and every other line is as it was, though `dataset_init` is called
-- for multiples of four items only.
pub init_dataset-Items {ℓ} :
    {A : Type ℓ} (item : ℕ → A) (dataset_init : ℕ → ℕ → ℕ → (ℕ → A) → ℕ → A) (buf memory : ℕ → A)
    (start count k : ℕ)
    → IsInit item dataset_init
    → (start ≤ k
        → k < start + count
        → randomx_init_dataset dataset_init buf start count memory k ≡ item k)
      × ((k < start) ⊎ (start + count ≤ k)
          → randomx_init_dataset dataset_init buf start count memory k ≡ memory k)
unfolding randomx_init_dataset
init_dataset-Items item dataset_init buf memory start count k init =
    if-Lines item memory start count k (ltb count 4) _ _
      (λ few. few-Lines item dataset_init init buf memory start count k (ltb→lt count 4 few))
      (λ many.
        if-Lines item memory start count k (count % 4 == 0) _ _
          (λ fours.
            own-Lines item dataset_init init memory start count k ((==_iff (count % 4) 0).0 fours))
          (λ _.
            let rest_small : count % 4 < 4 = omega arith in
            let fours : (count - count % 4) % 4 ≡ 0 = omega arith in
            subst
              (λ (t : ℕ). Lines item memory start count k (
                dataset_init (start + (count - 4)) (start + (count - 4)) (start + (count - 4) + 4)
                  (dataset_init start start t memory)))
              {x = start + (count - count % 4)} {y = start + count - count % 4}
              (omega (arith, rest_small, le_of_not_ltb count 4 many))
              (overlap-Lines item dataset_init init memory start count (count % 4) k
                (le_of_not_ltb count 4 many) rest_small fours)))
