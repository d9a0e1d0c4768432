-- ===== src/Prelude/Access.antt =====
-- Elements of lists that are cut or joined.
use Prim.Native.Nat.{ℕ, zero, suc, ◌+◌, ◌≤◌, ◌<◌}
use mathlib.Core.Path.{◌≡◌, refl, ap}
use mathlib.Core.List.{List, [], ◌∷◌, ◌++◌}
use mathlib.Core.Option.{some}
use native.Mathlib.Omega.{arith}
use nminer.Prelude.Lists.{length, get_elem?, take, drop}

module _ {ℓ} {A : Type ℓ} where
  pub get_elem?-take :
      (n : ℕ) (xs : List A) (i : ℕ) → i < n → get_elem? (take n xs) i ≡ get_elem? xs i
  get_elem?-take zero xs i h = absurd (omega arith)
  get_elem?-take (suc n) [] i h = refl
  get_elem?-take (suc n) (x ∷ xs) zero h = refl
  get_elem?-take (suc n) (x ∷ xs) (suc i) h = get_elem?-take n xs i (omega arith)

  pub get_elem?-append_front :
      (xs ys : List A) (i : ℕ) → i < length xs → get_elem? (xs ++ ys) i ≡ get_elem? xs i
  get_elem?-append_front [] ys i h = absurd (omega arith)
  get_elem?-append_front (x ∷ xs) ys zero h = refl
  get_elem?-append_front (x ∷ xs) ys (suc i) h = get_elem?-append_front xs ys i (omega arith)

  -- An element behind the front, by where it stands in the back.
  pub get_elem?-append_back :
      (xs ys : List A) (i j : ℕ) → i ≡ length xs + j → get_elem? (xs ++ ys) i ≡ get_elem? ys j
  get_elem?-append_back [] ys i j e = ap (get_elem? ys) (omega arith)
  get_elem?-append_back (x ∷ xs) ys zero j e = absurd (omega arith)
  get_elem?-append_back (x ∷ xs) ys (suc i) j e = get_elem?-append_back xs ys i j (omega arith)

  pub get_elem?-drop :
      (n : ℕ) (xs : List A) (i j : ℕ) → i ≡ n + j → get_elem? (drop n xs) j ≡ get_elem? xs i
  get_elem?-drop zero xs i j e = ap (get_elem? xs) (omega arith)
  get_elem?-drop (suc n) [] i j e = refl
  get_elem?-drop (suc n) (x ∷ xs) zero j e = absurd (omega arith)
  get_elem?-drop (suc n) (x ∷ xs) (suc i) j e = get_elem?-drop n xs i j (omega arith)

  -- A piece of a front is that piece of the list.
  pub take-drop-take :
      (k j n : ℕ) (xs : List A) → j + k ≤ n → take k (drop j (take n xs)) ≡ take k (drop j xs)
  take-drop-take k (suc j) zero xs h = absurd (omega arith)
  take-drop-take k (suc j) (suc n) [] h = refl
  take-drop-take k (suc j) (suc n) (x ∷ xs) h = take-drop-take k j n xs (omega arith)
  take-drop-take zero zero n xs h = refl
  take-drop-take (suc k) zero zero xs h = absurd (omega arith)
  take-drop-take (suc k) zero (suc n) [] h = refl
  take-drop-take (suc k) zero (suc n) (x ∷ xs) h =
      rw (take-drop-take k zero n xs (omega arith)) refl

  pub get_elem?-inside : (xs : List A) (i : ℕ) → i < length xs → (x : A) × (get_elem? xs i ≡ some x)
  get_elem?-inside [] i h = absurd (omega arith)
  get_elem?-inside (x ∷ xs) zero h = (x, refl)
  get_elem?-inside (x ∷ xs) (suc i) h = get_elem?-inside xs i (omega arith)
