-- ===== src/Bytes/Writes.antt =====
-- The bytes of memory after a write, inside what was written and outside of it.
use nminer.Prelude.{
  ℕ, ◌+◌, ◌≤◌, ◌<◌, List, ◌≡◌, ◌∙◌, length, get_elem?, take, length-take, get_elem?-take,
  get_elem?-append_front, get_elem?-append_back, get_elem?-drop, arith, refl,
}
use nminer.Bytes.{write_at}

pub get_elem?-write_at_before :
    (xs : List ℕ) (off : ℕ) (ys : List ℕ) (i : ℕ)
    → off ≤ length xs
    → i < off
    → get_elem? (write_at xs off ys) i ≡ get_elem? xs i
unfolding write_at
get_elem?-write_at_before xs off ys i room h =
    get_elem?-append_front (take off xs) _ i (omega (arith, length-take off xs))
    ∙ get_elem?-take off xs i h

pub get_elem?-write_at_inside :
    (xs : List ℕ) (off : ℕ) (ys : List ℕ) (i j : ℕ)
    → off ≤ length xs
    → j < length ys
    → i ≡ off + j
    → get_elem? (write_at xs off ys) i ≡ get_elem? ys j
unfolding write_at
get_elem?-write_at_inside xs off ys i j room h e =
    get_elem?-append_back (take off xs) _ i j (omega (arith, length-take off xs))
    ∙ get_elem?-append_front ys _ j h

pub get_elem?-write_at_after :
    (xs : List ℕ) (off : ℕ) (ys : List ℕ) (i j : ℕ)
    → off ≤ length xs
    → i ≡ off + length ys + j
    → get_elem? (write_at xs off ys) i ≡ get_elem? xs i
unfolding write_at
get_elem?-write_at_after xs off ys i j room e =
    get_elem?-append_back (take off xs) _ i (length ys + j) (omega (arith, length-take off xs))
    ∙ get_elem?-append_back ys _ (length ys + j) j refl
    ∙ get_elem?-drop (off + length ys) xs i j e
