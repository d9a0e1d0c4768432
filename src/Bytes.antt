-- ===== src/Bytes.antt =====
-- Byte arrays as lists: the little-endian loads and stores of blake2/endian.h (`load32`, `load64`,
-- `store32`, `store64`) and of the memcpy in src/algo/randomx/rx_job.h (`read_unaligned`,
-- `write_unaligned`, on a little-endian host).
pub mod Writes
use nminer.Prelude.{
  ℕ, zero, suc, ◌+◌, ◌*◌, ◌/◌, ◌%◌, ◌^◌, ◌≤◌, ◌<◌, List, [], ◌∷◌, ◌++◌, ◌≡◌, refl, ap, length, take,
  drop, length-append, length-take, length-drop, arith, ◌∙◌, subst,
}
use native.Mathlib.Nat.{pow-suc}
use mathlib.Core.Path.{ap₂}

-- The number that a list of bytes spells, its first byte lowest.
unfoldable pub load_le : List ℕ → ℕ
load_le [] = 0
load_le (b ∷ bs) = b + 256 * load_le bs

-- The lowest `n` bytes of a number, the lowest first.
unfoldable pub store_le : ℕ → ℕ → List ℕ
store_le zero v = []
store_le (suc n) v = v % 256 ∷ store_le n (v / 256)

-- Memory with the bytes `ys` written at the offset `off`.
unfoldable pub write_at : List ℕ → ℕ → List ℕ → List ℕ
write_at xs off ys = take off xs ++ (ys ++ drop (off + length ys) xs)

unfoldable pub read_unaligned : ℕ → List ℕ → ℕ → ℕ
unfolding load_le
read_unaligned n xs off = load_le (take n (drop off xs))

unfoldable pub write_unaligned : ℕ → List ℕ → ℕ → ℕ → List ℕ
unfolding store_le write_at
write_unaligned n xs off v = write_at xs off (store_le n v)

abbrev pub AllBytes : List ℕ → Type 0
AllBytes [] = Unit
AllBytes (b ∷ bs) = (b < 256) × AllBytes bs

pub load_le-store_le : (n v : ℕ) → v < 256 ^ n → load_le (store_le n v) ≡ v
unfolding load_le store_le
load_le-store_le zero v h = omega arith
load_le-store_le (suc n) v h =
    omega (arith, load_le-store_le n (v / 256) (omega (arith, pow-suc 256 n)))

pub load_le-lt : (bs : List ℕ) → AllBytes bs → load_le bs < 256 ^ length bs
unfolding load_le
load_le-lt [] h = omega arith
load_le-lt (b ∷ bs) h = omega (arith, load_le-lt bs h.1, pow-suc 256 (length bs))

pub length-store_le : (n v : ℕ) → length (store_le n v) ≡ n
unfolding store_le
length-store_le zero v = refl
length-store_le (suc n) v = ap suc (length-store_le n (v / 256))

pub store_le-load_le : (bs : List ℕ) → AllBytes bs → store_le (length bs) (load_le bs) ≡ bs
unfolding load_le store_le
store_le-load_le [] h = refl
store_le-load_le (b ∷ bs) h =
    ap₂ ◌∷◌ (omega arith) (ap (store_le (length bs)) (omega arith) ∙ store_le-load_le bs h.1)

pub length-write_at :
    (xs : List ℕ) (off : ℕ) (ys : List ℕ)
    → off + length ys ≤ length xs
    → length (write_at xs off ys) ≡ length xs
unfolding write_at
length-write_at xs off ys h = omega (
  arith,
  length-append (take off xs) (ys ++ drop (off + length ys) xs),
  length-append ys (drop (off + length ys) xs),
  length-take off xs,
  length-drop (off + length ys) xs,
)

take_front : (xs ys : List ℕ) → take (length xs) (xs ++ ys) ≡ xs
take_front [] ys = refl
take_front (x ∷ xs) ys = ap (λ t. x ∷ t) (take_front xs ys)

drop_front : (xs ys : List ℕ) → drop (length xs) (xs ++ ys) ≡ ys
drop_front [] ys = refl
drop_front (x ∷ xs) ys = drop_front xs ys

pub front_of : (n : ℕ) (xs ys : List ℕ) → length xs ≡ n → take n (xs ++ ys) ≡ xs
front_of n xs ys e = subst (λ k. take k (xs ++ ys) ≡ xs) e (take_front xs ys)

rest_of : (n : ℕ) (xs ys : List ℕ) → length xs ≡ n → drop n (xs ++ ys) ≡ ys
rest_of n xs ys e = subst (λ k. drop k (xs ++ ys) ≡ ys) e (drop_front xs ys)

-- What was written is read back.
pub read-write_unaligned :
    (n : ℕ) (xs : List ℕ) (off v : ℕ)
    → off ≤ length xs
    → v < 256 ^ n
    → read_unaligned n (write_unaligned n xs off v) off ≡ v
unfolding read_unaligned write_unaligned
read-write_unaligned n xs off v h p =
    rw
      (
        rest_of off (take off xs) _ (omega (arith, length-take off xs)),
        front_of n (store_le n v) _ (length-store_le n v),
      )
      (load_le-store_le n v p)

AllBytes-drop : (k : ℕ) (xs : List ℕ) → AllBytes xs → AllBytes (drop k xs)
AllBytes-drop zero xs h = h
AllBytes-drop (suc k) [] h = h
AllBytes-drop (suc k) (x ∷ xs) h = AllBytes-drop k xs h.1

AllBytes-take : (k : ℕ) (xs : List ℕ) → AllBytes xs → AllBytes (take k xs)
AllBytes-take zero xs h = tt
AllBytes-take (suc k) [] h = h
AllBytes-take (suc k) (x ∷ xs) h = (h.0, AllBytes-take k xs h.1)

pub read_unaligned-lt :
    (n : ℕ) (xs : List ℕ) (off : ℕ)
    → AllBytes xs
    → off + n ≤ length xs
    → read_unaligned n xs off < 256 ^ n
unfolding read_unaligned
read_unaligned-lt n xs off h room =
    let bytes = take n (drop off xs) in
    let full : length bytes ≡ n = omega (arith, length-take n (drop off xs), length-drop off xs) in
    subst (λ k. load_le bytes < 256 ^ k) full
      (load_le-lt bytes (AllBytes-take n (drop off xs) (AllBytes-drop off xs h)))
