-- ===== src/Word/Bits.antt =====
-- `|`, `&` and `^` on words, as arithmetic: one equation for the lowest digit, then the bounds and
-- the cases that the program uses.
use Prim.Native.Nat.{differ, digits, bitwise, bit_and-bitwise, bit_or-bitwise, bit_xor-bitwise}
use native.Mathlib.Nat.{
  mul-one, div-one, div-div-eq-div-mul, div-add-mod, mod-lt, mod-eq_of_lt, mul-add-mod_self_left,
  pow-suc, one-le-pow,
}
use nminer.Prelude.{
  ℕ, zero, suc, ◌+◌, ◌-◌, ◌*◌, ◌/◌, ◌%◌, ◌^◌, ◌≤◌, ◌<◌, min, max, bit_and, bit_or, bit_xor, ◌≡◌,
  refl, ◌∙◌, ap, sym, arith, ◌≡⟨◌⟩◌, ◌∎,
}

module _ (z : ℕ → ℕ) (f : ℕ → ℕ → ℕ) where
  -- One more round of fuel than is enough changes nothing.
  one_round : (fuel x y : ℕ) → x ≤ fuel → digits z f fuel x y ≡ digits z f (suc fuel) x y
  one_round zero zero y small = refl
  one_round zero (suc x) y small = absurd (omega arith)
  one_round (suc fuel) zero y small = refl
  one_round (suc fuel) (suc x) y small = rw (one_round fuel (suc x / 2) (y / 2) (omega arith)) refl

  more_rounds :
      (extra fuel x y : ℕ) → x ≤ fuel → digits z f fuel x y ≡ digits z f (extra + fuel) x y
  more_rounds zero fuel x y small = ap (λ (t : ℕ). digits z f t x y) (omega arith)
  more_rounds (suc extra) fuel x y small =
      more_rounds extra fuel x y small
      ∙ one_round (extra + fuel) x y (omega arith)
      ∙ ap (λ (t : ℕ). digits z f t x y) {x = suc (extra + fuel)} {y = suc extra + fuel}
          (omega arith)

  lowest_digit :
      (x y : ℕ)
      → bitwise z f (suc x) y ≡ f (suc x % 2) (y % 2) + 2 * bitwise z f (suc x / 2) (y / 2)
  lowest_digit x y =
      let half : ℕ = suc x / 2 in
      let spare : digits z f half half (y / 2) ≡ digits z f x half (y / 2) =
        more_rounds (x - half) half half (y / 2) (omega arith)
        ∙ ap (λ (t : ℕ). digits z f t half (y / 2)) {x = x - half + half} {y = x} (omega arith) in
      omega (arith, spare)

pub bit_and_step : (x y : ℕ) → bit_and x y ≡ min (x % 2) (y % 2) + 2 * bit_and (x / 2) (y / 2)
bit_and_step zero y = simp bit_and-bitwise (omega arith)
bit_and_step (suc x) y = simp bit_and-bitwise (lowest_digit (λ _. 0) min x y)

pub bit_or_step : (x y : ℕ) → bit_or x y ≡ max (x % 2) (y % 2) + 2 * bit_or (x / 2) (y / 2)
bit_or_step zero y = simp bit_or-bitwise (omega arith)
bit_or_step (suc x) y = simp bit_or-bitwise (lowest_digit (λ t. t) max x y)

differ_zero : (y : ℕ) → differ 0 y ≡ y
differ_zero y = refl

pub bit_xor_step : (x y : ℕ) → bit_xor x y ≡ differ (x % 2) (y % 2) + 2 * bit_xor (x / 2) (y / 2)
bit_xor_step zero y = simp bit_xor-bitwise (omega (arith, differ_zero (y % 2)))
bit_xor_step (suc x) y = simp bit_xor-bitwise (lowest_digit (λ t. t) differ x y)

differ-lt : (x y : ℕ) → x < 2 → y < 2 → differ x y < 2
differ-lt zero y p q = q
differ-lt (suc x) zero p q = p
differ-lt (suc zero) (suc y) p q = omega arith
differ-lt (suc (suc x)) (suc y) p q = absurd (omega arith)

-- The three operations stay below a power of two.
pub bit_and-lt : (k a b : ℕ) → a < 2 ^ k → bit_and a b < 2 ^ k
bit_and-lt zero zero b p = rw bit_and-bitwise (omega arith)
bit_and-lt zero (suc a) b p = absurd (omega arith)
bit_and-lt (suc k) a b p = omega (
  arith,
  pow-suc 2 k,
  bit_and_step a b,
  bit_and-lt k (a / 2) (b / 2) (omega (arith, pow-suc 2 k)),
)

pub bit_or-lt : (k a b : ℕ) → a < 2 ^ k → b < 2 ^ k → bit_or a b < 2 ^ k
bit_or-lt zero zero b p q = rw bit_or-bitwise q
bit_or-lt zero (suc a) b p q = absurd (omega arith)
bit_or-lt (suc k) a b p q = omega (
  arith,
  pow-suc 2 k,
  bit_or_step a b,
  bit_or-lt k (a / 2) (b / 2) (omega (arith, pow-suc 2 k)) (omega (arith, pow-suc 2 k)),
)

pub bit_xor-lt : (k a b : ℕ) → a < 2 ^ k → b < 2 ^ k → bit_xor a b < 2 ^ k
bit_xor-lt zero zero b p q = rw bit_xor-bitwise q
bit_xor-lt zero (suc a) b p q = absurd (omega arith)
bit_xor-lt (suc k) a b p q = omega (
  arith,
  pow-suc 2 k,
  bit_xor_step a b,
  differ-lt (a % 2) (b % 2) (omega arith) (omega arith),
  bit_xor-lt k (a / 2) (b / 2) (omega (arith, pow-suc 2 k)) (omega (arith, pow-suc 2 k)),
)

-- A recursion on halves, for the laws of `&` and `|` with a zero.
module _ (P : ℕ → Type 0) (base : P 0) (step : (n : ℕ) → P (n / 2) → P n) where
  halves_below : (k n : ℕ) → n < k → P n
  halves_below zero n h = absurd (omega arith)
  halves_below (suc k) zero h = base
  halves_below (suc k) (suc n) h = step (suc n) (halves_below k (suc n / 2) (omega arith))

  pub by_halves : (n : ℕ) → P n
  by_halves n = halves_below (suc n) n (omega arith)

pub zero-bit_and : (b : ℕ) → bit_and 0 b ≡ 0
zero-bit_and b = bit_and-bitwise 0 b

pub bit_and-zero : (a : ℕ) → bit_and a 0 ≡ 0
bit_and-zero =
    by_halves (λ a. bit_and a 0 ≡ 0) (zero-bit_and 0) (λ n ih. omega (arith, bit_and_step n 0))

pub zero-bit_or : (b : ℕ) → bit_or 0 b ≡ b
zero-bit_or b = bit_or-bitwise 0 b

pub bit_or-zero : (a : ℕ) → bit_or a 0 ≡ a
bit_or-zero =
    by_halves (λ a. bit_or a 0 ≡ a) (zero-bit_or 0) (λ n ih. omega (arith, bit_or_step n 0))

-- A mask bounds its result.
pub bit_and-le : (a b : ℕ) → bit_and a b ≤ b
bit_and-le a =
    by_halves (λ a. (b : ℕ) → bit_and a b ≤ b) (λ b. omega (arith, zero-bit_and b))
      (λ n ih b. omega (arith, bit_and_step n b, ih (b / 2))) a

pub mul_two_pow : (q k : ℕ) → q * 2 ^ suc k ≡ 2 * (q * 2 ^ k)
mul_two_pow q k = omega (arith, ap (λ (t : ℕ). q * t) (pow-suc 2 k))

-- A mask whose low digits are zero acts on the digits above them.
pub bit_and-shift : (k a m : ℕ) → bit_and a (m * 2 ^ k) ≡ bit_and (a / 2 ^ k) m * 2 ^ k
bit_and-shift zero a m = rw (mul-one m, div-one a) (sym (mul-one _))
bit_and-shift (suc k) a m = ground (
  arith,
  bit_and_step a (m * 2 ^ suc k),
  mul_two_pow m k,
  mul_two_pow (bit_and (a / 2 ^ suc k) m) k,
  pow-suc 2 k,
  div-div-eq-div-mul a 2 (2 ^ k),
  bit_and-shift k (a / 2) m,
)

mod_two_pow : (k a : ℕ) → a % 2 ^ suc k ≡ a / 2 % 2 ^ k * 2 + a % 2
mod_two_pow k a =
    let p : ℕ = 2 ^ k in
    let x : ℕ = a / 2 / p in
    let y : ℕ = a / 2 % p in
    let small : y * 2 + a % 2 < 2 * p =
      omega (arith, mod-lt (a / 2) (one-le-pow k 2 (omega arith))) in
    let split : a ≡ 2 * p * x + (y * 2 + a % 2) = omega (arith, div-add-mod (a / 2) p) in
    a % 2 ^ suc k
    ≡⟨ ap (λ (t : ℕ). a % t) (omega (arith, pow-suc 2 k)) ⟩ a % (2 * p)
    ≡⟨ ap (λ (t : ℕ). t % (2 * p)) split ⟩ (2 * p * x + (y * 2 + a % 2)) % (2 * p)
    ≡⟨ mul-add-mod_self_left (2 * p) x (y * 2 + a % 2) ⟩ (y * 2 + a % 2) % (2 * p)
    ≡⟨ mod-eq_of_lt small ⟩ y * 2 + a % 2 ∎

-- A mask of `k` ones is a remainder.
pub bit_and-ones : (k a : ℕ) → bit_and a (2 ^ k - 1) ≡ a % 2 ^ k
bit_and-ones zero a = rw (bit_and-zero a) (omega arith)
bit_and-ones (suc k) a = ground (
  arith,
  bit_and_step a (2 ^ suc k - 1),
  bit_and-ones k (a / 2),
  mod_two_pow k a,
  pow-suc 2 k,
  one-le-pow k 2,
)

-- `|` of a high field and a low field is their sum, in both orders.
pub bit_or-fields : (k q r : ℕ) → r < 2 ^ k → bit_or (q * 2 ^ k) r ≡ q * 2 ^ k + r
bit_or-fields zero q r h = ground (arith, bit_or-zero q)
bit_or-fields (suc k) q r h =
    ground (
      arith,
      bit_or_step (q * 2 ^ suc k) r,
      mul_two_pow q k,
      pow-suc 2 k,
      bit_or-fields k q (r / 2),
    )

pub bit_or_comm : (a b : ℕ) → bit_or a b ≡ bit_or b a
bit_or_comm =
    by_halves (λ a. (b : ℕ) → bit_or a b ≡ bit_or b a)
      (λ b. omega (arith, zero-bit_or b, bit_or-zero b))
      (λ n ih b. omega (arith, bit_or_step n b, bit_or_step b n, ih (b / 2)))
