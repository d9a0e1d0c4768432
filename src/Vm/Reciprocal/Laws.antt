-- ===== src/Vm/Reciprocal/Laws.antt =====
-- What `randomx_reciprocal` computes, against the comment above it in reciprocal.c.
use native.Mathlib.Nat.{
  pow-suc, pow-le-pow_right, one-le-pow, mod-eq_of_lt, le-div_iff_mul-le, div-add-mod, mod-lt,
  mul-add-div, mul-le-mul, mul_assoc, add-mul, div-lt_iff_lt-mul, mod_self,
}
use nminer.Word.{sub64}
use native.Mathlib.Decide.{dec_lt}
use nminer.Prelude.{
  ℕ, zero, suc, ◌+◌, ◌-◌, ◌*◌, ◌/◌, ◌%◌, ◌^◌, ◌≤◌, ◌<◌, ◌≡◌, refl, subst, ap, sym, ◌∙◌, bit_and,
  true, false, ==_iff, arith,
}
use nminer.Word.Bits.{bit_and-ones}
use nminer.Vm.Config.{is_zero_or_power_of_2}
use nminer.Vm.Reciprocal.{bit_length, reciprocal}

bit_length-zero : (fuel : ℕ) → bit_length fuel 0 ≡ 0
unfolding bit_length
bit_length-zero zero = refl
bit_length-zero (suc fuel) = refl

-- The digits of a positive number bound it from both sides.
bit_length-bounds :
    (fuel x : ℕ)
    → 0 < x
    → x < 2 ^ fuel
    → (x < 2 ^ bit_length fuel x) × (2 ^ bit_length fuel x ≤ 2 * x) × (bit_length fuel x ≤ fuel)
unfolding bit_length
bit_length-bounds zero x pos h = absurd (omega arith)
bit_length-bounds (suc fuel) x pos h = elim (dec_lt 0 (x / 2)) [
  | yes more ↦
      let rest = bit_length-bounds fuel (x / 2) more (omega (arith, pow-suc 2 fuel)) in
      ground (arith, rest, pow-suc 2 (bit_length fuel (x / 2)))
  | no one ↦
      let done : bit_length fuel (x / 2) ≡ 0 =
        ap (bit_length fuel) {y = 0} (omega arith) ∙ bit_length-zero fuel in
      ground (arith, done, ap (λ (t : ℕ). 2 ^ suc t) done)
]

-- A divisor that passes the test of `isZeroOrPowerOf2` is above half the power of two over it.
above_half :
    (k d : ℕ) → k ≤ 32 → d < 2 ^ 32 → 2 ^ k ≤ d → is_zero_or_power_of_2 d ≡ false → 2 ^ k < d
unfolding is_zero_or_power_of_2
above_half k d hk fits low other = elim (dec_lt (2 ^ k) d) [
  | yes above ↦ above
  | no here ↦
      let e : d ≡ 2 ^ k = omega arith in
      let positive : 0 < 2 ^ k = one-le-pow k 2 (omega arith) in
      let less : sub64 d 1 ≡ 2 ^ k - 1 = omega arith in
      let none_set : bit_and d (sub64 d 1) ≡ 0 =
        ap (bit_and d) less ∙ bit_and-ones k d ∙ ap (λ (t : ℕ). t % 2 ^ k) e ∙ mod_self (2 ^ k) in
      let passes : is_zero_or_power_of_2 d ≡ true = (==_iff (bit_and d (sub64 d 1)) 0).1 none_set in
      absurd (cc)
]

-- The parts of the code's sum, for a numerator `p` and a power `w` of two.
quotient_parts : (p d w : ℕ) → 0 < d → p / d * w + p % d * w / d ≡ p * w / d
quotient_parts p d w pos =
    sym (mul-add-div pos (p / d * w) (p % d * w))
    ∙ ap (λ (t : ℕ). t / d)
        (ap (λ (t : ℕ). t + p % d * w) (sym (mul_assoc d (p / d) w))
          ∙ sym (add-mul (d * (p / d)) (p % d) w)
          ∙ ap (λ (t : ℕ). t * w) (div-add-mod p d))

-- The code's sum at the numerator 2 ^ 63, for a power `w` of two between the divisor and its double.
reciprocal_sum :
    (d w : ℕ)
    → 0 < d
    → d < 2 ^ 32
    → w ≤ 2 ^ 32
    → d < w
    → w < 2 * d
    → let p : ℕ = 2 ^ 63 in
      ((p / d * w % 2 ^ 64 + p % d * w % 2 ^ 64 / d) % 2 ^ 64 ≡ p * w / d)
      × (p * w / d < 2 ^ 64)
      × (2 ^ 64 ≤ p * (2 * w) / d)
reciprocal_sum d w pos fits fw above below =
    let p : ℕ = 2 ^ 63 in
    let parts : p / d * w + p % d * w / d ≡ p * w / d = quotient_parts p d w pos in
    let bound : p * w / d < 2 ^ 64 = (div-lt_iff_lt-mul pos).1 (omega arith) in
    let next : 2 ^ 64 ≤ p * (2 * w) / d = (le-div_iff_mul-le pos).1 (omega arith) in
    let product : p % d * w ≤ (2 ^ 32 - 1) * 2 ^ 32 =
      mul-le-mul {n₁ = p % d} {m₁ = w} {n₂ = 2 ^ 32 - 1} {m₂ = 2 ^ 32} (omega (arith, mod-lt p pos))
        fw in
    let whole : p / d * w % 2 ^ 64 ≡ p / d * w = mod-eq_of_lt (omega (arith, parts, bound)) in
    let rest : p % d * w % 2 ^ 64 ≡ p % d * w = mod-eq_of_lt (omega (arith, product)) in
    (rw (whole, rest, parts) (mod-eq_of_lt bound), bound, next)

by_digits :
    (d s : ℕ)
    → 0 < d
    → d < 2 ^ 32
    → is_zero_or_power_of_2 d ≡ false
    → d < 2 ^ s
    → 2 ^ s ≤ 2 * d
    → s ≤ 32
    → let p : ℕ = 2 ^ 63 in
      ((p / d * 2 ^ s % 2 ^ 64 + p % d * 2 ^ s % 2 ^ 64 / d) % 2 ^ 64 ≡ p * 2 ^ s / d)
      × (p * 2 ^ s / d < 2 ^ 64)
      × (2 ^ 64 ≤ p * 2 ^ suc s / d)
by_digits d zero pos h other below twice digits = absurd (omega arith)
by_digits d (suc k) pos h other below twice digits =
    let p : ℕ = 2 ^ 63 in
    let double : 2 ^ suc k ≡ 2 * 2 ^ k = omega (arith, pow-suc 2 k) in
    let above : 2 ^ k < d = above_half k d (omega arith) h (omega arith) other in
    let fw : 2 ^ suc k ≤ 2 ^ 32 = pow-le-pow_right {n = 2} (omega arith) digits in
    let (sum, bound, next) = reciprocal_sum d (2 ^ suc k) pos h fw below (omega arith) in
    (sum, bound, subst (λ (t : ℕ). 2 ^ 64 ≤ p * t / d) (omega (arith, pow-suc 2 (suc k))) next)

zero_passes : (d : ℕ) → d ≡ 0 → ¬ (is_zero_or_power_of_2 d ≡ false)
unfolding is_zero_or_power_of_2
zero_passes d e other =
    let passes : is_zero_or_power_of_2 d ≡ true = ap is_zero_or_power_of_2 {y = 0} e in absurd (cc)

-- For a divisor of 32 bits that is neither 0 nor a power of two, the reciprocal is
-- 2 ^ x / divisor, where x is 63 and the number of the divisor's digits; it fits 64 bits, and for
-- the next x it would not.
pub reciprocal_lem :
    (divisor : ℕ)
    → divisor < 2 ^ 32
    → is_zero_or_power_of_2 divisor ≡ false
    → (reciprocal divisor ≡ 2 ^ 63 * 2 ^ bit_length 32 divisor / divisor)
      × (reciprocal divisor < 2 ^ 64)
      × (2 ^ 64 ≤ 2 ^ 63 * 2 ^ suc (bit_length 32 divisor) / divisor)
unfolding reciprocal
reciprocal_lem d h other = elim (dec_lt 0 d) [
  | yes pos ↦
      let (below, twice, digits) = bit_length-bounds 32 d pos h in
      let (sum, bound, next) = by_digits d (bit_length 32 d) pos h other below twice digits in
      (sum, subst (λ (t : ℕ). t < 2 ^ 64) (sym sum) bound, next)
  | no zero_divisor ↦ absurd (zero_passes d (omega arith) other)
]
