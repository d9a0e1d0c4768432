-- ===== src/Word/Rotate.antt =====
-- `rotr` and `rotl` of instructions_portable.cpp, with a shift below 64, as fields of a word.
use native.Mathlib.Nat.{
  pow-suc, one-le-pow, div-add-mod, mod-lt, mod-eq_of_lt, mul-add-mod_self_left, mul-add-div,
}
use nminer.Prelude.{
  ℕ, zero, suc, ◌+◌, ◌-◌, ◌*◌, ◌/◌, ◌%◌, ◌^◌, ◌<◌, bit_or, ◌≡◌, ap, subst, ◌∙◌, sym, arith, ◌≡⟨◌⟩◌,
  ◌∎,
}
use nminer.Word.{IsU64, rotr, rotl, neg_and_63, shl64, shr}
use nminer.Word.Bits.{bit_or_step, bit_or-fields, bit_or_comm, by_halves, zero-bit_or}

bit_or_self : (a : ℕ) → bit_or a a ≡ a
bit_or_self =
    by_halves (λ a. bit_or a a ≡ a) (zero-bit_or 0) (λ n ih. omega (arith, bit_or_step n n))

pub pow_two_add : (k n : ℕ) → 2 ^ (k + n) ≡ 2 ^ k * 2 ^ n
pow_two_add zero n = ground arith
pow_two_add (suc k) n =
    2 ^ (suc k + n)
    ≡⟨ ap (λ (t : ℕ). 2 ^ t) (omega arith) ⟩ 2 ^ suc (k + n)
    ≡⟨ pow-suc 2 (k + n) ⟩ 2 ^ (k + n) * 2
    ≡⟨ ap (λ (t : ℕ). t * 2) (pow_two_add k n) ⟩ 2 ^ k * 2 ^ n * 2
    ≡⟨ omega (arith, ap (λ (t : ℕ). t * 2 ^ n) (pow-suc 2 k)) ⟩ 2 ^ suc k * 2 ^ n ∎

-- The two shifts of a rotation by `b`, with `p` for `2 ^ b` and `q` for `2 ^ (64 - b)`.
module _ (p q a : ℕ) (hp : 0 < p) (hq : 0 < q) where
  shifted_out : a * q % (p * q) ≡ a % p * q
  shifted_out =
      let split : a * q ≡ p * q * (a / p) + a % p * q =
        omega (arith, ap (λ (t : ℕ). t * q) (div-add-mod a p)) in
      let small : a % p * q < p * q = grind (arith, mod-lt a hp) in
      a * q % (p * q)
      ≡⟨ ap (λ (t : ℕ). t % (p * q)) split ⟩ (p * q * (a / p) + a % p * q) % (p * q)
      ≡⟨ mul-add-mod_self_left (p * q) (a / p) (a % p * q) ⟩ a % p * q % (p * q)
      ≡⟨ mod-eq_of_lt small ⟩ a % p * q ∎

  quotient-lt : a < p * q → a / p < q
  quotient-lt h = grind (arith, div-add-mod a p)

  shifted_back : a < p * q → (a % p * q + a / p) * p % (p * q) ≡ a / p * p
  shifted_back h =
      let small : a / p * p < p * q = omega (arith, div-add-mod a p) in
      (a % p * q + a / p) * p % (p * q)
      ≡⟨ ap (λ (t : ℕ). t % (p * q)) (omega arith) ⟩ (p * q * (a % p) + a / p * p) % (p * q)
      ≡⟨ mul-add-mod_self_left (p * q) (a % p) (a / p * p) ⟩ a / p * p % (p * q)
      ≡⟨ mod-eq_of_lt small ⟩ a / p * p ∎

  shifted_low : a < p * q → (a % p * q + a / p) / q ≡ a % p
  shifted_low h = grind (arith, mul-add-div hq (a % p) (a / p), quotient-lt h)

-- `b` low bits and `64 - b` high bits make a word.
word_split : (b : ℕ) → b < 64 → 2 ^ b * 2 ^ (64 - b) ≡ 2 ^ 64
word_split b h = sym (pow_two_add b (64 - b)) ∙ ap (λ (t : ℕ). 2 ^ t) {y = 64} (omega arith)

pow_pos : (n : ℕ) → 0 < 2 ^ n
pow_pos n = one-le-pow n 2 (omega arith)

rotr_fields : (a b : ℕ) → 0 < b → b < 64 → IsU64 a → rotr a b ≡ a % 2 ^ b * 2 ^ (64 - b) + a / 2 ^ b
unfolding rotr
rotr_fields a b lo hi h =
    let e : neg_and_63 b ≡ 64 - b = omega arith in
    let w = word_split b hi in
    let a_small : a < 2 ^ b * 2 ^ (64 - b) = rw w h in
    let out : shl64 a (64 - b) ≡ a % 2 ^ b * 2 ^ (64 - b) =
      subst (λ (t : ℕ). a * 2 ^ (64 - b) % t ≡ a % 2 ^ b * 2 ^ (64 - b)) w
        (shifted_out (2 ^ b) (2 ^ (64 - b)) a (pow_pos b) (pow_pos (64 - b))) in
    rw (e, out)
      (bit_or_comm (shr a b) (a % 2 ^ b * 2 ^ (64 - b))
        ∙ bit_or-fields (64 - b) (a % 2 ^ b) (a / 2 ^ b)
            (quotient-lt (2 ^ b) (2 ^ (64 - b)) a (pow_pos b) (pow_pos (64 - b)) a_small))

rotl-rotr_fields :
    (a b : ℕ) → 0 < b → b < 64 → IsU64 a → rotl (a % 2 ^ b * 2 ^ (64 - b) + a / 2 ^ b) b ≡ a
unfolding rotl
rotl-rotr_fields a b lo hi h =
    let e : neg_and_63 b ≡ 64 - b = omega arith in
    let w = word_split b hi in
    let a_small : a < 2 ^ b * 2 ^ (64 - b) = rw w h in
    let x : ℕ = a % 2 ^ b * 2 ^ (64 - b) + a / 2 ^ b in
    let back : shl64 x b ≡ a / 2 ^ b * 2 ^ b =
      subst (λ (t : ℕ). x * 2 ^ b % t ≡ a / 2 ^ b * 2 ^ b) w
        (shifted_back (2 ^ b) (2 ^ (64 - b)) a (pow_pos b) (pow_pos (64 - b)) a_small) in
    let low = shifted_low (2 ^ b) (2 ^ (64 - b)) a (pow_pos b) (pow_pos (64 - b)) a_small in
    rw (e, back, low)
      (bit_or-fields b (a / 2 ^ b) (a % 2 ^ b) (mod-lt a (pow_pos b))
        ∙ omega (arith, div-add-mod a (2 ^ b)))

rotate_zero : (a : ℕ) → IsU64 a → (rotr a 0 ≡ a) × (rotl a 0 ≡ a)
unfolding rotr rotl
rotate_zero a h =
    let e : shr a 0 ≡ a = omega arith in
    let f : shl64 a 0 ≡ a = omega arith in (rw (e, f) (bit_or_self a), rw (e, f) (bit_or_self a))

-- Rotating a word right by `b < 64` and then left by `b` gives it back.
pub rotl-rotr : (a b : ℕ) → b < 64 → IsU64 a → rotl (rotr a b) b ≡ a
rotl-rotr a zero hi h = rw (rotate_zero a h).0 (rotate_zero a h).1
rotl-rotr a (suc b) hi h =
    rw (rotr_fields a (suc b) (omega arith) hi h) (rotl-rotr_fields a (suc b) (omega arith) hi h)
