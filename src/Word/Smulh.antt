-- ===== src/Word/Smulh.antt =====
-- The portable `smulh` against the signed 128-bit product that the compilers with `__int128` use.
use nminer.Prelude.{
  ℕ, ◌+◌, ◌-◌, ◌*◌, ◌/◌, ◌%◌, ◌^◌, ◌<◌, ltb, if◌then◌else◌, ◌≡◌, ap, ◌∙◌, arith, inl, inr,
  Bool-cases,
}
use nminer.Word.{IsU64, sub64, mulh, smulh}
use nminer.Word.Mulh.{mulh_lem}

-- (int128_t)x, as a bit pattern of 128 bits.
abbrev pub extend128 : ℕ → ℕ
extend128 x = if ltb x (2 ^ 63) then x else x + (2 ^ 128 - 2 ^ 64)

-- The sign of one factor takes the other from the high word.
high_word :
    (p b : ℕ)
    → p / 2 ^ 64 < 2 ^ 64
    → b < 2 ^ 64
    → sub64 (p / 2 ^ 64) b ≡ (p + (2 ^ 128 - 2 ^ 64) * b) % 2 ^ 128 / 2 ^ 64
high_word p b hp hb = omega arith

high_words :
    (p a b : ℕ)
    → p / 2 ^ 64 < 2 ^ 64
    → a < 2 ^ 64
    → b < 2 ^ 64
    → sub64 (sub64 (p / 2 ^ 64) b) a
      ≡ (p
          + (2 ^ 128 - 2 ^ 64) * b
          + (2 ^ 128 - 2 ^ 64) * a
          + (2 ^ 128 - 2 ^ 64) * (2 ^ 128 - 2 ^ 64))
        % 2 ^ 128
        / 2 ^ 64
high_words p a b hp ha hb = omega arith

high_word_fits : (a b : ℕ) → IsU64 a → IsU64 b → a * b / 2 ^ 64 < 2 ^ 64
unfolding mulh
high_word_fits a b ha hb = omega (arith, mulh_lem a b ha hb)

-- For any two words, as bit patterns of int64_t, `smulh` is the high word of the 128-bit product of their
-- sign extensions.
pub smulh_lem :
    (a b : ℕ) → IsU64 a → IsU64 b → smulh a b ≡ extend128 a * extend128 b % 2 ^ 128 / 2 ^ 64
unfolding smulh
smulh_lem a b ha hb =
    let wide : ℕ = 2 ^ 128 - 2 ^ 64 in
    let hi = mulh_lem a b ha hb in
    let fits : a * b / 2 ^ 64 < 2 ^ 64 = high_word_fits a b ha hb in
    elim (Bool-cases (ltb a (2 ^ 63))) [
      | inl a_positive ↦ elim (Bool-cases (ltb b (2 ^ 63))) [
        | inl b_positive ↦ rw (a_positive, b_positive) (omega (arith, hi, fits))
        | inr b_negative ↦
            rw (a_positive, b_negative, hi)
              (high_word (a * b) a fits ha
                ∙ ap (λ (t : ℕ). t % 2 ^ 128 / 2 ^ 64) {x = a * b + wide * a} {y = a * (b + wide)}
                    (omega arith))
      ]
      | inr a_negative ↦ elim (Bool-cases (ltb b (2 ^ 63))) [
        | inl b_positive ↦
            rw (a_negative, b_positive, hi)
              (high_word (a * b) b fits hb
                ∙ ap (λ (t : ℕ). t % 2 ^ 128 / 2 ^ 64) {x = a * b + wide * b} {y = (a + wide) * b}
                    (omega arith))
        | inr b_negative ↦
            rw (a_negative, b_negative, hi)
              (high_words (a * b) a b fits ha hb
                ∙ ap (λ (t : ℕ). t % 2 ^ 128 / 2 ^ 64)
                    {x = a * b + wide * b + wide * a + wide * wide} {y = (a + wide) * (b + wide)}
                    (omega arith))
      ]
    ]
