-- ===== src/Word/Mulh.antt =====
-- The portable `mulh` against the 128-bit product that the compilers with `__int128` use.
use native.Mathlib.Nat.{mul-le-mul}
use nminer.Prelude.{ℕ, ◌+◌, ◌-◌, ◌*◌, ◌/◌, ◌%◌, ◌^◌, ◌≤◌, ◌<◌, ◌≡◌, ap, ◌∙◌, sym, arith}
use mathlib.Core.Path.{ap₂}
use nminer.Word.{IsU64, lo32, hi32, mulh}

-- No sum of the portable algorithm overflows, and its carries are those of the full product.
carries :
    (x00 x01 x10 x11 : ℕ)
    → x00 ≤ 18446744065119617025
    → x01 ≤ 18446744065119617025
    → x10 ≤ 18446744065119617025
    → x11 ≤ 18446744065119617025
    → let m1 = (lo32 x10 + lo32 x01 + hi32 x00) % 2 ^ 64 in
      let m2 = (hi32 x10 + hi32 x01 + lo32 x11 + hi32 m1) % 2 ^ 64 in
      let m3 = (hi32 x11 + hi32 m2) % 2 ^ 64 in
      (m3 * 2 ^ 32 % 2 ^ 64 + lo32 m2) % 2 ^ 64
      ≡ (x11 * 2 ^ 64 + (x10 + x01) * 2 ^ 32 + x00) / 2 ^ 64
carries x00 x01 x10 x11 p q r s = omega arith

-- A product of two 32-bit halves fits a word.
half_product : (x y : ℕ) → x < 2 ^ 32 → y < 2 ^ 32 → x * y ≤ 18446744065119617025
half_product x y p q = mul-le-mul {n₂ = 2 ^ 32 - 1} {m₂ = 2 ^ 32 - 1} (omega arith) (omega arith)

word_product : (n : ℕ) → n ≤ 18446744065119617025 → n % 2 ^ 64 ≡ n
word_product n h = omega arith

product_of_halves :
    (a b : ℕ)
    → a * b
      ≡ hi32 a * hi32 b * 2 ^ 64 + (hi32 a * lo32 b + lo32 a * hi32 b) * 2 ^ 32 + lo32 a * lo32 b
product_of_halves a b =
    let ea : a ≡ hi32 a * 2 ^ 32 + lo32 a = omega arith in
    let eb : b ≡ hi32 b * 2 ^ 32 + lo32 b = omega arith in
    ap₂ (λ (x y : ℕ). x * y) ea eb ∙ omega arith

-- `mulh a b` is the high word of the 128-bit product.
pub mulh_lem : (a b : ℕ) → IsU64 a → IsU64 b → mulh a b ≡ a * b / 2 ^ 64
unfolding mulh
mulh_lem a b ha hb =
    let bound = λ (x y : ℕ) (p : x < 2 ^ 32) (q : y < 2 ^ 32). half_product x y p q in
    let b00 = bound (lo32 a) (lo32 b) (omega arith) (omega arith) in
    let b01 = bound (lo32 a) (hi32 b) (omega arith) (omega arith) in
    let b10 = bound (hi32 a) (lo32 b) (omega arith) (omega arith) in
    let b11 = bound (hi32 a) (hi32 b) (omega arith) (omega arith) in
    rw (word_product _ b00, word_product _ b01, word_product _ b10, word_product _ b11)
      (carries _ _ _ _ b00 b01 b10 b11 ∙ ap (λ (t : ℕ). t / 2 ^ 64) (sym (product_of_halves a b)))
