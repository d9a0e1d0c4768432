-- ===== src/Word.antt =====
-- uint64_t and uint32_t arithmetic as src/algo/randomx uses it: a word is a number below 2 ^ 64, and
-- every operation writes its wrap-around. From instructions_portable.cpp: `rotr`, `rotl`, `mulh`,
-- `smulh` (the portable bodies); from intrin_portable.h: `signExtend2sCompl`.
pub mod Bits
pub mod Rotate
pub mod Mulh
pub mod Smulh
use nminer.Prelude.{ℕ, ◌+◌, ◌-◌, ◌*◌, ◌/◌, ◌%◌, ◌^◌, ◌<◌, bit_or, ltb, if◌then◌else◌}

abbrev pub u64_mod : ℕ
u64_mod = 2 ^ 64

abbrev pub u32_mod : ℕ
u32_mod = 2 ^ 32

abbrev pub IsU64 : ℕ → Type 0
IsU64 n = n < 2 ^ 64

abbrev pub IsU32 : ℕ → Type 0
IsU32 n = n < 2 ^ 32

abbrev pub add64 : ℕ → ℕ → ℕ
add64 a b = (a + b) % 2 ^ 64

abbrev pub sub64 : ℕ → ℕ → ℕ
sub64 a b = (a + 2 ^ 64 - b) % 2 ^ 64

-- a - b on uint32_t
abbrev pub sub32 : ℕ → ℕ → ℕ
sub32 a b = (a + 2 ^ 32 - b) % 2 ^ 32

abbrev pub mul64 : ℕ → ℕ → ℕ
mul64 a b = a * b % 2 ^ 64

abbrev pub shl64 : ℕ → ℕ → ℕ
shl64 a k = a * 2 ^ k % 2 ^ 64

abbrev pub shr : ℕ → ℕ → ℕ
shr a k = a / 2 ^ k

-- ~a
abbrev pub not64 : ℕ → ℕ
not64 a = 2 ^ 64 - 1 - a

-- -b & 63 for an `unsigned int` b
abbrev pub neg_and_63 : ℕ → ℕ
neg_and_63 b = (2 ^ 32 - b) % 64

unfoldable pub rotr : ℕ → ℕ → ℕ
rotr a b = bit_or (shr a b) (shl64 a (neg_and_63 b))

unfoldable pub rotl : ℕ → ℕ → ℕ
rotl a b = bit_or (shl64 a b) (shr a (neg_and_63 b))

-- LO and HI of the portable `mulh`.
abbrev pub lo32 : ℕ → ℕ
lo32 x = x % 2 ^ 32

abbrev pub hi32 : ℕ → ℕ
hi32 x = x / 2 ^ 32

-- The high half of the 128-bit product, from four 32-bit products.
unfoldable pub mulh : ℕ → ℕ → ℕ
mulh a b =
    let x00 = mul64 (lo32 a) (lo32 b) in
    let x01 = mul64 (lo32 a) (hi32 b) in
    let x10 = mul64 (hi32 a) (lo32 b) in
    let x11 = mul64 (hi32 a) (hi32 b) in
    let m1 = (lo32 x10 + lo32 x01 + hi32 x00) % 2 ^ 64 in
    let m2 = (hi32 x10 + hi32 x01 + lo32 x11 + hi32 m1) % 2 ^ 64 in
    let m3 = (hi32 x11 + hi32 m2) % 2 ^ 64 in (m3 * 2 ^ 32 % 2 ^ 64 + lo32 m2) % 2 ^ 64

-- The sign of an int64_t, from its bit pattern.
abbrev pub negative64 : ℕ → ℕ
negative64 a = a / 2 ^ 63

-- The signed high half; the arguments and the result are bit patterns of int64_t.
unfoldable pub smulh : ℕ → ℕ → ℕ
smulh a b =
    let hi = mulh a b in
    let hi' = if ltb a (2 ^ 63) then hi else sub64 hi b in
    if ltb b (2 ^ 63) then hi' else sub64 hi' a

-- (int64_t)(int32_t)x, as a bit pattern.
unfoldable pub sign_extend : ℕ → ℕ
sign_extend x = if ltb x (2 ^ 31) then x else x + (2 ^ 64 - 2 ^ 32)
