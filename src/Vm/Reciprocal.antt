-- ===== src/Vm/Reciprocal.antt =====
-- `randomx_reciprocal` of src/algo/randomx/reciprocal.c.
pub mod Laws
use nminer.Prelude.{ℕ, zero, suc, ◌+◌, ◌-◌, ◌*◌, ◌/◌, ◌%◌, ◌^◌, ◌==◌, if◌then◌else◌}

-- 64 - __builtin_clzll(x): how many binary digits `x` has; the fuel bounds them.
unfoldable pub bit_length : ℕ → ℕ → ℕ
bit_length zero x = 0
bit_length (suc fuel) x = if x == 0 then 0 else suc (bit_length fuel (x / 2))

unfoldable pub reciprocal : ℕ → ℕ
unfolding bit_length
reciprocal divisor =
    let p2exp63 : ℕ = 2 ^ 63 in
    let q = p2exp63 / divisor in
    let r = p2exp63 % divisor in
    let shift = bit_length 32 divisor in
    (q * 2 ^ shift % 2 ^ 64 + r * 2 ^ shift % 2 ^ 64 / divisor) % 2 ^ 64
