-- ===== src/Job/Target.antt =====
-- `ParseTarget` of src/algo/randomx/rx.h, and the difficulty that `SendJob` announces for a target.
use nminer.Prelude.{
  ℕ, ◌+◌, ◌-◌, ◌*◌, ◌/◌, ◌%◌, ◌^◌, ◌≤◌, ◌<◌, List, ◌≡◌, length, leb, ◌==◌, if◌then◌else◌, arith,
}
use nminer.Bytes.{read_unaligned}
use native.Mathlib.Nat.{div-add-mod, mod-lt, div-eq_of_lt-le, mul-le-mul}
use native.Mathlib.Decide.{dec_lt}

-- 0xFFFFFFFFFFFFFFFF / (0xFFFFFFFF / compact), for a compact target that is not 0.
unfoldable pub expand_compact : ℕ → ℕ
expand_compact compact = (2 ^ 64 - 1) / ((2 ^ 32 - 1) / compact)

-- Eight bytes are the target, four are a compact one, fewer are none.
unfoldable pub parse_target : List ℕ → ℕ
unfolding expand_compact read_unaligned
parse_target target =
    let compact = read_unaligned 4 target 0 in
    if leb 8 (length target)
    then read_unaligned 8 target 0
    else if leb 4 (length target)
    then if compact == 0 then 0 else expand_compact compact
    else 0

-- const uint64_t new_diff = 0xFFFFFFFFFFFFFFFFULL / new_target
unfoldable pub difficulty : ℕ → ℕ
difficulty target = (2 ^ 64 - 1) / target

large_quotient : (d q r : ℕ) → d < 2 ^ 32 → r < d → d * q + r ≡ 2 ^ 64 - 1 → 2 ^ 32 ≤ q
large_quotient d q r small rest whole = elim (dec_lt q (2 ^ 32)) [
  | yes below ↦ absurd (
      omega (
        arith,
        mul-le-mul {n₁ = d} {m₁ = q} {n₂ = 2 ^ 32 - 1} {m₂ = 2 ^ 32 - 1} (omega arith)
            (omega arith),
      ))
  | no above ↦ omega arith
]

-- Dividing by a quotient by `d` gives `d` back while `d` is below 2 ^ 32.
quotient_back : (d : ℕ) → 0 < d → d < 2 ^ 32 → (2 ^ 64 - 1) / ((2 ^ 64 - 1) / d) ≡ d
quotient_back d pos small =
    let n : ℕ = 2 ^ 64 - 1 in
    let q : ℕ = n / d in
    let whole : d * q + n % d ≡ n = div-add-mod n d in
    let rest : n % d < d = mod-lt n pos in
    let large : 2 ^ 32 ≤ q = large_quotient d q (n % d) small rest whole in
    div-eq_of_lt-le q {m = n} (omega arith) (omega arith)

quotient_pos : (c : ℕ) → 0 < c → c < 2 ^ 32 → 0 < (2 ^ 32 - 1) / c
quotient_pos c pos small = grind (arith, div-add-mod (2 ^ 32 - 1) c, mod-lt (2 ^ 32 - 1) pos)

-- The difficulty that is announced for a compact target is 0xFFFFFFFF / compact, exactly.
pub difficulty-expand_compact :
    (compact : ℕ)
    → 0 < compact
    → compact < 2 ^ 32
    → difficulty (expand_compact compact) ≡ (2 ^ 32 - 1) / compact
unfolding difficulty expand_compact
difficulty-expand_compact c pos small =
    quotient_back ((2 ^ 32 - 1) / c) (quotient_pos c pos small) (omega arith)
