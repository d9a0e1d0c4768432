-- ===== src/Prelude/Tables.antt =====
-- A fact about every number below a bound, by evaluation.
use Prim.Native.Nat.{ℕ, zero, suc, ◌<◌}
use mathlib.Core.Path.{◌≡◌}
use mathlib.Core.Bool.{Bool, true, ◌&&◌}
use native.Mathlib.Omega.{arith}

-- Whether the test holds of 0, 1, ... up to the bound, which is left out.
unfoldable pub all_below : ℕ → (ℕ → Bool) → Bool
all_below zero test = true
all_below (suc bound) test = all_below bound test && test bound

pub all_below_sound :
    (bound : ℕ) (test : ℕ → Bool) (k : ℕ) → all_below bound test ≡ true → k < bound → test k ≡ true
unfolding all_below
all_below_sound zero test k holds below = absurd (omega arith)
all_below_sound (suc bound) test k holds below = ground (arith, all_below_sound bound test k)
