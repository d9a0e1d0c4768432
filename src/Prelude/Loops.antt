-- ===== src/Prelude/Loops.antt =====
-- The loop `for (unsigned i = from; i < from + count; ++i)`, total and with a body that can fail.
use Prim.Native.Nat.{ℕ, zero, suc, ◌+◌, ◌<◌}
use mathlib.Core.Option.{Option, some}
use mathlib.Core.Path.{◌≡◌, refl}
use native.Mathlib.Omega.{arith}
use nminer.Prelude.Options.{◌>>=◌}

unfoldable pub count_up {ℓ} : {A : Type ℓ} → ℕ → ℕ → (ℕ → A → A) → A → A
count_up zero from body a = a
count_up (suc count) from body a = count_up count (from + 1) body (body from a)

unfoldable pub for_each {ℓ} : {A : Type ℓ} → ℕ → ℕ → (ℕ → A → Option A) → A → Option A
for_each zero from body a = some a
for_each (suc count) from body a = do a' ← body from a; for_each count (from + 1) body a'

-- What every round keeps holds at the end.
pub count_up-keeps {ℓ ℓ'} :
    {A : Type ℓ} (P : A → Type ℓ') (count from : ℕ) (body : ℕ → A → A) (a : A)
    → ((i : ℕ) (a : A) → P a → P (body i a))
    → P a
    → P (count_up count from body a)
unfolding count_up
count_up-keeps P zero from body a step h = h
count_up-keeps P (suc count) from body a step h =
    count_up-keeps P count (from + 1) body (body from a) step (step from a h)

-- And a loop whose rounds all succeed succeeds.
pub for_each-total {ℓ ℓ'} :
    {A : Type ℓ} (P : A → Type ℓ') (count from : ℕ) (body : ℕ → A → Option A) (a : A)
    → ((i : ℕ) (a : A) → i < from + count → P a → (a' : A) × (body i a ≡ some a') × P a')
    → P a
    → (a' : A) × (for_each count from body a ≡ some a') × P a'
unfolding for_each
for_each-total P zero from body a step h = (a, refl, h)
for_each-total P (suc count) from body a step h =
    let (a1, e1, h1) = step from a (omega arith) h in
    let (a2, e2, h2) =
      for_each-total P count (from + 1) body a1 (λ i a lt. step i a (omega arith)) h1 in
    (a2, rw e1 e2, h2)
