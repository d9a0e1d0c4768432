-- ===== src/Prelude/Options.antt =====
-- Sequencing of optional results, for do blocks.
use mathlib.Core.Option.{Option, none, some, some-injective, none-ne-some}
use mathlib.Core.Path.{◌≡◌, refl, ap}
use mathlib.Core.Bool.{Bool, true, false}
use nminer.Prelude.Tests.{if◌then◌else◌}

infixl 5 ◌>>=◌
abbrev pub ◌>>=◌ {ℓ κ} : {A : Type ℓ} {B : Type κ} → Option A → (A → Option B) → Option B
none >>= f = none
some a >>= f = f a

pub bind-some {ℓ κ} :
    {A : Type ℓ} {B : Type κ} (o : Option A) (a : A) (f : A → Option B)
    → o ≡ some a
    → (o >>= f) ≡ f a
bind-some o a f e = ap (λ m. m >>= f) e

pub bind-some_inv {ℓ κ} :
    {A : Type ℓ} {B : Type κ} (o : Option A) (f : A → Option B) (b : B)
    → (o >>= f) ≡ some b
    → (a : A) × (o ≡ some a) × (f a ≡ some b)
bind-some_inv none f b e = absurd (none-ne-some b e)
bind-some_inv (some a) f b e = (a, refl, e)

pub if-some_inv {ℓ} :
    {A : Type ℓ} (b : Bool) (a c : A) → (if b then some a else none) ≡ some c → a ≡ c
if-some_inv true a c e = some-injective _ _ e
if-some_inv false a c e = absurd (none-ne-some c e)
