-- ===== src/Prelude.antt =====
-- The names that the other modules share: numbers, tests, lists, options, and the arithmetic set.
mod Tests
mod Lists
mod Tables
mod Options
mod Loops
mod Access
pub use Tests.*
pub use Lists.*
pub use Options.*
pub use Access.*
unfoldable pub use Tables.{all_below}
unfoldable pub use Loops.{count_up, for_each}
pub use Loops.{count_up-keeps, for_each-total}
pub use Tables.{all_below_sound}
pub use Prim.Native.Nat.{ℕ, zero, suc, ◌+◌, ◌-◌, ◌*◌, ◌/◌, ◌%◌, ◌^◌, ◌≤◌, ◌<◌, min, max}
pub use Prim.Native.Nat.{bit_and, bit_or, bit_xor}
pub use mathlib.Core.Path.{◌≡◌, refl, sym, ap, ◌∙◌, fun_ext, subst, ◌≡⟨◌⟩◌, ◌∎}
pub use mathlib.Core.Logic.{◌≢◌, ◌↔◌, ◌⊎◌, inl, inr}
pub use mathlib.Core.Bool.{Bool, true, false, not, ◌&&◌, ◌||◌}
pub use mathlib.Core.Option.{Option, none, some}
pub use mathlib.Core.List.{List, [], ◌∷◌, ◌++◌, map}
pub use native.Mathlib.Omega.{arith}
