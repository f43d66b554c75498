-- ===== src/Prelude.antt =====
-- The names that the other modules share: the libraries', passed on, and those of the children.
mod Tests
mod Lists
pub mod Int
pub use Tests.*
pub use Lists.*
pub use Prim.Native.Nat.{ℕ, zero, suc, ◌+◌, ◌-◌, ◌*◌, ◌/◌, ◌%◌, ◌^◌, ◌≤◌, ◌<◌, min, max}
pub use mathlib.Core.Path.{◌≡◌, refl, sym, ap, ap₂, subst, ◌∙◌}
pub use mathlib.Core.Logic.{◌≢◌, ◌↔◌, ◌⊎◌, inl, inr}
pub use mathlib.Core.Bool.{Bool, true, false, not, ◌&&◌, ◌||◌}
pub use mathlib.Core.Option.{Option, none, some, none-ne-some}
pub use mathlib.Core.List.{List, [], ◌∷◌, ◌++◌, map, append_assoc, append-nil}
pub use native.Mathlib.Omega.{arith}
