-- ===== src/Base.antt =====
-- The names that the other modules share: the library's, passed on, and those of the children:
-- Boolean tests on numbers, integers, lists and tables, and actions on a state that may throw.
mod Tests
mod Int
mod Lists
mod Calls
pub mod Keeps
pub use Tests.*
pub use Int.*
pub use Lists.*
pub use Calls.*
pub use Prim.Native.Nat.{ℕ, zero, suc, ◌+◌, ◌-◌, ◌*◌, ◌/◌, ◌^◌, ◌≤◌, ◌<◌}
pub use mathlib.Core.Path.{◌≡◌, refl, sym, ap, ◌∙◌, subst}
pub use mathlib.Core.Logic.{◌≢◌, ◌↔◌, ◌⊎◌, inl, inr}
pub use mathlib.Core.Bool.{Bool, true, false, not, ◌&&◌, ◌||◌}
pub use mathlib.Core.Option.{Option, none, some}
pub use mathlib.Core.List.{List, [], ◌∷◌, ◌++◌, map}
pub use native.Mathlib.Omega.{arith}
