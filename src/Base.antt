-- ===== src/Base.antt =====
-- The names and helpers that every component shares: the library's, passed on, Boolean tests and
-- machine bounds, lists measured by native numbers, texts as their UTF-8 bytes, and maps as
-- association lists.
mod Tests
mod Lists
mod Texts
mod Unicode
mod Assoc
mod Slices
mod Ieee
mod Int
pub use Tests.*
pub use Lists.*
pub use Slices.*
unfoldable pub use Unicode.*
unfoldable pub use Texts.*
unfoldable pub use Assoc.*
pub use Ieee.*
pub use Int.*
pub use Prim.Native.Nat.{ℕ, zero, suc, ◌+◌, ◌-◌, ◌*◌, ◌/◌, ◌%◌, ◌^◌, ◌≤◌, ◌<◌, min, max}
pub use mathlib.Core.Path.{◌≡◌, refl, sym, ap, ◌∙◌}
pub use mathlib.Core.Logic.{◌≢◌, ◌↔◌, ◌⊎◌, inl, inr}
pub use mathlib.Core.Bool.{Bool, true, false, not, ◌&&◌, ◌||◌}
pub use mathlib.Core.Option.{Option, none, some}
pub use mathlib.Core.List.{List, [], ◌∷◌, ◌++◌, map}
pub use native.Mathlib.Omega.{arith}
