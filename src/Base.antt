-- ===== src/Base.antt =====
-- Shared names: the libraries' passed on, tests on native numbers, lists, texts and integers.
mod Tests
mod Lists
mod Texts
mod Int
mod Decimal
mod Unicode
pub use Tests.*
pub use Lists.*
unfoldable pub use Texts.*
unfoldable pub use Unicode.*
unfoldable pub use Decimal.*
unfoldable pub use Int.*
pub use Prim.Native.Nat.{ℕ, zero, suc, ◌+◌, ◌-◌, ◌*◌, ◌/◌, ◌%◌, ◌^◌, ◌≤◌, ◌<◌, min, max}
pub use mathlib.Core.Path.{◌≡◌, refl, sym, ap, ◌∙◌}
pub use mathlib.Core.Logic.{◌≢◌, ◌↔◌, ◌⊎◌, inl, inr}
pub use mathlib.Core.Bool.{Bool, true, false, not, ◌&&◌, ◌||◌}
pub use mathlib.Core.Option.{Option, none, some}
pub use mathlib.Core.List.{List, [], ◌∷◌, ◌++◌, map}
pub use native.Mathlib.Omega.{arith}
