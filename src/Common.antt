-- ===== src/Common.antt =====
-- The names that the other modules share: the libraries', passed on, the Boolean tests, lists over
-- the native numbers, results, and asynchronous actions on a table.
pub mod Tests
pub mod Lists
pub mod Result
pub mod Table
pub mod Act
pub mod Text
pub mod Regex
pub mod Time
pub use Tests.*
pub use Lists.*
pub use Prim.Native.Nat.{ℕ, zero, suc, ◌+◌, ◌-◌, ◌*◌, ◌≤◌, ◌<◌}
pub use Prim.Native.String.{String}
pub use mathlib.Core.Path.{◌≡◌, refl, sym, ap, ◌∙◌, subst}
pub use mathlib.Core.Logic.{◌≢◌, ◌↔◌, ◌⊎◌, inl, inr}
pub use mathlib.Core.Bool.{Bool, true, false, not, ◌&&◌, ◌||◌}
pub use mathlib.Core.Option.{Option, none, some}
pub use mathlib.Core.List.{List, [], ◌∷◌, ◌++◌, map}
pub use native.Mathlib.Omega.{arith}
pub use text.Mathlib.Text.{◌==◌ as str_eq}
pub use text.Mathlib.TextEquality.{eq_iff as str_eq_iff}
unfoldable pub use native.Mathlib.Decide.{dec_lt, ℕ_discrete}
