-- ===== src/Prelude.antt =====
-- The names that the other modules share: the libraries', passed on, and those of children.
-- Go's integers are native numbers here, its strings native texts, its slices lists.
mod Tests
mod Lists
mod Int
mod Sort
mod Pieces
mod Orders
pub mod Decimal
pub mod Float
pub use Tests.*
pub use Lists.*
pub use Pieces.*
pub use Orders.*
pub use Int.*
unfoldable pub use Sort.*
pub use Prim.Native.Nat.{ℕ, zero, suc, ◌+◌, ◌-◌, ◌*◌, ◌/◌, ◌%◌, ◌^◌, ◌≤◌, ◌<◌}
pub use Prim.Native.String.{String}
pub use mathlib.Core.Path.{◌≡◌, refl, sym, ap, ◌∙◌}
pub use mathlib.Core.Logic.{◌≢◌, ◌↔◌, ◌⊎◌, inl, inr}
pub use mathlib.Core.Bool.{Bool, true, false, not, ◌&&◌, ◌||◌}
pub use mathlib.Core.Option.{Option, none, some}
pub use mathlib.Core.List.{List, [], ◌∷◌, ◌++◌, map}
pub use native.Mathlib.Omega.{arith}
pub use text.Mathlib.TextEquality.{eq_iff}
