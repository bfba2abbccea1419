-- ===== src/Base.antt =====
-- The names that the other modules share: the libraries', passed on, and those of seven children.
-- It models no code of its own.
mod Tests
mod Lists
mod Effects
mod Text
mod Pieces
pub mod Header
pub mod Like
mod Inversion
mod Order
pub use Tests.*
pub use Lists.*
pub use Effects.*
pub use Inversion.*
pub use Order.*
unfoldable pub use Text.*
unfoldable pub use Pieces.*
pub use Prim.Native.Nat.{ℕ, zero, suc, ◌+◌, ◌-◌, ◌*◌, ◌/◌, ◌%◌, ◌^◌, ◌≤◌, ◌<◌, max, min}
pub use Prim.Native.String.{String}
pub use mathlib.Core.Path.{◌≡◌, refl, sym, ap, ◌∙◌, subst}
pub use mathlib.Core.Logic.{◌≢◌, ◌↔◌, ◌⊎◌, inl, inr}
pub use mathlib.Core.Bool.{Bool, true, false, ◌&&◌, ◌||◌, not}
pub use mathlib.Core.Option.{Option, none, some}
pub use mathlib.Core.List.{List, [], ◌∷◌, ◌++◌, map, Memᴰ}
pub use native.Mathlib.Omega.{arith}
