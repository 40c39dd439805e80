-- ===== src/Prelude.antt =====
-- The names that the other modules share: the libraries', passed on, and those of the children
-- (tests on numbers, lists, byte strings, database tables, results with an error).
mod Tests
mod Lists
mod Octets
mod Table
mod Rows
mod Keys
mod Sort
mod Errors
mod Range
mod Unique
mod Members
pub use Tests.*
pub use Lists.*
unfoldable pub use Octets.*
unfoldable pub use Table.*
pub use Keys.*
pub use Rows.*
unfoldable pub use Sort.*
pub use Errors.*
pub use Range.*
pub use Unique.*
pub use Members.*
pub use Prim.Native.Nat.{ℕ, zero, suc, ◌+◌, ◌-◌, ◌*◌, ◌/◌, ◌%◌, ◌^◌, ◌≤◌, ◌<◌, min, max}
pub use mathlib.Core.Path.{◌≡◌, refl, sym, ap, ◌∙◌, subst, fun_ext}
pub use mathlib.Core.Logic.{◌≢◌, ◌↔◌, ◌⊎◌, inl, inr}
pub use mathlib.Core.Bool.{Bool, true, false, not, ◌&&◌, ◌||◌}
pub use mathlib.Core.Option.{Option, none, some}
pub use mathlib.Core.List.{List, [], ◌∷◌, ◌++◌, map}
pub use native.Mathlib.Omega.{arith}
