-- ===== src/Base.antt =====
-- The names that the other modules share: the libraries' names, Boolean tests on numbers, Go's
-- strings as lists of bytes, and the rows of a database table as a list.
mod Tests
mod Strings
mod Tables
mod Members
mod Counts
mod Sorting
mod Pairs
unfoldable pub use Tests.*
unfoldable pub use Strings.*
unfoldable pub use Sorting.*
unfoldable pub use Pairs.*
unfoldable pub use Counts.*
unfoldable pub use Members.*
unfoldable pub use Tables.*
pub use Prim.Native.Nat.{ℕ, zero, suc, ◌+◌, ◌-◌, ◌*◌, ◌/◌, ◌%◌, ◌^◌, ◌≤◌, ◌<◌, max}
pub use Prim.Native.String.{String}
pub use mathlib.Core.Path.{◌≡◌, refl, sym, ap, ◌∙◌, subst}
pub use mathlib.Core.Logic.{◌≢◌, ◌↔◌, ◌⊎◌, inl, inr}
pub use mathlib.Core.Bool.{Bool, true, false, not, ◌&&◌, ◌||◌}
pub use mathlib.Core.Option.{Option, none, some}
pub use mathlib.Core.List.{List, [], ◌∷◌, ◌++◌, map, Memᴰ, Perm}
pub use native.Mathlib.Omega.{arith}
