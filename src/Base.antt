-- ===== src/Base.antt =====
-- The names that the components share: the libraries', passed on, and those of the children.
mod Bools
pub mod Lists
mod Equality
pub mod Int
pub mod Sorting
pub mod Texts
pub mod Cuts
pub mod Splits
pub mod Floats
pub mod FilePaths
pub mod Maps
pub use Bools.*
pub use Lists.*
pub use Equality.*
pub use Prim.Native.Nat.{ℕ, zero, suc, ◌+◌, ◌-◌, ◌*◌, ◌/◌, ◌%◌, ◌^◌, ◌≤◌, ◌<◌}
pub use Prim.Native.String.{String}
pub use mathlib.Core.Path.{◌≡◌, refl, sym, ap, ◌∙◌, subst}
pub use mathlib.Core.Logic.{◌≢◌, ◌↔◌, ◌⊎◌, inl, inr}
pub use mathlib.Core.Bool.{Bool, true, false, not, ◌&&◌, ◌||◌}
pub use mathlib.Core.Option.{Option, none, some}
pub use mathlib.Core.List.{List, [], ◌∷◌, ◌++◌, Memᴰ, Perm}
unfoldable pub use mathlib.Core.List.{map, flat_map}
pub use native.Mathlib.Omega.{arith}
pub use text.Mathlib.TextEquality.{eq_iff}
