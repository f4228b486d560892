-- ===== src/Base.antt =====
-- The names that the other modules share: those of the libraries and of the children below.
-- `Tests` and `Lists` are tests on numbers and lists over the native numbers; `Classes` the equality
-- that `===` stands for; `Sets` and `Maps` the JavaScript `Set` and `Map`, in insertion order;
-- `Text` strings as lists of UTF-16 code units.
mod Tests
mod Lists
mod Classes
pub mod Int
pub mod Numbers
pub mod Sets
pub mod Arrays
pub mod Sorts
pub mod Options
pub mod Maps
pub mod Text
pub mod Digits
pub mod Trim
pub use Tests.*
pub use Lists.*
pub use Classes.*
pub use Prim.Native.Nat.{ℕ, zero, suc, ◌+◌, ◌-◌, ◌*◌, ◌/◌, ◌%◌, ◌^◌, ◌≤◌, ◌<◌, min, max}
pub use mathlib.Core.Path.{◌≡◌, refl, sym, ap, subst, ◌∙◌}
pub use mathlib.Core.Logic.{◌≢◌, ◌↔◌, ◌⊎◌, inl, inr}
pub use mathlib.Core.Bool.{Bool, true, false, not, ◌&&◌, ◌||◌}
pub use mathlib.Core.Option.{Option, none, some}
pub use mathlib.Core.List.{
  List, [], ◌∷◌, ◌++◌, map, reverse, append-nil, append_assoc, reverse-append, reverse-reverse,
}
pub use native.Mathlib.Omega.{arith}
