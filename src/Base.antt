-- ===== src/Base.antt =====
-- The names that the other modules share: the libraries', passed on, and those of the children.
mod Tests
mod Lists
mod Equality
mod Text
mod Order
pub mod Dict
pub use Tests.*
pub use Lists.*
pub use Equality.{Eq, ◌==◌, nat_eq, eq_refl, eq_of_beq, ne_of_beq}
unfoldable pub use Equality.{list_dec, list_eq}
pub use Text.*
pub use Order.{
  insert_sorted-All, sort-All, sort-Any, sort-Any_back, Sorted, sort-Sorted, Sorted-take,
  bytes_lt-asym, bytes_lt-chain,
}
unfoldable pub use Order.{bytes_lt, insert_sorted, sort}
pub use Prim.Native.Nat.{ℕ, zero, suc, ◌+◌, ◌-◌, ◌*◌, ◌/◌, ◌%◌, ◌^◌, ◌≤◌, ◌<◌, min}
pub use Prim.Native.String.{String}
pub use mathlib.Core.Path.{◌≡◌, refl, sym, ap, ◌∙◌}
pub use mathlib.Core.Logic.{◌≢◌, ◌↔◌, ◌⊎◌, inl, inr, ite, dite}
pub use mathlib.Core.Bool.{Bool, true, false, not, ◌&&◌, ◌||◌}
pub use mathlib.Core.Option.{Option, none, some}
pub use mathlib.Core.List.{List, [], ◌∷◌, ◌++◌, map, append_assoc, append-nil}
pub use native.Mathlib.Omega.{arith}
unfoldable pub use native.Mathlib.Decide.{dec_lt, ℕ_discrete}
