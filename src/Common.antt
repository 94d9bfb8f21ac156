-- ===== src/Common.antt =====
-- Names that the other modules share: the libraries', passed on, and those of the children.
mod Tests
mod Lists
mod Text
mod Sort
mod Order
mod Decimal
pub use Tests.*
pub use Lists.*
pub use Text.*
unfoldable pub use Sort.{sort_desc}
unfoldable pub use Decimal.{show, digits_value, split_on}
pub use Sort.{
  All-sort_desc, sort_desc-IsSortedDesc, sort_desc-perm, length-sort_desc, All-sort_desc-back,
  IsOrderDesc, sort_desc-IsOrderDesc,
}
pub use Order.{Reordered, IsSortedDesc, All_permuted, length_permuted, AreDistinct, sorted_unique}
pub use Prim.Native.Nat.{ℕ, zero, suc, ◌+◌, ◌-◌, ◌*◌, ◌/◌, ◌%◌, ◌^◌, ◌≤◌, ◌<◌}
pub use Prim.Native.String.{String}
pub use mathlib.Core.Path.{◌≡◌, refl, sym, ap, ◌∙◌}
pub use mathlib.Core.Logic.{◌≢◌, ◌↔◌, ◌⊎◌, inl, inr}
pub use mathlib.Core.Bool.{Bool, true, false, not, ◌&&◌, ◌||◌}
pub use mathlib.Core.Option.{Option, none, some}
pub use mathlib.Core.List.{List, [], ◌∷◌, ◌++◌, map}
pub use native.Mathlib.Omega.{arith}
