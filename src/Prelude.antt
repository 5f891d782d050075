-- ===== src/Prelude.antt =====
-- The names that the other modules share: the libraries', passed on, and those of the children.
pub mod Tests
pub mod Equality
pub mod Lists
pub mod Maps
pub mod Sort
pub mod Text
pub mod Errors
pub use Tests.*
pub use Equality.*
pub use Lists.*
pub use Errors.*
unfoldable pub use Text.{concat}
unfoldable pub use Sort.{insert_sorted, stable_sort}
pub use Sort.{
  HeadIsLeast, IsSorted, perm-stable_sort, stable_sort-IsSorted, stable_sort_of_IsSorted,
}
unfoldable pub use Maps.{Dict, is_some, lookup, insert, remove}
pub use Maps.{
  lookup_cons_ne, lookup_cons_eq, insert_cons_ne, insert_cons_eq, lookup-insert, lookup-remove,
  dict_laws,
}
pub use Prim.Native.Nat.{ℕ, zero, suc, ◌+◌, ◌-◌, ◌*◌, ◌/◌, ◌%◌, ◌^◌, ◌≤◌, ◌<◌, max}
pub use Prim.Native.String.{String}
pub use mathlib.Core.Path.{◌≡◌, refl, sym, ap, ◌∙◌, subst, fun_ext}
pub use mathlib.Core.Logic.{◌≢◌, ◌↔◌, ◌⊎◌, inl, inr}
pub use mathlib.Core.Bool.{Bool, true, false, not, ◌&&◌, ◌||◌}
pub use mathlib.Core.Option.{Option, none, some}
pub use mathlib.Core.List.{List, [], ◌∷◌, ◌++◌, map}
pub use native.Mathlib.Omega.{arith}
pub use text.Mathlib.TextEquality.{eq_iff}
