-- ===== src/Prelude.antt =====
-- The names that the other modules share: the libraries', passed on, and those of the children.
pub mod Tests
pub mod Bytes
pub mod Lists
pub mod Map
pub mod Sort
pub mod Effects
pub mod Text
pub use Tests.*
unfoldable pub use Lists.{any, all, keep, contains, distinct}
pub use Lists.{
  contains-keep, distinct-keep, all_of_contains, contains_of_all, length, length-append, All,
  contains-append, all-append,
}
unfoldable pub use Bytes.{Str, bytes, str_eq, starts_with, has_part, to_lower, equal_fold}
pub use Bytes.{ne_of_str_eq, str_eq_iff, str_eq_refl, starts_with-append}
unfoldable pub use Text.{cut, format_int, parse_int}
pub use Text.{
  Parsed, number, below_zero, out_of_range, no_number, cut-append, format_int-is_digit,
  parse_int-format_int,
}
pub use Prim.Native.Nat.{ℕ, zero, suc, ◌+◌, ◌-◌, ◌*◌, ◌^◌, ◌≤◌, ◌<◌}
pub use mathlib.Core.Path.{◌≡◌, refl, sym, ap, subst, ◌∙◌}
pub use mathlib.Core.Logic.{◌≢◌, ◌↔◌, ◌⊎◌, inl, inr}
pub use mathlib.Core.Bool.{Bool, true, false, ◌&&◌, ◌||◌, not}
pub use mathlib.Core.Option.{Option, none, some}
pub use mathlib.Core.List.{List, [], ◌∷◌, ◌++◌, map}
pub use native.Mathlib.Omega.{arith}
