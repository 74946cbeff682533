-- ===== src/Prelude.antt =====
-- The names that the other modules share: the libraries', passed on, and those of the children.
mod Tests
mod Lists
mod Texts
mod Errors
pub mod Float
pub mod Split
pub mod Decimal
pub mod Free
pub mod Int
pub mod Values
pub use Tests.*
pub use Lists.*
pub use Texts.{
  Text, codes, text_eq, text_eq_iff, text_eq_refl, has, starts_with, is_space, lower_char,
}
pub use Texts.{strip-strip, strip_newline, without-not_has, has-without, has-append}
unfoldable pub use Texts.{
  split, rsplit_once, lines_of, words, without, lstrip, rstrip, strip, lower, before, after,
}
pub use Errors.{
  Exn, rtslib_error, alua_not_supported, broken_link, not_in_cfs, os_error, value_error,
}
pub use Errors.{key_error, type_error, index_error, attribute_error, unbound_local, runtime_error}
pub use Errors.{zero_division, overflow_error, device_not_found}
pub use Values.{Json, py_int-int_text, strip-int_text, has-int_text}
pub use Int.{strip-decimal, py_int-decimal, py_int-minus_decimal}
pub use Decimal.{has-decimal}
unfoldable pub use Values.{to_int, int_text, to_text, truthy}
pub use Int.{ℤ, pos, negsuc, ◌*ℤ◌}
unfoldable pub use Int.{py_int, floor_div}
unfoldable pub use Decimal.{decimal, int_of}
pub use Float.{round_div, float_small}
unfoldable pub use Float.{float_of}
pub use Errors.{Result, ok, err}
unfoldable pub use Errors.{is_rtslib, is_os, is_rtslib_or_key}
pub use Prim.Native.Nat.{ℕ, zero, suc, ◌+◌, ◌-◌, ◌*◌, ◌/◌, ◌%◌, ◌≤◌, ◌<◌}
pub use Prim.Native.String.{String}
pub use mathlib.Core.Path.{◌≡◌, refl, sym, ap, subst, ◌∙◌}
pub use mathlib.Core.Logic.{◌≢◌, ◌↔◌, ◌⊎◌, inl, inr}
pub use mathlib.Core.Bool.{Bool, true, false, not, ◌&&◌, ◌||◌}
pub use mathlib.Core.Option.{Option, none, some}
pub use mathlib.Core.List.{List, [], ◌∷◌, ◌++◌, map}
pub use native.Mathlib.Omega.{arith}
