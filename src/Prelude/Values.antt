-- ===== src/Prelude/Values.antt =====
-- The plain values of a saved configuration, and what Python makes of them.
use Prim.Native.Nat.{ℕ, suc}
use native.Mathlib.Omega.{arith}
use mathlib.Core.Path.{◌≡◌}
use mathlib.Core.Bool.{Bool, true, false, not}
use mathlib.Core.Option.{none, some}
use mathlib.Core.List.{◌∷◌}
use rtslib_fb.Prelude.Tests.{◌==◌}
use rtslib_fb.Prelude.Texts.{Text, codes, strip, has}
use rtslib_fb.Prelude.Lists.{is_empty}
use rtslib_fb.Prelude.Errors.{Result, ok, err, type_error, value_error}
use rtslib_fb.Prelude.Int.{
  ℤ, pos, negsuc, py_int, py_int-decimal, py_int-minus_decimal, strip-decimal, strip-minus_decimal,
}
use rtslib_fb.Prelude.Decimal.{decimal, is_digit, has-decimal}

pub data Json : Type 0 where
  null : Json
  bool : Bool → Json
  number : ℤ → Json
  text : Text → Json

-- `int(value)`
unfoldable pub to_int : Json → Result ℤ
to_int null = err type_error
to_int (bool true) = ok (pos 1)
to_int (bool false) = ok (pos 0)
to_int (number n) = ok n
to_int (text s) = elim (py_int s) [ none ↦ err value_error | some n ↦ ok n ]

-- `str` of an integer
unfoldable pub int_text : ℤ → Text
int_text (pos n) = decimal n
int_text (negsuc n) = b'-' ∷ decimal (suc n)

-- `str(value)`
unfoldable pub to_text : Json → Text
unfolding int_text
to_text null = codes "None"
to_text (bool true) = codes "True"
to_text (bool false) = codes "False"
to_text (number n) = int_text n
to_text (text s) = s

abbrev pub is_zero : ℤ → Bool
is_zero (pos n) = n == 0
is_zero (negsuc n) = false

-- `bool(value)`
unfoldable pub truthy : Json → Bool
truthy null = false
truthy (bool b) = b
truthy (number n) = not (is_zero n)
truthy (text s) = not (is_empty s)

-- `int(str(n))` is `n`, and `str(n)` has no white space around it.
pub py_int-int_text : (n : ℤ) → py_int (int_text n) ≡ some n
unfolding int_text
py_int-int_text (pos n) = py_int-decimal n
py_int-int_text (negsuc n) = py_int-minus_decimal n

pub strip-int_text : (n : ℤ) → strip (int_text n) ≡ int_text n
unfolding int_text
strip-int_text (pos n) = strip-decimal n
strip-int_text (negsuc n) = strip-minus_decimal (suc n)

-- `str(n)` holds digits and a minus sign only.
pub has-int_text :
    (c : ℕ) (n : ℤ) → is_digit c ≡ false → (c == b'-') ≡ false → has c (int_text n) ≡ false
unfolding int_text
has-int_text c (pos n) d m = has-decimal n c d
has-int_text c (negsuc n) d m = ground (arith, has-decimal (suc n) c d)
