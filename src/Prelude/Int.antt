-- ===== src/Prelude/Int.antt =====
-- Python's `int` where a value may be negative, and `int(text)`: white space around it, a sign and
-- decimal digits. The `_` that Python allows between digits is not read.
use Prim.Native.Nat.{ℕ, zero, suc, ◌*◌, ◌/◌}
use mathlib.Core.Path.{◌≡◌, refl, sym, ap, ◌∙◌}
use mathlib.Core.Bool.{true, false}
use mathlib.Core.Option.{Option, none, some}
use mathlib.Core.List.{[], ◌∷◌}
use native.Mathlib.Omega.{arith}
use rtslib_fb.Prelude.Tests.{if◌then◌else◌, ◌==◌}
use rtslib_fb.Prelude.Texts.{Text, has, is_space, strip, strip_spaceless}
use rtslib_fb.Prelude.Decimal.{int_of, decimal, is_digit, int_of-decimal, has-decimal}

-- `negsuc n` is -(n + 1).
pub data ℤ : Type 0 where
  pos : ℕ → ℤ
  negsuc : ℕ → ℤ

abbrev negate : ℕ → ℤ
negate zero = pos zero
negate (suc n) = negsuc n

infixl 7 ◌*ℤ◌
abbrev pub ◌*ℤ◌ : ℤ → ℤ → ℤ
pos m *ℤ pos n = pos (m * n)
pos m *ℤ negsuc n = negate (m * suc n)
negsuc m *ℤ pos n = negate (suc m * n)
negsuc m *ℤ negsuc n = pos (suc m * suc n)

-- Python's `//`, which rounds down; `none` is a ZeroDivisionError.
unfoldable pub floor_div : ℤ → ℤ → Option ℤ
floor_div a (pos zero) = none
floor_div (pos m) (pos (suc n)) = some (pos (m / suc n))
floor_div (negsuc m) (pos (suc n)) = some (negsuc (m / suc n))
floor_div (pos zero) (negsuc n) = some (pos 0)
floor_div (pos (suc m)) (negsuc n) = some (negsuc (m / suc n))
floor_div (negsuc m) (negsuc n) = some (pos (suc m / suc n))

abbrev signed : (ℕ → ℤ) → Option ℕ → Option ℤ
signed f none = none
signed f (some n) = some (f n)

int_from : Text → Option ℤ
int_from [] = none
int_from (c ∷ s) =
    if c == b'-'
    then signed negate (int_of s)
    else if c == b'+'
    then signed pos (int_of s)
    else signed pos (int_of (c ∷ s))

-- `none` is Python's ValueError.
unfoldable pub py_int : Text → Option ℤ
unfolding int_from int_of strip
py_int s = int_from (strip s)

-- `int` reads what `str` prints, with or without a sign.
space-not_digit : (c : ℕ) → is_space c ≡ true → is_digit c ≡ false
space-not_digit c h = ground arith

pub strip-decimal : (n : ℕ) → strip (decimal n) ≡ decimal n
strip-decimal n = strip_spaceless (decimal n) (λ c space. has-decimal n c (space-not_digit c space))

pub strip-minus_decimal : (n : ℕ) → strip (b'-' ∷ decimal n) ≡ b'-' ∷ decimal n
strip-minus_decimal n =
    strip_spaceless (b'-' ∷ decimal n)
      (λ c space. let d = has-decimal n c (space-not_digit c space) in ground arith)

int_of_empty : int_of [] ≡ none
unfolding int_of
int_of_empty = refl

int_from_digits :
    (s : Text) (n : ℕ)
    → has b'-' s ≡ false
    → has b'+' s ≡ false
    → int_of s ≡ some n
    → int_from s ≡ some (pos n)
unfolding int_from
int_from_digits [] n minus plus h =
    let e : ◌≡◌ {A = Option ℕ} none (some n) = sym int_of_empty ∙ h in cc
int_from_digits (c ∷ s) n minus plus h =
    let value : signed pos (int_of (c ∷ s)) ≡ some (pos n) = ap (signed pos) h in ground arith

pub py_int-decimal : (n : ℕ) → py_int (decimal n) ≡ some (pos n)
unfolding py_int
py_int-decimal n =
    ap int_from (strip-decimal n)
    ∙ int_from_digits (decimal n) n (has-decimal n b'-' refl) (has-decimal n b'+' refl)
        (int_of-decimal n)

pub py_int-minus_decimal : (n : ℕ) → py_int (b'-' ∷ decimal (suc n)) ≡ some (negsuc n)
unfolding py_int int_from
py_int-minus_decimal n =
    ap int_from (strip-minus_decimal (suc n)) ∙ ap (signed negate) (int_of-decimal (suc n))
