-- ===== src/Prelude/Decimal.antt =====
-- `%d` of a number that is not negative, and `int` of a text of decimal digits.
use Prim.Native.Nat.{ℕ, zero, suc, ◌+◌, ◌-◌, ◌*◌, ◌/◌, ◌%◌, ◌<◌}
use mathlib.Core.Path.{◌≡◌, refl, ◌∙◌}
use mathlib.Core.Bool.{Bool, false, ◌&&◌}
use mathlib.Core.Logic.{◌≢◌, inl, inr}
use mathlib.Core.Option.{Option, none, some}
use mathlib.Core.List.{[], ◌∷◌}
use native.Mathlib.Omega.{arith}
use rtslib_fb.Prelude.Tests.{if◌then◌else◌, leb, ltb, Bool-cases}
use rtslib_fb.Prelude.Texts.{Text, has}

abbrev pub is_digit : ℕ → Bool
is_digit c = leb 48 c && leb c 57

-- The digits of `n` before those of `acc`; the fuel is a bound of `n`.
digits_onto : ℕ → ℕ → Text → Text
digits_onto zero n acc = acc
digits_onto (suc fuel) n acc =
    let acc' = (48 + n % 10) ∷ acc in
    let rest = digits_onto fuel (n / 10) acc' in if ltb n 10 then acc' else rest

unfoldable pub decimal : ℕ → Text
unfolding digits_onto
decimal n = digits_onto (n + 1) n []

digits_from : ℕ → Text → Option ℕ
digits_from acc [] = some acc
digits_from acc (c ∷ s) =
    let rest = digits_from (acc * 10 + (c - 48)) s in if is_digit c then rest else none

-- `none` is Python's ValueError.
unfoldable pub int_of : Text → Option ℕ
unfolding digits_from
int_of [] = none
int_of (c ∷ s) = digits_from 0 (c ∷ s)

digits_from-digits_onto :
    (fuel n : ℕ) (acc : Text)
    → n < fuel
    → digits_from 0 (digits_onto fuel n acc) ≡ digits_from n acc
unfolding digits_from digits_onto
digits_from-digits_onto zero n acc h = elim h [ ]
digits_from-digits_onto (suc fuel) n acc h = elim (Bool-cases (ltb n 10)) [
  | inl small ↦ rw small (ground arith)
  | inr large ↦
      rw large
        (digits_from-digits_onto fuel (n / 10) ((48 + n % 10) ∷ acc) (ground arith) ∙ ground arith)
]

digits_onto-cons : (fuel n : ℕ) (acc : Text) → 0 < fuel → digits_onto fuel n acc ≢ []
unfolding digits_onto
digits_onto-cons zero n acc h = elim h [ ]
digits_onto-cons (suc zero) n acc h = ground arith
digits_onto-cons (suc (suc fuel)) n acc h =
    ground (arith, digits_onto-cons (suc fuel) (n / 10) ((48 + n % 10) ∷ acc))

-- What `%d` prints `int` reads back.
pub int_of-decimal : (n : ℕ) → int_of (decimal n) ≡ some n
unfolding int_of decimal
int_of-decimal n = ground (
  arith,
  digits_from-digits_onto (n + 1) n [] (omega arith),
  digits_onto-cons (n + 1) n [] (omega arith),
)

pub decimal_injective : (m n : ℕ) → decimal m ≡ decimal n → m ≡ n
decimal_injective m n e = cc (int_of-decimal m, int_of-decimal n)

has-digits_onto :
    (fuel n c : ℕ) (acc : Text)
    → is_digit c ≡ false
    → has c acc ≡ false
    → has c (digits_onto fuel n acc) ≡ false
unfolding digits_onto
has-digits_onto zero n c acc d h = h
has-digits_onto (suc fuel) n c acc d h =
    ground (arith, has-digits_onto fuel (n / 10) c ((48 + n % 10) ∷ acc))

-- It prints digits and nothing else.
pub has-decimal : (n c : ℕ) → is_digit c ≡ false → has c (decimal n) ≡ false
unfolding decimal
has-decimal n c d = has-digits_onto (n + 1) n c [] d refl
