-- ===== src/Prelude/Float.antt =====
-- Python's `float` of a natural number, and `round` of a quotient.
use Prim.Native.Nat.{ℕ, zero, suc, ◌+◌, ◌*◌, ◌/◌, ◌%◌, ◌≤◌, ◌<◌, ◌^◌}
use mathlib.Core.Path.{◌≡◌, refl, ap, ◌∙◌}
use mathlib.Core.Bool.{true, false}
use native.Mathlib.Omega.{arith}
use rtslib_fb.Prelude.Tests.{if◌then◌else◌, ltb, leb}
use rtslib_fb.Prelude.Errors.{Result, ok, err, overflow_error}

-- `a / b` to the nearest integer; a half goes to the even one.
abbrev pub round_div : ℕ → ℕ → ℕ
round_div a b =
    let q = a / b in
    let twice = 2 * (a % b) in if ltb twice b then q else if ltb b twice then q + 1 else q + q % 2

-- What the last of the 53 bits of a float for `n` counts: the least power of two from `u` on of which
-- `n` has less than 2 ^ 53.
unfoldable pub last_bit : ℕ → ℕ → ℕ → ℕ
last_bit zero u n = u
last_bit (suc rounds) u n = elim (ltb n (9007199254740992 * u)) [
  | true ↦ u
  | false ↦ last_bit rounds (2 * u) n
]

-- The multiple of the unit that is nearest, where it is below the limit.
abbrev rounded_below : ℕ → ℕ → ℕ → Result ℕ
rounded_below limit unit n =
    if leb limit (round_div n unit * unit) then err overflow_error else ok (round_div n unit * unit)

-- `float(n)`: the largest float is below 2 ^ 1024, so that 971 doublings are enough, and what is
-- rounded to more is an OverflowError.
unfoldable pub float_of : ℕ → Result ℕ
unfolding last_bit
float_of n = rounded_below (2 ^ 1024) (last_bit 971 1 n) n

last_bit_small : (rounds n : ℕ) → n < 9007199254740992 → last_bit (suc rounds) 1 n ≡ 1
unfolding last_bit
last_bit_small rounds n h =
    let small : ltb n (9007199254740992 * 1) ≡ true = ground arith in rw (last_bit, small) refl

rounded_small :
    (limit n : ℕ) → 9007199254740992 ≤ limit → n < 9007199254740992 → rounded_below limit 1 n ≡ ok n
rounded_small limit n large h =
    let exact : round_div n 1 * 1 ≡ n = ground arith in
    let below : leb limit n ≡ false = ground arith in rw (exact, below) refl

limit_large : (2 ^ 53) ≤ (2 ^ 1024)
limit_large = omega arith

-- Below 2 ^ 53 every number is a float.
pub float_small : (n : ℕ) → n < 9007199254740992 → float_of n ≡ ok n
unfolding float_of
float_small n h =
    ap (λ u. rounded_below (2 ^ 1024) u n) (last_bit_small 970 n h)
    ∙ rounded_small (2 ^ 1024) n limit_large h
