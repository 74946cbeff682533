-- ===== src/Prelude/Texts.antt =====
-- Python's `str` as its code points, and the methods of `str` that the program calls. Case and
-- white space are those of ASCII.
use Prim.Native.Nat.{ℕ, ◌+◌}
use Prim.Native.Char.{code}
use Prim.Native.String.{String}
use mathlib.Core.Path.{◌≡◌, refl}
use mathlib.Core.Logic.{◌↔◌}
use mathlib.Core.Bool.{Bool, true, false, ◌&&◌, ◌||◌}
use mathlib.Core.Option.{Option, none, some}
use mathlib.Core.List.{List, [], ◌∷◌, ◌++◌}
use native.Mathlib.Omega.{arith}
use rtslib_fb.Prelude.Tests.{if◌then◌else◌, ◌==◌, leb}
use rtslib_fb.Prelude.Lists.{is_empty}

abbrev pub Text : Type 0
Text = List ℕ

-- A literal, as its code points.
abbrev pub codes : String → Text
codes String.[] = []
codes (String.◌∷◌ c s) = code c ∷ codes s

-- `s == t`
abbrev pub text_eq : Text → Text → Bool
text_eq [] [] = true
text_eq [] (d ∷ t) = false
text_eq (c ∷ s) [] = false
text_eq (c ∷ s) (d ∷ t) = (c == d) && text_eq s t

pub text_eq_iff : (s t : Text) → (text_eq s t ≡ true) ↔ (s ≡ t)
text_eq_iff [] [] = ground arith
text_eq_iff [] (d ∷ t) = ground arith
text_eq_iff (c ∷ s) [] = ground arith
text_eq_iff (c ∷ s) (d ∷ t) = ground (arith, text_eq_iff s t)

pub text_eq_refl : (s : Text) → text_eq s s ≡ true
text_eq_refl s = (text_eq_iff s s).1 refl

-- `c in s`
abbrev pub has : ℕ → Text → Bool
has c [] = false
has c (d ∷ s) = if c == d then true else has c s

-- `s.startswith(p)`
abbrev pub starts_with : Text → Text → Bool
starts_with [] s = true
starts_with (c ∷ p) [] = false
starts_with (c ∷ p) (d ∷ s) = (c == d) && starts_with p s

-- `s.replace(c, "")`
unfoldable pub without : ℕ → Text → Text
without c [] = []
without c (d ∷ s) = let rest = without c s in if c == d then rest else d ∷ rest

-- The white space of ASCII, its separators 28 to 31 among it.
abbrev pub is_space : ℕ → Bool
is_space c = (c == 32) || (leb 9 c && leb c 13) || (leb 28 c && leb c 31)

unfoldable pub lstrip : Text → Text
lstrip [] = []
lstrip (c ∷ s) = let rest = lstrip s in if is_space c then rest else c ∷ s

unfoldable pub rstrip : Text → Text
rstrip [] = []
rstrip (c ∷ s) = let rest = rstrip s in if is_space c && is_empty rest then [] else c ∷ rest

-- `s.strip()`
unfoldable pub strip : Text → Text
unfolding lstrip rstrip
strip s = rstrip (lstrip s)

abbrev pub lower_char : ℕ → ℕ
lower_char c = if leb 65 c && leb c 90 then c + 32 else c

-- `s.lower()`
unfoldable pub lower : Text → Text
lower [] = []
lower (c ∷ s) = lower_char c ∷ lower s

-- What stands before the first `c`, and what stands behind it.
unfoldable pub before : ℕ → Text → Text
before c [] = []
before c (d ∷ s) = let rest = before c s in if c == d then [] else d ∷ rest

unfoldable pub after : ℕ → Text → Text
after c [] = []
after c (d ∷ s) = let rest = after c s in if c == d then s else rest

abbrev push : ℕ → List Text → List Text
push c [] = (c ∷ []) ∷ []
push c (p ∷ ps) = (c ∷ p) ∷ ps

-- `s.split(c)`
unfoldable pub split : ℕ → Text → List Text
split c [] = [] ∷ []
split c (d ∷ s) = let rest = split c s in if c == d then [] ∷ rest else push d rest

abbrev drop_empty : List Text → List Text
drop_empty [] = []
drop_empty (p ∷ ps) = let rest = drop_empty ps in if is_empty p then rest else p ∷ rest

-- `s.split()`
unfoldable pub words : Text → List Text
unfolding split
words s = drop_empty (split 32 (spaced s))
  where
    spaced : Text → Text
    spaced [] = []
    spaced (c ∷ t) = (if is_space c then 32 else c) ∷ spaced t

-- `s.splitlines()`, where the line ends by a line feed.
unfoldable pub lines_of : Text → List Text
unfolding split
lines_of [] = []
lines_of (c ∷ s) = drop_last (split 10 (c ∷ s))
  where
    drop_last : List Text → List Text
    drop_last [] = []
    drop_last (p ∷ []) = if is_empty p then [] else p ∷ []
    drop_last (p ∷ q ∷ ps) = p ∷ drop_last (q ∷ ps)

-- `s.rsplit(c, 1)` where `c` is in `s`: what stands before and behind the last `c`.
unfoldable pub rsplit_once : ℕ → Text → Option (Text × Text)
rsplit_once c [] = none
rsplit_once c (d ∷ s) = elim (rsplit_once c s) [
  | some (a, b) ↦ some (d ∷ a, b)
  | none ↦ (if c == d then some ([], s) else none)
]

-- A letter that is left on the left stays there.
rstrip_cons : (c : ℕ) (s : Text) → is_space c ≡ false → rstrip (c ∷ s) ≡ c ∷ rstrip s
unfolding rstrip
rstrip_cons c s h = ground arith

lstrip_cons : (c : ℕ) (s : Text) → is_space c ≡ false → lstrip (c ∷ s) ≡ c ∷ s
unfolding lstrip
lstrip_cons c s h = ground arith

lstrip-rstrip-lstrip : (s : Text) → lstrip (rstrip (lstrip s)) ≡ rstrip (lstrip s)
unfolding lstrip rstrip
lstrip-rstrip-lstrip [] = refl
lstrip-rstrip-lstrip (c ∷ s) = ground (arith, lstrip-rstrip-lstrip s)

rstrip-rstrip : (s : Text) → rstrip (rstrip s) ≡ rstrip s
unfolding rstrip
rstrip-rstrip [] = refl
rstrip-rstrip (c ∷ s) = ground (arith, rstrip-rstrip s)

-- Stripping twice is stripping once.
pub strip-strip : (s : Text) → strip (strip s) ≡ strip s
unfolding strip
strip-strip s = rw lstrip-rstrip-lstrip (rstrip-rstrip (lstrip s))

pub without-not_has : (c : ℕ) (s : Text) → has c s ≡ false → without c s ≡ s
unfolding without
without-not_has c [] h = refl
without-not_has c (d ∷ s) h = ground (arith, without-not_has c s)

pub has-without : (c : ℕ) (s : Text) → has c (without c s) ≡ false
unfolding without
has-without c [] = refl
has-without c (d ∷ s) = ground (arith, has-without c s)

pub has-append : (c : ℕ) (s t : Text) → has c s ≡ false → has c t ≡ false → has c (s ++ t) ≡ false
has-append c [] t hs ht = ht
has-append c (d ∷ s) t hs ht = ground (arith, has-append c s t)

rstrip_spaceless : (s : Text) → ((c : ℕ) → is_space c ≡ true → has c s ≡ false) → rstrip s ≡ s
unfolding rstrip
rstrip_spaceless [] h = refl
rstrip_spaceless (c ∷ s) h =
    let rest = rstrip_spaceless s (λ d space. ground (arith, h d)) in ground (arith, h c)

-- A text without white space is not changed.
pub strip_spaceless : (s : Text) → ((c : ℕ) → is_space c ≡ true → has c s ≡ false) → strip s ≡ s
unfolding strip lstrip
strip_spaceless [] h = rstrip_spaceless [] h
strip_spaceless (c ∷ s) h = ground (arith, h c, rstrip_spaceless (c ∷ s) h)

rstrip_newline : (s : Text) → rstrip (s ++ 10 ∷ []) ≡ rstrip s
unfolding rstrip
rstrip_newline [] = refl
rstrip_newline (c ∷ s) = ground (arith, rstrip_newline s)

-- A line break at the end is stripped.
pub strip_newline : (s : Text) → strip (s ++ 10 ∷ []) ≡ strip s
unfolding strip lstrip
strip_newline [] = rstrip_newline []
strip_newline (c ∷ s) = ground (arith, strip_newline s, rstrip_newline (c ∷ s))
