-- ===== src/Prelude/Split.antt =====
-- How `split`, `rsplit` and `partition` take a text apart that was put together with a separator.
use Prim.Native.Nat.{ℕ}
use mathlib.Core.Path.{◌≡◌, refl}
use mathlib.Core.Bool.{true, false}
use mathlib.Core.Option.{none, some}
use mathlib.Core.List.{[], ◌∷◌, ◌++◌}
use native.Mathlib.Omega.{arith}
use rtslib_fb.Prelude.Texts.{Text, has, split, rsplit_once, after}

rsplit_absent : (c : ℕ) (s : Text) → has c s ≡ false → rsplit_once c s ≡ none
unfolding rsplit_once
rsplit_absent c [] h = refl
rsplit_absent c (d ∷ s) h = ground (arith, rsplit_absent c s)

pub rsplit_found : (c : ℕ) (p s : Text) → has c s ≡ false → rsplit_once c (p ++ c ∷ s) ≡ some (p, s)
unfolding rsplit_once
rsplit_found c [] s h = ground (arith, rsplit_absent c s)
rsplit_found c (d ∷ p) s h = rw (rsplit_found c p s h)

pub split_absent : (c : ℕ) (s : Text) → has c s ≡ false → split c s ≡ s ∷ []
unfolding split
split_absent c [] h = refl
split_absent c (d ∷ s) h = ground (arith, split_absent c s)

pub split_found : (c : ℕ) (p s : Text) → has c p ≡ false → split c (p ++ c ∷ s) ≡ p ∷ split c s
unfolding split
split_found c [] s h = ground arith
split_found c (d ∷ p) s h = ground (arith, split_found c p s)

pub after_found : (c : ℕ) (p s : Text) → has c p ≡ false → after c (p ++ c ∷ s) ≡ s
unfolding after
after_found c [] s h = ground arith
after_found c (d ∷ p) s h = ground (arith, after_found c p s)

pub has_found : (c : ℕ) (p s : Text) → has c (p ++ c ∷ s) ≡ true
has_found c [] s = ground arith
has_found c (d ∷ p) s = ground (arith, has_found c p s)
