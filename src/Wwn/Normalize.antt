-- ===== src/Wwn/Normalize.antt =====
-- What `normalize_wwn` (rtslib/utils.py) returns: the first type that fits, and for the types that
-- name hardware one canonical text.
use rtslib_fb.Prelude.{
  ℕ, zero, suc, ◌≡◌, ◌↔◌, refl, ap, Bool, true, not, Bool-cases, inl, inr, Option, none, some, List,
  [], ◌∷◌, ◌++◌, Text, length, all, Result, ok, err, rtslib_error, arith,
}
use rtslib_fb.Wwn.{WwnType, cleanse_wwn, literal, run, wwn_test, normalize_wwn}

-- No type of the list fits.
abbrev pub none_fits : List WwnType → Text → Bool
none_fits ts w = all (λ t. not (wwn_test t (cleanse_wwn t w))) ts

-- A result is the cleansed text of the first type of the list whose test passes on it.
pub normalize_wwn_first :
    (ts : List WwnType) (w v : Text) (t : WwnType)
    → normalize_wwn ts w ≡ ok (v, t)
    → (skipped : List WwnType) × (rest : List WwnType) × (ts ≡ skipped ++ t ∷ rest)
      × (none_fits skipped w ≡ true)
      × (v ≡ cleanse_wwn t w)
      × (wwn_test t v ≡ true)
unfolding normalize_wwn
normalize_wwn_first [] w v t h = cc
normalize_wwn_first (u ∷ ts) w v t h = elim (Bool-cases (wwn_test u (cleanse_wwn u w))) [
  | inl fits ↦
      let e : ◌≡◌ {A = Result (Text × WwnType)} (ok (cleanse_wwn u w, u)) (ok (v, t)) =
        rw fits at h in
      ([], ts, ground arith, refl, ground arith, ground arith)
  | inr other ↦
      let ih = normalize_wwn_first ts w v t (rw other at h) in
      (u ∷ ih.0, ih.1, ap (λ l. u ∷ l) ih.2, rw other ih.3, ih.4, ih.5)
]

-- The normalisation raises exactly where no type of the list fits.
pub normalize_wwn_fails_iff :
    (ts : List WwnType) (w : Text)
    → (normalize_wwn ts w ≡ err (rtslib_error "WWN not valid as")) ↔ (none_fits ts w ≡ true)
unfolding normalize_wwn
normalize_wwn_fails_iff [] w = ground arith
normalize_wwn_fails_iff (t ∷ ts) w = ground (arith, normalize_wwn_fails_iff ts w)

pub literal_split : (p s : Text) {r : Text} → literal p s ≡ some r → s ≡ p ++ r
unfolding literal
literal_split [] s h = ground arith
literal_split (c ∷ p) [] h = cc
literal_split (c ∷ p) (d ∷ s) {r} h = ground (arith, literal_split p s {r = r})

pub run_split :
    (n : ℕ) (class : ℕ → Bool) (s : Text) {r : Text}
    → run n class s ≡ some r
    → (d : Text) × (s ≡ d ++ r) × (length d ≡ n) × (all class d ≡ true)
unfolding run
run_split zero class s h = ([], ground arith, refl, refl)
run_split (suc n) class [] h = cc
run_split (suc n) class (c ∷ s) {r} h = elim (Bool-cases (class c)) [
  | inl fits ↦
      let ih = run_split n class s {r = r} (rw fits at h) in
      (c ∷ ih.0, ap (λ l. c ∷ l) ih.1, ap suc ih.2, rw fits ih.3)
  | inr other ↦ absurd (let e : ◌≡◌ {A = Option Text} none (some r) = rw other at h in cc)
]

-- A run over a text that has the length and the letters of the run leaves nothing.
pub run_exact :
    (n : ℕ) (class : ℕ → Bool) (d : Text)
    → length d ≡ n
    → all class d ≡ true
    → run n class d ≡ some []
unfolding run
run_exact zero class [] len fits = refl
run_exact zero class (c ∷ d) len fits = absurd (omega arith)
run_exact (suc n) class [] len fits = absurd (omega arith)
run_exact (suc n) class (c ∷ d) len fits = ground (arith, run_exact n class d)
