-- ===== src/Wwn/Shape.antt =====
-- The canonical form of the names of hardware ports (rtslib/utils.py), and that a name which passes
-- its type's test after the cleansing has it.
use rtslib_fb.Prelude.{
  ℕ, suc, ◌≡◌, refl, ap, ◌∙◌, sym, Bool, true, false, not, ◌&&◌, Option, none, some, [], ◌∷◌, ◌++◌,
  Text, codes, has, strip, lower, without, length, all, all-append, leb, ◌==◌, if◌then◌else◌, arith,
  lstrip, rstrip,
}
use rtslib_fb.Wwn.{
  WwnType, free, naa, eui, ib, type_name, remove_0x, cleanse_hex, cleanse_wwn, has_wwn_prefix,
  ◌>>=◌, literal, run, at_end, is_lower_hex, is_hex, is_naa_format, matched, match_naa, match_eui,
  match_ib, wwn_test,
}
use rtslib_fb.Wwn.Normalize.{literal_split, run_split}

abbrev pub first_digit : WwnType → ℕ → Bool
first_digit naa c = is_lower_hex c && is_naa_format c
first_digit t c = is_lower_hex c

-- The number of digits behind the first.
abbrev pub more_digits : WwnType → ℕ
more_digits ib = 31
more_digits t = 15

abbrev pub is_hardware : WwnType → Bool
is_hardware naa = true
is_hardware eui = true
is_hardware ib = true
is_hardware t = false

pub record IsCanonical (t : WwnType) (v : Text) : Type 0 where
  pub first : ℕ
  pub digits : Text
  pub shape : v ≡ type_name t ++ b'.' ∷ first ∷ digits
  pub format : first_digit t first ≡ true
  pub count : length digits ≡ more_digits t
  pub lower_hex : all is_lower_hex digits ≡ true

-- Neither a line break nor an upper-case letter.
abbrev pub is_plain : ℕ → Bool
is_plain c = not (c == 10) && not (leb b'A' c && leb c b'Z')

all_plain-lower : (s : Text) → has 10 s ≡ false → all is_plain (lower s) ≡ true
unfolding lower
all_plain-lower [] h = refl
all_plain-lower (c ∷ s) h = ground (arith, all_plain-lower s)

has-lstrip : (c : ℕ) (s : Text) → has c s ≡ false → has c (lstrip s) ≡ false
unfolding lstrip
has-lstrip c [] h = refl
has-lstrip c (d ∷ s) h = ground (arith, has-lstrip c s)

has-rstrip : (c : ℕ) (s : Text) → has c s ≡ false → has c (rstrip s) ≡ false
unfolding rstrip
has-rstrip c [] h = refl
has-rstrip c (d ∷ s) h = ground (arith, has-rstrip c s)

all-without :
    (test : ℕ → Bool) (c : ℕ) (s : Text) → all test s ≡ true → all test (without c s) ≡ true
unfolding without
all-without test c [] h = refl
all-without test c (d ∷ s) h = ground (arith, all-without test c s)

all-remove_0x : (test : ℕ → Bool) (s : Text) → all test s ≡ true → all test (remove_0x s) ≡ true
unfolding remove_0x
all-remove_0x test [] h = refl
all-remove_0x test (c ∷ []) h = ground arith
all-remove_0x test (c ∷ d ∷ s) h = ground arith

all_plain-prefix :
    (b : Bool) (t : WwnType) (r : Text)
    → all is_plain r ≡ true
    → all is_plain (if b then r else type_name t ++ b'.' ∷ r) ≡ true
all_plain-prefix true t r h = h
all_plain-prefix false free r h = h
all_plain-prefix false _ r h = h

all_plain-cleanse_hex :
    (t : WwnType) (s : Text) → all is_plain s ≡ true → all is_plain (cleanse_hex t s) ≡ true
unfolding cleanse_hex
all_plain-cleanse_hex t s h =
    all_plain-prefix (has_wwn_prefix (without b':' (without b'-' (remove_0x s)))) t _ (
      all-without is_plain b':' (without b'-' (remove_0x s))
        (all-without is_plain b'-' (remove_0x s) (all-remove_0x is_plain s h)))

pub all_plain-cleanse_wwn :
    (t : WwnType) (w : Text) → has 10 w ≡ false → all is_plain (cleanse_wwn t w) ≡ true
unfolding cleanse_wwn
all_plain-cleanse_wwn t w h = by_type t
  where
    plain : all is_plain (lower (strip w)) ≡ true
    plain = all_plain-lower (strip w) (has-rstrip 10 (lstrip w) (has-lstrip 10 w h))

    by_type : (u : WwnType) → all is_plain (cleanse_wwn u w) ≡ true
    by_type naa = all_plain-cleanse_hex naa (lower (strip w)) plain
    by_type eui = all_plain-cleanse_hex eui (lower (strip w)) plain
    by_type ib = all_plain-cleanse_hex ib (lower (strip w)) plain
    by_type _ = plain

bind_some :
    (m : Option Text) (f : Text → Option Text) {r : Text}
    → (m >>= f) ≡ some r
    → (a : Text) × (m ≡ some a) × (f a ≡ some r)
bind_some none f h = cc
bind_some (some a) f h = (a, refl, h)

lower_hex_of_plain :
    (d : Text) → all is_hex d ≡ true → all is_plain d ≡ true → all is_lower_hex d ≡ true
lower_hex_of_plain [] h p = refl
lower_hex_of_plain (c ∷ d) h p = ground (arith, lower_hex_of_plain d)

pub hex_of_lower : (d : Text) → all is_lower_hex d ≡ true → all is_hex d ≡ true
hex_of_lower [] h = refl
hex_of_lower (c ∷ d) h = ground (arith, hex_of_lower d)

nil_of_at_end : (s : Text) {r : Text} → at_end s ≡ some r → all is_plain s ≡ true → s ≡ []
unfolding at_end
nil_of_at_end [] h p = refl
nil_of_at_end (c ∷ []) h p = ground arith
nil_of_at_end (c ∷ d ∷ s) h p = cc

append_nil : (s : Text) → s ++ [] ≡ s
append_nil [] = refl
append_nil (c ∷ s) = ap (λ l. c ∷ l) (append_nil s)

-- A run of digits up to the end of a plain text.
run_to_end :
    (n : ℕ) (class : ℕ → Bool) (s : Text) {r : Text}
    → (run n class s >>= at_end) ≡ some r
    → all is_plain s ≡ true
    → (length s ≡ n) × (all class s ≡ true)
run_to_end n class s h p =
    let (c, ran, ended) = bind_some (run n class s) at_end h in
    let (d, e, len, fits) = run_split n class s ran in
    let plain : all is_plain (d ++ c) ≡ true = rw (← e) p in
    let both : (all is_plain d && all is_plain c) ≡ true = sym (all-append is_plain d c) ∙ plain in
    let stop : c ≡ [] = nil_of_at_end c ended (ground arith) in
    let whole : s ≡ d = e ∙ ap (λ l. d ++ l) stop ∙ append_nil d in
    (ap length whole ∙ len, ap (all class) whole ∙ fits)

naa_parts :
    (v a d b : Text)
    → v ≡ codes "naa." ++ a
    → a ≡ d ++ b
    → length d ≡ 1
    → all is_naa_format d ≡ true
    → all is_plain v ≡ true
    → (all is_plain b ≡ true → (length b ≡ 15) × (all is_hex b ≡ true))
    → IsCanonical naa v
naa_parts v a [] b lit split one fits p tail = absurd (omega arith)
naa_parts v a (x ∷ y ∷ d) b lit split one fits p tail = absurd (omega arith)
naa_parts v a (x ∷ []) b lit split one fits p tail =
    let whole : v ≡ codes "naa." ++ x ∷ b = lit ∙ ap (λ l. codes "naa." ++ l) split in
    let plain : all is_plain (codes "naa." ++ x ∷ b) ≡ true = sym (ap (all is_plain) whole) ∙ p in
    let end = tail (ground arith) in
    record {
      first = x;
      digits = b;
      shape = whole;
      format = ground arith;
      count = end.0;
      lower_hex = lower_hex_of_plain b end.1 (ground arith);
    }

is_some_of_matched : (m : Option Text) → matched m ≡ true → (r : Text) × (m ≡ some r)
is_some_of_matched none h = cc
is_some_of_matched (some r) h = (r, refl)

naa-IsCanonical :
    (v : Text) → matched (match_naa v) ≡ true → all is_plain v ≡ true → IsCanonical naa v
unfolding match_naa
naa-IsCanonical v h p =
    let (r, e) = is_some_of_matched (match_naa v) h in
    let (a, lit, e₁) = bind_some (literal (codes "naa.") v) _ e in
    let (b, one, e₂) = bind_some (run 1 is_naa_format a) _ e₁ in
    let (d, split, len, fits) = run_split 1 is_naa_format a one in
    naa_parts v a d b (literal_split (codes "naa.") v lit) split len fits p
      (run_to_end 15 is_hex b e₂)

lower_parts :
    (t : WwnType) (p v a : Text)
    → v ≡ p ++ a
    → ((x : ℕ) (b : Text) → p ++ x ∷ b ≡ type_name t ++ b'.' ∷ x ∷ b)
    → length a ≡ suc (more_digits t)
    → all is_lower_hex a ≡ true
    → ((x : ℕ) → is_lower_hex x ≡ true → first_digit t x ≡ true)
    → IsCanonical t v
lower_parts t p v [] lit dot len fits first = absurd (omega arith)
lower_parts t p v (x ∷ b) lit dot len fits first = record {
  first = x;
  digits = b;
  shape = lit ∙ dot x b;
  format = first x (ground arith);
  count = omega arith;
  lower_hex = ground arith;
}

all_plain_end : (p a : Text) → all is_plain (p ++ a) ≡ true → all is_plain a ≡ true
all_plain_end p a h = ground (arith, all-append is_plain p a)

eui-IsCanonical :
    (v : Text) → matched (match_eui v) ≡ true → all is_plain v ≡ true → IsCanonical eui v
unfolding match_eui
eui-IsCanonical v h p =
    let (r, e) = is_some_of_matched (match_eui v) h in
    let (a, lit, e₁) = bind_some (literal (codes "eui.") v) _ e in
    let split = literal_split (codes "eui.") v lit in
    let end =
      run_to_end 16 is_lower_hex a e₁
        (all_plain_end (codes "eui.") a (sym (ap (all is_plain) split) ∙ p)) in
    lower_parts eui (codes "eui.") v a split (λ x b. refl) end.0 end.1 (λ x f. f)

ib-IsCanonical : (v : Text) → matched (match_ib v) ≡ true → all is_plain v ≡ true → IsCanonical ib v
unfolding match_ib
ib-IsCanonical v h p =
    let (r, e) = is_some_of_matched (match_ib v) h in
    let (a, lit, e₁) = bind_some (literal (codes "ib.") v) _ e in
    let split = literal_split (codes "ib.") v lit in
    let end =
      run_to_end 32 is_lower_hex a e₁
        (all_plain_end (codes "ib.") a (sym (ap (all is_plain) split) ∙ p)) in
    lower_parts ib (codes "ib.") v a split (λ x b. refl) end.0 end.1 (λ x f. f)

pub test-IsCanonical :
    (t : WwnType) (v : Text)
    → is_hardware t ≡ true
    → wwn_test t v ≡ true
    → all is_plain v ≡ true
    → IsCanonical t v
unfolding wwn_test
test-IsCanonical naa v hw h p = naa-IsCanonical v h p
test-IsCanonical eui v hw h p = eui-IsCanonical v h p
test-IsCanonical ib v hw h p = ib-IsCanonical v h p
test-IsCanonical _ v hw h p = cc
