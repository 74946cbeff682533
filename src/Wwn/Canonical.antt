-- ===== src/Wwn/Canonical.antt =====
-- What `normalize_wwn` of rtslib/utils.py makes of the names of hardware ports: their canonical form,
-- once and for all.
use rtslib_fb.Prelude.{
  ℕ, ◌≡◌, refl, subst, sym, true, false, List, [], ◌∷◌, ◌++◌, Text, codes, has, lower, without,
  length, all, ok, arith, rstrip,
}
use rtslib_fb.Wwn.{
  WwnType, naa, eui, ib, cleanse_wwn, is_lower_hex, is_hex, wwn_test, normalize_wwn,
}
use rtslib_fb.Wwn.Normalize.{normalize_wwn_first, run_exact}
use rtslib_fb.Wwn.Shape.{
  IsCanonical, first_digit, is_hardware, test-IsCanonical, all_plain-cleanse_wwn, hex_of_lower,
}

-- Whatever way a user writes a hardware name without a line break, with "0x", colons, dashes,
-- capitals or spaces around it, a result of the normalisation with a hardware type has that
-- type's canonical form.
pub normalize_wwn-IsCanonical :
    (ts : List WwnType) (w v : Text) (t : WwnType)
    → normalize_wwn ts w ≡ ok (v, t)
    → is_hardware t ≡ true
    → has 10 w ≡ false
    → IsCanonical t v
normalize_wwn-IsCanonical ts w v t h hw clean =
    let (skipped, rest, split, none_before, cleansed, fits) = normalize_wwn_first ts w v t h in
    test-IsCanonical t v hw fits (rw cleansed (all_plain-cleanse_wwn t w clean))

-- `strip`, `lower` and the two `replace` leave hexadecimal digits alone.
digits_fixed :
    (d : Text)
    → all is_lower_hex d ≡ true
    → (rstrip d ≡ d) × (lower d ≡ d) × (without b'-' d ≡ d) × (without b':' d ≡ d)
unfolding rstrip lower without
digits_fixed [] h = (refl, refl, refl, refl)
digits_fixed (c ∷ d) h = ground (arith, digits_fixed d)

cleanse_fixed :
    (d : Text)
    → all is_lower_hex d ≡ true
    → (cleanse_wwn naa (codes "naa." ++ d) ≡ codes "naa." ++ d)
      × (cleanse_wwn eui (codes "eui." ++ d) ≡ codes "eui." ++ d)
      × (cleanse_wwn ib (codes "ib." ++ d) ≡ codes "ib." ++ d)
unfolding cleanse_wwn
cleanse_fixed d h =
    let (r, l, m, c) = digits_fixed d h in
    (rw (r, l, m, c) refl, rw (r, l, m, c) refl, rw (r, l, m, c) refl)

test_naa :
    (x : ℕ) (d : Text)
    → first_digit naa x ≡ true
    → length d ≡ 15
    → all is_lower_hex d ≡ true
    → wwn_test naa (codes "naa." ++ x ∷ d) ≡ true
unfolding wwn_test
test_naa x d f len h = ground (arith, run_exact 15 is_hex d len (hex_of_lower d h))

test_eui :
    (d : Text) → length d ≡ 16 → all is_lower_hex d ≡ true → wwn_test eui (codes "eui." ++ d) ≡ true
unfolding wwn_test
test_eui d len h = rw (run_exact 16 is_lower_hex d len h)

test_ib :
    (d : Text) → length d ≡ 32 → all is_lower_hex d ≡ true → wwn_test ib (codes "ib." ++ d) ≡ true
unfolding wwn_test
test_ib d len h = rw (run_exact 32 is_lower_hex d len h)

normalize_of_test :
    (t : WwnType) (v : Text)
    → cleanse_wwn t v ≡ v
    → wwn_test t v ≡ true
    → normalize_wwn (t ∷ []) v ≡ ok (v, t)
unfolding normalize_wwn
normalize_of_test t v same fits = rw (same, fits)

-- A canonical text of a hardware type is its own normal form.
pub normalize_wwn_canonical :
    (t : WwnType) (v : Text)
    → is_hardware t ≡ true
    → IsCanonical t v
    → normalize_wwn (t ∷ []) v ≡ ok (v, t)
normalize_wwn_canonical naa v hw c =
    let lowers : all is_lower_hex (c.first ∷ c.digits) ≡ true =
      ground (arith, c.format, c.lower_hex) in
    subst (λ w. normalize_wwn (naa ∷ []) w ≡ ok (w, naa)) (sym c.shape)
      (normalize_of_test naa _ (cleanse_fixed (c.first ∷ c.digits) lowers).0
        (test_naa c.first c.digits c.format c.count c.lower_hex))
normalize_wwn_canonical eui v hw c =
    let lowers : all is_lower_hex (c.first ∷ c.digits) ≡ true =
      ground (arith, c.format, c.lower_hex) in
    subst (λ w. normalize_wwn (eui ∷ []) w ≡ ok (w, eui)) (sym c.shape)
      (normalize_of_test eui _ (cleanse_fixed (c.first ∷ c.digits) lowers).1
        (test_eui (c.first ∷ c.digits) (omega (arith, c.count)) lowers))
normalize_wwn_canonical ib v hw c =
    let lowers : all is_lower_hex (c.first ∷ c.digits) ≡ true =
      ground (arith, c.format, c.lower_hex) in
    subst (λ w. normalize_wwn (ib ∷ []) w ≡ ok (w, ib)) (sym c.shape)
      (normalize_of_test ib _ (cleanse_fixed (c.first ∷ c.digits) lowers).2
        (test_ib (c.first ∷ c.digits) (omega (arith, c.count)) lowers))
normalize_wwn_canonical _ v hw c = cc

-- Where a text without a line break is normalised to a hardware name, normalising that again as
-- the type that was found changes nothing.
pub normalize_wwn_idem :
    (ts : List WwnType) (w v : Text) (t : WwnType)
    → normalize_wwn ts w ≡ ok (v, t)
    → is_hardware t ≡ true
    → has 10 w ≡ false
    → normalize_wwn (t ∷ []) v ≡ ok (v, t)
normalize_wwn_idem ts w v t h hw clean =
    normalize_wwn_canonical t v hw (normalize_wwn-IsCanonical ts w v t h hw clean)
