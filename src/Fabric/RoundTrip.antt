-- ===== src/Fabric/RoundTrip.antt =====
-- The names of a fabric's targets in configFS read back as the names that rtslib made them from.
use rtslib_fb.Prelude.{
  ◌≡◌, refl, sym, ap, subst, ◌∙◌, Bool, true, false, Bool-cases, inl, inr, none, Option-cases, [],
  ◌∷◌, ◌++◌, Text, codes, has, strip, lower, without, has-without, drop, arith, Result, ok,
  if◌then◌else◌,
}
use rtslib_fb.Wwn.{
  WwnType, free, naa, eui, ib, type_name, has_wwn_prefix, remove_0x, cleanse_hex, cleanse_wwn,
  colonize, literal, matched, wwn_test, normalize_wwn,
}
use rtslib_fb.Wwn.Normalize.{literal_split}
use rtslib_fb.Fabric.{
  Fabric, srpt, qla2xxx, efct, sbp, tcm_fc, to_normalized_wwn, to_fabric_wwn, from_fabric_wwn,
}

-- Taking the colons out undoes `colonize`.
without-colonize : (s : Text) → has b':' s ≡ false → without b':' (colonize s) ≡ s
unfolding colonize without
without-colonize [] h = refl
without-colonize (a ∷ []) h = ground arith
without-colonize (a ∷ b ∷ []) h = ground arith
without-colonize (a ∷ b ∷ c ∷ []) h = ground arith
without-colonize (a ∷ b ∷ c ∷ d ∷ s) h = ground (arith, without-colonize (c ∷ d ∷ s))

has-cleanse_hex : (t : WwnType) (s : Text) → has b':' (cleanse_hex t s) ≡ false
unfolding cleanse_hex
has-cleanse_hex t s =
    by_prefix t (has_wwn_prefix (without b':' (without b'-' (remove_0x s)))) _
      (has-without b':' (without b'-' (remove_0x s)))
  where
    by_prefix :
        (u : WwnType) (b : Bool) (r : Text)
        → has b':' r ≡ false
        → has b':' (if b then r else type_name u ++ b'.' ∷ r) ≡ false
    by_prefix u true r h = h
    by_prefix free false r h = h
    by_prefix _ false r h = h

-- The result where one type is allowed.
normalize_single :
    (u t : WwnType) (w v : Text)
    → normalize_wwn (u ∷ []) w ≡ ok (v, t)
    → (v ≡ cleanse_wwn u w) × (wwn_test u v ≡ true)
unfolding normalize_wwn
normalize_single u t w v h = elim (Bool-cases (wwn_test u (cleanse_wwn u w))) [
  | inl fits ↦
      let e : ◌≡◌ {A = Result (Text × WwnType)} (ok (cleanse_wwn u w, u)) (ok (v, t)) =
        rw fits at h in
      (ground arith, ground arith)
  | inr other ↦ absurd (
      let e : ◌≡◌ {A = Result (Text × WwnType)} (normalize_wwn [] w) (ok (v, t)) = rw other at h in
      cc)
]

prefix_of_literal : (p v : Text) → matched (literal p v) ≡ true → (a : Text) × (v ≡ p ++ a)
prefix_of_literal p v h = elim (Option-cases (literal p v)) [
  | inl fails ↦ absurd (let e : matched none ≡ true = rw fails at h in cc)
  | inr (a, e) ↦ (a, literal_split p v e)
]

naa_prefix : (v : Text) → wwn_test naa v ≡ true → (a : Text) × (v ≡ codes "naa." ++ a)
naa_prefix v h = prefix_of_literal (codes "naa.") v (unfold wwn_test in ground arith)

eui_prefix : (v : Text) → wwn_test eui v ≡ true → (a : Text) × (v ≡ codes "eui." ++ a)
eui_prefix v h = prefix_of_literal (codes "eui.") v (unfold wwn_test in ground arith)

ib_prefix : (v : Text) → wwn_test ib v ≡ true → (a : Text) × (v ≡ codes "ib." ++ a)
ib_prefix v h = prefix_of_literal (codes "ib.") v (unfold wwn_test in ground arith)

colons_back :
    (w v : Text) (t : WwnType)
    → normalize_wwn (naa ∷ []) w ≡ ok (v, t)
    → codes "naa." ++ without b':' (colonize (drop 4 v)) ≡ v
unfolding cleanse_wwn
colons_back w v t h =
    let (cleansed, fits) = normalize_single naa t w v h in
    let (a, e) = naa_prefix v fits in
    let clean : has b':' (codes "naa." ++ a) ≡ false =
      sym (ap (has b':') e) ∙ ap (has b':') cleansed ∙ has-cleanse_hex naa (lower (strip w)) in
    subst (λ x. codes "naa." ++ without b':' (colonize (drop 4 x)) ≡ x) (sym e)
      (ap (λ l. codes "naa." ++ l) (without-colonize a (ground arith)))

eui_back :
    (w v : Text) (t : WwnType)
    → normalize_wwn (eui ∷ []) w ≡ ok (v, t)
    → codes "eui." ++ drop 4 v ≡ v
eui_back w v t h =
    let (a, e) = eui_prefix v (normalize_single eui t w v h).1 in
    subst (λ x. codes "eui." ++ drop 4 x ≡ x) (sym e) refl

ib_back :
    (w v : Text) (t : WwnType)
    → normalize_wwn (ib ∷ []) w ≡ ok (v, t)
    → codes "ib." ++ drop 2 (codes "0x" ++ drop 3 v) ≡ v
ib_back w v t h =
    let (a, e) = ib_prefix v (normalize_single ib t w v h).1 in
    subst (λ x. codes "ib." ++ drop 2 (codes "0x" ++ drop 3 x) ≡ x) (sym e) refl

-- For every fabric: a WWN that it accepts, in the form that is given to the kernel and read back
-- from configFS, is the same WWN.
pub from_fabric_wwn-to_fabric_wwn :
    (f : Fabric) (w v : Text) (t : WwnType)
    → to_normalized_wwn f w ≡ ok (v, t)
    → from_fabric_wwn f (to_fabric_wwn f v) ≡ v
unfolding to_normalized_wwn to_fabric_wwn from_fabric_wwn
from_fabric_wwn-to_fabric_wwn sbp w v t h = eui_back w v t h
from_fabric_wwn-to_fabric_wwn qla2xxx w v t h = colons_back w v t h
from_fabric_wwn-to_fabric_wwn efct w v t h = colons_back w v t h
from_fabric_wwn-to_fabric_wwn srpt w v t h = ib_back w v t h
from_fabric_wwn-to_fabric_wwn tcm_fc w v t h = colons_back w v t h
from_fabric_wwn-to_fabric_wwn _ w v t h = refl
