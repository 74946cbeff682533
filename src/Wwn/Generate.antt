-- ===== src/Wwn/Generate.antt =====
-- `generate_wwn` of rtslib/utils.py. What it takes from outside is an argument: the 32 hexadecimal
-- digits of `uuid.uuid4()`, the host's name and its machine type.
use rtslib_fb.Prelude.{
  ℕ, zero, suc, ◌-◌, ◌≡◌, refl, Bool, true, [], ◌∷◌, ◌++◌, Text, codes, strip, lower, without,
  before, length, take, drop, all, arith, Result, ok, err, value_error,
}
use rtslib_fb.Wwn.{WwnType, free, iqn, naa, eui, ib, unit_serial, is_lower_hex, normalize_wwn}
use rtslib_fb.Wwn.Shape.{IsCanonical, is_hardware}
use rtslib_fb.Wwn.Canonical.{normalize_wwn_canonical}

pub record Host : Type 0 where
  pub hostname : Text
  pub machine : Text

-- `str(uuid)`: the digits in groups of 8, 4, 4, 4 and 12.
unfoldable pub uuid_text : Text → Text
uuid_text hex =
    take 8 hex
    ++ b'-' ∷ take 4 (drop 8 hex)
    ++ b'-' ∷ take 4 (drop 12 hex)
    ++ b'-' ∷ take 4 (drop 16 hex)
    ++ b'-' ∷ drop 20 hex

-- `s[-n:]`
unfoldable pub last : ℕ → Text → Text
last n s = drop (length s - n) s

-- `socket.gethostname().split(".")[0].replace("_", "")` and the lines below it.
unfoldable pub iqn_prefix : Host → Text
unfolding without before strip lower
iqn_prefix h = lower (
    strip (
      codes "iqn.2003-01.org.linux-iscsi."
      ++ without b'_' (before b'.' h.hostname)
      ++ b'.' ∷ without b'_' h.machine))

-- The type is one of the keys that the program passes; `ib` has no branch, so it is refused.
unfoldable pub generate_wwn : WwnType → Host → Text → Result Text
unfolding uuid_text last iqn_prefix
generate_wwn free h hex = ok (uuid_text hex)
generate_wwn unit_serial h hex = ok (uuid_text hex)
generate_wwn iqn h hex = ok (iqn_prefix h ++ codes ":sn." ++ drop 24 (uuid_text hex))
generate_wwn naa h hex = ok (codes "naa.5001405" ++ last 9 hex)
generate_wwn eui h hex = ok (codes "eui.001405" ++ last 10 hex)
generate_wwn ib h hex = err value_error

all-drop : (test : ℕ → Bool) (n : ℕ) (s : Text) → all test s ≡ true → all test (drop n s) ≡ true
all-drop test zero s h = h
all-drop test (suc n) [] h = h
all-drop test (suc n) (c ∷ s) h = all-drop test n s (ground arith)

length-drop : (n : ℕ) (s : Text) → length (drop n s) ≡ length s - n
length-drop zero s = omega arith
length-drop (suc n) [] = omega arith
length-drop (suc n) (c ∷ s) = omega (arith, length-drop n s)

naa_generated :
    (h : Host) (hex v : Text)
    → length hex ≡ 32
    → all is_lower_hex hex ≡ true
    → generate_wwn naa h hex ≡ ok v
    → IsCanonical naa v
unfolding generate_wwn
naa_generated h hex v len digits e = record {
  first = b'5';
  digits = codes "001405" ++ last 9 hex;
  shape = ground arith;
  format = refl;
  count = omega (arith, length-drop (length hex - 9) hex);
  lower_hex = all-drop is_lower_hex (length hex - 9) hex digits;
}

eui_generated :
    (h : Host) (hex v : Text)
    → length hex ≡ 32
    → all is_lower_hex hex ≡ true
    → generate_wwn eui h hex ≡ ok v
    → IsCanonical eui v
unfolding generate_wwn
eui_generated h hex v len digits e = record {
  first = b'0';
  digits = codes "01405" ++ last 10 hex;
  shape = ground arith;
  format = refl;
  count = omega (arith, length-drop (length hex - 10) hex);
  lower_hex = all-drop is_lower_hex (length hex - 10) hex digits;
}

-- A generated hardware name is valid and already in the form that the normalisation gives: for
-- each hardware type, from the 32 lower-case digits of a UUID.
pub normalize_wwn-generate_wwn :
    (t : WwnType) (h : Host) (hex v : Text)
    → is_hardware t ≡ true
    → length hex ≡ 32
    → all is_lower_hex hex ≡ true
    → generate_wwn t h hex ≡ ok v
    → normalize_wwn (t ∷ []) v ≡ ok (v, t)
unfolding generate_wwn
normalize_wwn-generate_wwn naa h hex v hw len digits e =
    normalize_wwn_canonical naa v hw (naa_generated h hex v len digits e)
normalize_wwn-generate_wwn eui h hex v hw len digits e =
    normalize_wwn_canonical eui v hw (eui_generated h hex v len digits e)
normalize_wwn-generate_wwn ib h hex v hw len digits e = cc
normalize_wwn-generate_wwn _ h hex v hw len digits e = cc
