-- ===== src/Wwn/Tests.antt =====
-- Runs of `normalize_wwn` and `generate_wwn` (rtslib/utils.py) on concrete names.
use rtslib_fb.Prelude.{
  ◌≡◌, ◌↔◌, refl, true, List, [], ◌∷◌, ◌++◌, Text, codes, ok, err, rtslib_error,
}
use rtslib_fb.Wwn.{WwnType, naa, eui, ib, cleanse_wwn, wwn_test, normalize_wwn}
use rtslib_fb.Wwn.Normalize.{none_fits, normalize_wwn_first, normalize_wwn_fails_iff}
use rtslib_fb.Wwn.Shape.{IsCanonical}
use rtslib_fb.Wwn.Canonical.{normalize_wwn-IsCanonical, normalize_wwn_canonical, normalize_wwn_idem}
use rtslib_fb.Wwn.Generate.{Host, generate_wwn, normalize_wwn-generate_wwn}

-- A Fibre Channel name as `ls` of sysfs and as a user may write it.
abbrev typed : Text
typed = codes "0x5001405AB12CD34E"

abbrev normal : Text
normal = codes "naa.5001405ab12cd34e"

abbrev kinds : List WwnType
kinds = ib ∷ naa ∷ []

typed-normal : normalize_wwn kinds typed ≡ ok (normal, naa)
unfolding normalize_wwn cleanse_wwn wwn_test
typed-normal = refl

normalize_wwn_first_example :
    (skipped : List WwnType) × (rest : List WwnType) × (kinds ≡ skipped ++ naa ∷ rest)
    × (none_fits skipped typed ≡ true)
    × (normal ≡ cleanse_wwn naa typed)
    × (wwn_test naa normal ≡ true)
normalize_wwn_first_example = normalize_wwn_first kinds typed normal naa typed-normal

normalize_wwn_fails_iff_example :
    (normalize_wwn kinds (codes "naa.500140") ≡ err (rtslib_error "WWN not valid as"))
    ↔ (none_fits kinds (codes "naa.500140") ≡ true)
normalize_wwn_fails_iff_example = normalize_wwn_fails_iff kinds (codes "naa.500140")

normalize_wwn-IsCanonical_example : IsCanonical naa normal
normalize_wwn-IsCanonical_example =
    normalize_wwn-IsCanonical kinds typed normal naa typed-normal refl refl

normalize_wwn_idem_example : normalize_wwn (naa ∷ []) normal ≡ ok (normal, naa)
normalize_wwn_idem_example = normalize_wwn_idem kinds typed normal naa typed-normal refl refl

IsCanonical-eui : IsCanonical eui (codes "eui.001405abcdef0123")
IsCanonical-eui = record {
  first = b'0';
  digits = codes "01405abcdef0123";
  shape = refl;
  format = refl;
  count = refl;
  lower_hex = refl;
}

normalize_wwn_canonical_test :
    normalize_wwn (eui ∷ []) (codes "eui.001405abcdef0123") ≡ ok (codes "eui.001405abcdef0123", eui)
normalize_wwn_canonical_test =
    normalize_wwn_canonical eui (codes "eui.001405abcdef0123") refl IsCanonical-eui

abbrev host : Host
host = record { hostname = codes "store_1.example"; machine = codes "x86_64" }

abbrev hex : Text
hex = codes "0123456789abcdef0123456789abcdef"

generated : generate_wwn naa host hex ≡ ok (codes "naa.5001405789abcdef")
unfolding generate_wwn
generated = refl

normalize_wwn-generate_wwn_example :
    normalize_wwn (naa ∷ []) (codes "naa.5001405789abcdef") ≡ ok (codes "naa.5001405789abcdef", naa)
normalize_wwn-generate_wwn_example =
    normalize_wwn-generate_wwn naa host hex (codes "naa.5001405789abcdef") refl refl refl generated

-- A line break at the end passes the test, since `$` stands before it.
break_accepted :
    normalize_wwn (naa ∷ []) (codes "naa.5001405ab12cd34e:\n:")
    ≡ ok (codes "naa.5001405ab12cd34e\n", naa)
unfolding normalize_wwn cleanse_wwn wwn_test
break_accepted = refl
