-- ===== src/Wwn.antt =====
-- The World Wide Names of rtslib/utils.py: `generate_wwn`, `colonize`, `_cleanse_wwn` and
-- `normalize_wwn`, with the regular expressions as matchers.
pub mod Normalize
pub mod Shape
pub mod Canonical
pub mod Generate
mod Tests
use rtslib_fb.Prelude.{
  ℕ, zero, suc, ◌+◌, ◌-◌, Bool, true, false, not, ◌&&◌, ◌||◌, Option, none, some, List, [], ◌∷◌,
  ◌++◌, Text, codes, starts_with, has, strip, lower, without, before, drop, length, leb, ◌==◌,
  if◌then◌else◌, Result, ok, err, rtslib_error,
}
use rtslib_fb.Prelude.Decimal.{is_digit}

-- The keys of `wwn_test`.
pub data WwnType : Type 0 where
  free iqn naa eui ib unit_serial : WwnType

abbrev pub type_name : WwnType → Text
type_name free = codes "free"
type_name iqn = codes "iqn"
type_name naa = codes "naa"
type_name eui = codes "eui"
type_name ib = codes "ib"
type_name unit_serial = codes "unit_serial"

-- `string[i:i + 2] for i in range(0, len(string), 2)`
unfoldable pub pairs : Text → List Text
pairs [] = []
pairs (a ∷ []) = (a ∷ []) ∷ []
pairs (a ∷ b ∷ s) = (a ∷ b ∷ []) ∷ pairs s

-- `":".join(parts)`
unfoldable pub join_colon : List Text → Text
join_colon [] = []
join_colon (p ∷ []) = p
join_colon (p ∷ q ∷ ps) = p ++ (b':' ∷ join_colon (q ∷ ps))

unfoldable pub colonize : Text → Text
unfolding pairs join_colon
colonize s = join_colon (pairs s)

-- `s.removeprefix("0x")`
unfoldable pub remove_0x : Text → Text
remove_0x s = if starts_with (codes "0x") s then drop 2 s else s

abbrev pub has_wwn_prefix : Text → Bool
has_wwn_prefix s =
    starts_with (codes "naa.") s || starts_with (codes "eui.") s || starts_with (codes "ib.") s

-- The lines of `_cleanse_wwn` under `if wwn_type in ('naa', 'eui', 'ib')`.
unfoldable pub cleanse_hex : WwnType → Text → Text
unfolding remove_0x without
cleanse_hex t s =
    let bare = without b':' (without b'-' (remove_0x s)) in
    if has_wwn_prefix bare then bare else type_name t ++ b'.' ∷ bare

unfoldable pub cleanse_wwn : WwnType → Text → Text
unfolding cleanse_hex strip lower
cleanse_wwn naa w = cleanse_hex naa (lower (strip w))
cleanse_wwn eui w = cleanse_hex eui (lower (strip w))
cleanse_wwn ib w = cleanse_hex ib (lower (strip w))
cleanse_wwn t w = lower (strip w)

-- A regular expression's step: what is left of the text behind the match, or no match.
infixl 5 ◌>>=◌
abbrev pub ◌>>=◌ : Option Text → (Text → Option Text) → Option Text
none >>= f = none
some s >>= f = f s

-- A literal text.
unfoldable pub literal : Text → Text → Option Text
literal [] s = some s
literal (c ∷ p) [] = none
literal (c ∷ p) (d ∷ s) = let rest = literal p s in if c == d then rest else none

-- `[class]{n}`
unfoldable pub run : ℕ → (ℕ → Bool) → Text → Option Text
run zero class s = some s
run (suc n) class [] = none
run (suc n) class (c ∷ s) = let rest = run n class s in if class c then rest else none

-- `$`: the end, or a line break at the end.
unfoldable pub at_end : Text → Option Text
at_end [] = some []
at_end (c ∷ []) = if c == 10 then some [] else none
at_end (c ∷ d ∷ s) = none

-- `.*\..*` from here: a dot before any line break.
unfoldable pub dot_ahead : Text → Option Text
dot_ahead [] = none
dot_ahead (c ∷ s) =
    let rest = dot_ahead s in if c == b'.' then some s else if c == 10 then none else rest

abbrev pub is_lower_hex : ℕ → Bool
is_lower_hex c = is_digit c || (leb b'a' c && leb c b'f')

-- `[0-9a-fA-F]`
abbrev pub is_hex : ℕ → Bool
is_hex c = is_lower_hex c || (leb b'A' c && leb c b'F')

-- `[125c-fC-F]`
abbrev pub is_naa_format : ℕ → Bool
is_naa_format c =
    (c == b'1')
    || (c == b'2')
    || (c == b'5')
    || (leb b'c' c && leb c b'f')
    || (leb b'C' c && leb c b'F')

-- `[0-1]`
abbrev pub is_bit : ℕ → Bool
is_bit c = leb b'0' c && leb c b'1'

abbrev pub matched : Option Text → Bool
matched none = false
matched (some s) = true

unfoldable pub match_iqn : Text → Option Text
unfolding literal run dot_ahead
match_iqn w = do
  a ← literal (codes "iqn.") w
  b ← run 4 is_digit a
  c ← literal (codes "-") b
  d ← run 1 is_bit c
  e ← run 1 is_digit d
  f ← literal (codes ".") e
  dot_ahead f

unfoldable pub match_naa : Text → Option Text
unfolding literal run at_end
match_naa w = do
  a ← literal (codes "naa.") w
  b ← run 1 is_naa_format a
  c ← run 15 is_hex b
  at_end c

unfoldable pub match_eui : Text → Option Text
unfolding literal run at_end
match_eui w = do a ← literal (codes "eui.") w; b ← run 16 is_lower_hex a; at_end b

unfoldable pub match_ib : Text → Option Text
unfolding literal run at_end
match_ib w = do a ← literal (codes "ib.") w; b ← run 32 is_lower_hex a; at_end b

-- `-[0-9A-Fa-f]{4}`
unfoldable pub match_group : Text → Option Text
unfolding literal run
match_group w = do a ← literal (codes "-") w; run 4 is_hex a

unfoldable pub match_serial : Text → Option Text
unfolding match_group literal run at_end
match_serial w = do
  a ← run 8 is_hex w
  b ← match_group a
  c ← match_group b
  d ← match_group c
  e ← literal (codes "-") d
  f ← run 12 is_hex e
  at_end f

-- The dictionary `wwn_test`.
unfoldable pub wwn_test : WwnType → Text → Bool
unfolding match_iqn match_naa match_eui match_ib match_serial
wwn_test free w = true
wwn_test iqn w = matched (match_iqn w) && not (has b' ' w) && not (has b'_' w)
wwn_test naa w = matched (match_naa w)
wwn_test eui w = matched (match_eui w)
wwn_test ib w = matched (match_ib w)
wwn_test unit_serial w = matched (match_serial w)

-- The loop over `wwn_types` with its `else`.
unfoldable pub normalize_wwn : List WwnType → Text → Result (Text × WwnType)
unfolding cleanse_wwn wwn_test
normalize_wwn [] w = err (rtslib_error "WWN not valid as")
normalize_wwn (t ∷ ts) w =
    let rest = normalize_wwn ts w in
    if wwn_test t (cleanse_wwn t w) then ok (cleanse_wwn t w, t) else rest
