-- ===== src/Tcm/InfoSearch.antt =====
-- What `_parse_info` of rtslib/tcm.py finds: the regular expression ".*KEY: ([^: ]+).*" against its
-- meaning.
use rtslib_fb.Prelude.{
  ℕ, ◌+◌, ◌≡◌, ◌≢◌, ◌≤◌, refl, ap, sym, subst, ◌∙◌, Bool, true, false, not, ◌&&◌, inl, inr,
  Bool-cases, Option-cases, Option, none, some, [], ◌∷◌, ◌++◌, is_empty, all, length, length-append,
  drop, Text, codes, starts_with, if◌then◌else◌, arith,
}
use rtslib_fb.Tcm.Delete.{is_value_char, value_here, search_info}

-- "KEY: "
abbrev pub label : Text → Text
label key = key ++ codes ": "

-- A text that no further character of a value begins.
abbrev pub stops : Text → Bool
stops [] = true
stops (c ∷ s) = not (is_value_char c)

-- A value: not empty, and its characters are those of the class.
abbrev pub IsValue : Text → Type 0
IsValue v = (is_empty v ≡ false) × (all is_value_char v ≡ true)

abbrev rest_of : Text → Text
rest_of [] = []
rest_of (c ∷ s) = let rest = rest_of s in if is_value_char c then rest else c ∷ s

value_here_lem :
    (s : Text)
    → (value_here s ++ rest_of s ≡ s)
      × (all is_value_char (value_here s) ≡ true)
      × (stops (rest_of s) ≡ true)
unfolding value_here
value_here_lem [] = (refl, refl, refl)
value_here_lem (c ∷ s) =
    let ih = value_here_lem s in
    elim (Bool-cases (is_value_char c)) [
      | inl in_class ↦ (rw in_class (ap (λ t. c ∷ t) ih.0), ground arith, ground arith)
      | inr out ↦ (rw out refl, ground arith, ground arith)
    ]

starts_with-drop : (p s : Text) → starts_with p s ≡ true → p ++ drop (length p) s ≡ s
starts_with-drop [] s h = refl
starts_with-drop (c ∷ p) [] h = cc
starts_with-drop (c ∷ p) (d ∷ s) h = ground (arith, starts_with-drop p s)

starts_with-append : (p s : Text) → starts_with p (p ++ s) ≡ true
starts_with-append [] s = refl
starts_with-append (c ∷ p) s = ground (arith, starts_with-append p s)

drop-append : (p s : Text) → drop (length p) (p ++ s) ≡ s
drop-append [] s = refl
drop-append (c ∷ p) s = drop-append p s

value_here-append : (v b : Text) → IsValue v → is_empty (value_here (v ++ b)) ≡ false
unfolding value_here
value_here-append [] b h = absurd (ground arith)
value_here-append (c ∷ v) b h = ground arith

-- The match at the beginning of a text.
abbrev value_of : Text → Text → Text
value_of key s = value_here (drop (length key + 2) s)

abbrev here : Text → Text → Option Text
here key s =
    if starts_with (label key) s && not (is_empty (value_of key s))
    then some (value_of key s)
    else none

abbrev first_of : Option Text → Option Text → Option Text
first_of later now = elim later [ some v ↦ some v | none ↦ now ]

search_info-cons :
    (key : Text) (c : ℕ) (s : Text)
    → search_info key (c ∷ s) ≡ first_of (search_info key s) (here key (c ∷ s))
unfolding search_info
search_info-cons key c s = refl

-- The text is a before the label, the value and the rest.
abbrev pub Stands : Text → Text → Text → Text → Text → Type 0
Stands key s a v b = (s ≡ a ++ (label key ++ (v ++ b))) × IsValue v × (stops b ≡ true)

length-label : (key : Text) → length (label key) ≡ length key + 2
length-label key = length-append key (codes ": ")

here_sound : (key s v : Text) → here key s ≡ some v → (b : Text) × Stands key s [] v b
here_sound key s v h =
    let begins : starts_with (label key) s ≡ true = ground arith in
    let some_value : is_empty (value_of key s) ≡ false = ground arith in
    let same : value_of key s ≡ v = ground arith in
    let parts = value_here_lem (drop (length key + 2) s) in
    let whole : label key ++ drop (length key + 2) s ≡ s =
      subst (λ n. label key ++ drop n s ≡ s) (length-label key)
        (starts_with-drop (label key) s begins) in
    subst (λ u. (b : Text) × Stands key s [] u b) same
      (
        rest_of (drop (length key + 2) s),
        (sym whole ∙ ap (λ t. label key ++ t) (sym parts.0), (some_value, parts.1), parts.2),
      )

here_complete :
    (key v b : Text) → IsValue v → (u : Text) × (here key (label key ++ (v ++ b)) ≡ some u)
here_complete key v b value =
    let begins = starts_with-append (label key) (v ++ b) in
    let behind : drop (length key + 2) (label key ++ (v ++ b)) ≡ v ++ b =
      subst (λ n. drop n (label key ++ (v ++ b)) ≡ v ++ b) (length-label key)
        (drop-append (label key) (v ++ b)) in
    let full : is_empty (value_of key (label key ++ (v ++ b))) ≡ false =
      ap (λ t. is_empty (value_here t)) behind ∙ value_here-append v b value in
    (value_of key (label key ++ (v ++ b)), rw (begins, full) refl)

search_info_sound :
    (key s v : Text) → search_info key s ≡ some v → (a : Text) × (b : Text) × Stands key s a v b
unfolding search_info
search_info_sound key [] v h = absurd (ground arith)
search_info_sound key (c ∷ s) v h = elim (Option-cases (search_info key s)) [
  | inl absent ↦
      let found : here key (c ∷ s) ≡ some v =
        sym (ap (λ o. first_of o (here key (c ∷ s))) absent) ∙ h in
      let (b, stands) = here_sound key (c ∷ s) v found in ([], b, stands)
  | inr (u, later) ↦
      let same : some u ≡ some v = sym (ap (λ o. first_of o (here key (c ∷ s))) later) ∙ h in
      let (a, b, stands) = search_info_sound key s v (later ∙ same) in
      (c ∷ a, b, (ap (λ t. c ∷ t) stands.0, stands.1, stands.2))
]

no_label : (key a t : Text) → [] ≢ a ++ (label key ++ t)
no_label [] [] t e = absurd (ground arith)
no_label (c ∷ key) [] t e = absurd (ground arith)
no_label key (c ∷ a) t e = absurd (ground arith)

-- Where the pattern of a key fits a text at all, with a value of one or more characters that are
-- neither a colon nor a space, the search finds one; the place that it finds is not before the given
-- one, so it is the last place; and the value that it finds stands there behind the key and goes on
-- as far as the class of its characters.
pub search_info_last :
    (key s a v b : Text)
    → s ≡ a ++ (label key ++ (v ++ b))
    → IsValue v
    → (u : Text) × (a' : Text) × (b' : Text) × (search_info key s ≡ some u)
      × (s ≡ a' ++ (label key ++ (u ++ b')))
      × (length a ≤ length a')
      × IsValue u
      × (stops b' ≡ true)
unfolding search_info
search_info_last key [] a v b fits value = absurd (no_label key a (v ++ b) fits)
search_info_last key (c ∷ s) (d ∷ a) v b fits value =
    let tail : s ≡ a ++ (label key ++ (v ++ b)) = ap (drop 1) fits in
    let (u, a', b', found, stands, far, good, end) = search_info_last key s a v b tail value in
    (
      u,
      c ∷ a',
      b',
      ap (λ o. first_of o (here key (c ∷ s))) found,
      ap (λ t. c ∷ t) stands,
      ground arith,
      good,
      end,
    )
search_info_last key (c ∷ s) [] v b fits value = elim (Option-cases (search_info key s)) [
  | inl absent ↦
      let (u, now) = here_complete key v b value in
      let found : here key (c ∷ s) ≡ some u = ap (here key) fits ∙ now in
      let (b', st) = here_sound key (c ∷ s) u found in
      (
        u,
        [],
        b',
        ap (λ o. first_of o (here key (c ∷ s))) absent ∙ found,
        st.0,
        ground arith,
        st.1,
        st.2,
      )
  | inr (u, later) ↦
      let (a', b', st) = search_info_sound key s u later in
      (
        u,
        c ∷ a',
        b',
        ap (λ o. first_of o (here key (c ∷ s))) later,
        ap (λ t. c ∷ t) st.0,
        ground arith,
        st.1,
        st.2,
      )
]
