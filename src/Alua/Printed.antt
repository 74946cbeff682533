-- ===== src/Alua/Printed.antt =====
-- The members of an ALUA group (rtslib/alua.py), from the text by which the kernel shows them.
use rtslib_fb.Prelude.{
  ◌≡◌, refl, ap, ◌∙◌, false, Option, none, some, List, [], ◌∷◌, ◌++◌, map, Text, codes, has, split,
  after, ℤ, int_text, py_int-int_text, has-int_text, Result, ok, err, value_error,
}
use rtslib_fb.Prelude.Split.{split_absent, split_found}
use rtslib_fb.Alua.{int_value}
use rtslib_fb.Alua.Members.{Member, number_behind, member_of, members_of}

-- "driver/target/tpgt_%d/lun_%d"
abbrev pub member_line : Member → Text
member_line m =
    m.driver
    ++ b'/'
      ∷ (m.target
          ++ b'/' ∷ ((codes "tpgt_" ++ int_text m.tpgt) ++ b'/' ∷ (codes "lun_" ++ int_text m.lun)))

-- Neither name has a slash.
abbrev pub IsPlain : Member → Type 0
IsPlain m = (has b'/' m.driver ≡ false) × (has b'/' m.target ≡ false)

abbrev pub AllPlain : List Member → Type 0
AllPlain [] = Unit
AllPlain (m ∷ ms) = IsPlain m × AllPlain ms

int_value-int_text : (n : ℤ) → int_value (int_text n) ≡ ok n
unfolding int_value
int_value-int_text n = ap from (py_int-int_text n)
  where
    from : Option ℤ → Result ℤ
    from o = elim o [ none ↦ err value_error | some n ↦ ok n ]

number_behind-tpgt : (n : ℤ) → number_behind (codes "tpgt_" ++ int_text n) ≡ ok n
unfolding number_behind after
number_behind-tpgt n = int_value-int_text n

number_behind-lun : (n : ℤ) → number_behind (codes "lun_" ++ int_text n) ≡ ok n
unfolding number_behind after
number_behind-lun n = int_value-int_text n

abbrev tpgt_part : Member → Text
tpgt_part m = codes "tpgt_" ++ int_text m.tpgt

abbrev lun_part : Member → Text
lun_part m = codes "lun_" ++ int_text m.lun

abbrev parts : Member → List Text
parts m = m.driver ∷ m.target ∷ tpgt_part m ∷ lun_part m ∷ []

split_two :
    (m : Member) → split b'/' (tpgt_part m ++ b'/' ∷ lun_part m) ≡ tpgt_part m ∷ lun_part m ∷ []
split_two m =
    split_found b'/' (tpgt_part m) (lun_part m) (has-int_text b'/' m.tpgt refl refl)
    ∙ ap (λ r. tpgt_part m ∷ r) (split_absent b'/' (lun_part m) (has-int_text b'/' m.lun refl refl))

split-member_line : (m : Member) → IsPlain m → split b'/' (member_line m) ≡ parts m
split-member_line m plain =
    split_found b'/' m.driver (m.target ++ b'/' ∷ (tpgt_part m ++ b'/' ∷ lun_part m)) plain.0
    ∙ ap (λ r. m.driver ∷ r)
        (split_found b'/' m.target (tpgt_part m ++ b'/' ∷ lun_part m) plain.1
          ∙ ap (λ r. m.target ∷ r) (split_two m))

member_of-parts : (m : Member) → member_of (parts m) ≡ ok (some m)
unfolding member_of
member_of-parts m =
    ap (λ r. with_tpgt r (number_behind (codes "lun_" ++ int_text m.lun)))
      (number_behind-tpgt m.tpgt)
    ∙ ap (λ r. with_tpgt (ok m.tpgt) r) (number_behind-lun m.lun)
  where
    with_tpgt : Result ℤ → Result ℤ → Result (Option Member)
    with_tpgt a b = elim a [
      | err e ↦ err e
      | ok i ↦ elim b [
        | err e ↦ err e
        | ok j ↦ ok (some (record { driver = m.driver; target = m.target; tpgt = i; lun = j }))
      ]
    ]

-- Whatever members the kernel shows, one to a line, are those that are read, in their order, where
-- no driver's and no target's name has a slash.
pub members_of-member_line :
    (ms : List Member) → AllPlain ms → members_of (map member_line ms) ≡ ok ms
unfolding members_of
members_of-member_line [] plain = refl
members_of-member_line (m ∷ ms) plain =
    ap (λ p. next (member_of p) (members_of (map member_line ms))) (split-member_line m plain.0)
    ∙ ap (λ r. next r (members_of (map member_line ms))) (member_of-parts m)
    ∙ ap (next (ok (some m))) (members_of-member_line ms plain.1)
  where
    next : Result (Option Member) → Result (List Member) → Result (List Member)
    next r rest = elim r [
      | err e ↦ err e
      | ok found ↦ elim rest [
        | err e ↦ err e
        | ok ms ↦ ok (elim found [ none ↦ ms | some m ↦ m ∷ ms ])
      ]
    ]
