-- ===== src/Alua/Members.antt =====
-- The two properties of ALUATargetPortGroup (rtslib/alua.py) that have no setter.
use rtslib_fb.Prelude.{
  Option, none, some, List, [], ◌∷◌, has, Text, codes, split, after, lines_of, ℤ, Result, ok, err,
  index_error, if◌then◌else◌,
}
use rtslib_fb.Cfs.{FsPath, Kernel, M, lift, ◌>>=◌, ◌>>◌, fread}
use rtslib_fb.Node.{check_self}
use rtslib_fb.Alua.{int_value}

pub record Member : Type 0 where
  pub driver : Text
  pub target : Text
  pub tpgt : ℤ
  pub lun : ℤ

-- `int(part.split("_", 1)[1])`
unfoldable pub number_behind : Text → Result ℤ
unfolding after
number_behind part = if has b'_' part then int_value (after b'_' part) else err index_error

-- A line that has not four parts is passed over.
unfoldable pub member_of : List Text → Result (Option Member)
unfolding number_behind
member_of (driver ∷ target ∷ tpgt ∷ lun ∷ []) = elim (number_behind tpgt) [
  | err e ↦ err e
  | ok i ↦ elim (number_behind lun) [
    | err e ↦ err e
    | ok j ↦ ok (some (record { driver = driver; target = target; tpgt = i; lun = j }))
  ]
]
member_of parts = ok none

unfoldable pub members_of : List Text → Result (List Member)
unfolding member_of split
members_of [] = ok []
members_of (l ∷ ls) =
    let rest = members_of ls in
    elim (member_of (split b'/' l)) [
      | err e ↦ err e
      | ok found ↦ elim rest [
        | err e ↦ err e
        | ok ms ↦ ok (elim found [ none ↦ ms | some m ↦ m ∷ ms ])
      ]
    ]

module _ ⦃k : Kernel⦄ where
  -- `_get_members`
  unfoldable pub get_members : FsPath → M (List Member)
  unfolding members_of lines_of
  get_members p = do check_self p; s ← fread (codes "members" ∷ p); lift (members_of (lines_of s))

  -- `_get_alua_support_lba_dependent`
  unfoldable pub get_alua_support_lba_dependent : FsPath → M ℤ
  get_alua_support_lba_dependent p = do
    check_self p
    s ← fread (codes "alua_support_lba_dependent" ∷ p)
    lift (int_value s)
