-- ===== src/Tcm/Create/Args.antt =====
-- The arguments of the storage object constructors of rtslib/tcm.py.
use rtslib_fb.Prelude.{
  Result, ok, err, round_div, float_of, ℕ, Bool, true, false, not, ◌||◌, Option, none, some, List,
  [], ◌∷◌, is_empty, keep, Text, split, Json, ◌==◌, if◌then◌else◌,
}
use rtslib_fb.Cfs.{FsPath}
use rtslib_fb.Tcm.Backstore.{Plugin, pscsi, ramdisk, fileio, block, user}

-- The keyword arguments of the constructors, as a saved configuration gives them: an absent one is
-- its default. `unexpected` stands for any other key.
pub record SoArgs : Type 0 where
  pub name : Text
  pub dev : Option Text
  pub size : Option ℕ
  pub wwn : Option Text
  pub nullio : Option Bool
  pub write_back : Option Bool
  pub aio : Option Bool
  pub readonly : Option Bool
  pub config : Option Text
  pub hw_max_sectors : Option Json
  pub control : Option Text
  pub unexpected : Bool

abbrev pub given : {A : Type 0} → Option A → Bool
given none = false
given (some a) = true

abbrev pub flag : Option Bool → Bool
flag none = false
flag (some b) = b

-- A keyword argument that the class's constructor does not take.
unfoldable pub has_unexpected : Plugin → SoArgs → Bool
has_unexpected pscsi a =
    a.unexpected
    || given a.size
    || given a.wwn
    || given a.nullio
    || given a.write_back
    || given a.aio
    || given a.readonly
    || given a.config
    || given a.hw_max_sectors
    || given a.control
has_unexpected ramdisk a =
    a.unexpected
    || given a.dev
    || given a.write_back
    || given a.aio
    || given a.readonly
    || given a.config
    || given a.hw_max_sectors
    || given a.control
has_unexpected fileio a =
    a.unexpected
    || given a.nullio
    || given a.readonly
    || given a.config
    || given a.hw_max_sectors
    || given a.control
has_unexpected block a =
    a.unexpected
    || given a.size
    || given a.nullio
    || given a.aio
    || given a.config
    || given a.hw_max_sectors
    || given a.control
has_unexpected user a =
    a.unexpected
    || given a.dev
    || given a.nullio
    || given a.write_back
    || given a.aio
    || given a.readonly

-- `round(float(size)/page)`, at least 1. The size of a page is a power of two, so that the division of
-- floats is exact.
unfoldable pub pages : ℕ → ℕ → Result ℕ
unfolding float_of
pages size page = elim (float_of size) [
  | err e ↦ err e
  | ok x ↦ (if round_div x page == 0 then ok 1 else ok (round_div x page))
]

-- The components of an absolute path.
unfoldable pub path_of : Text → FsPath
unfolding split
path_of s = onto [] (keep (λ c. not (is_empty c)) (split b'/' s))
  where
    onto : FsPath → List Text → FsPath
    onto p [] = p
    onto p (c ∷ cs) = onto (c ∷ p) cs

-- `if not wwn`
abbrev pub wanted_wwn : Option Text → Option Text
wanted_wwn none = none
wanted_wwn (some []) = none
wanted_wwn (some w) = some w
