-- ===== src/Tcm/Backstore/Names.antt =====
-- The names of the HBA directories (rtslib/tcm.py): what the cache and `so_from_path` make of them.
use rtslib_fb.Prelude.{
  ℕ, ◌≡◌, refl, ap, ◌∙◌, Option, none, some, ◌∷◌, ◌++◌, Text, has-decimal, decimal, int_of,
  rsplit_once, Result, ok, err, value_error,
}
use rtslib_fb.Prelude.Decimal.{int_of-decimal}
use rtslib_fb.Prelude.Split.{rsplit_found}
use rtslib_fb.Tcm.Cache.{Cache, put}
use rtslib_fb.Tcm.Backstore.{
  Plugin, pscsi, ramdisk, fileio, block, user, dir_prefix, lookup_key, so_mapping, cache_entry,
}

abbrev pub hba_name : Plugin → ℕ → Text
hba_name p i = dir_prefix p ++ b'_' ∷ decimal i

pub so_mapping-dir_prefix : (p : Plugin) → so_mapping (dir_prefix p) ≡ some p
unfolding so_mapping
so_mapping-dir_prefix pscsi = refl
so_mapping-dir_prefix ramdisk = refl
so_mapping-dir_prefix fileio = refl
so_mapping-dir_prefix block = refl
so_mapping-dir_prefix user = refl

-- The name of a backstore's directory splits at its last underscore into the directory prefix, which
-- names the class, and the index: so the cache gets the key by which the class's constructor looks
-- the backstore up.
pub cache_entry-hba_name :
    (p : Plugin) (i : ℕ) (name : Text) (c : Cache)
    → (cache_entry (hba_name p i, name) c ≡ ok (put (lookup_key p name) i c))
      × (rsplit_once b'_' (hba_name p i) ≡ some (dir_prefix p, decimal i))
      × (so_mapping (dir_prefix p) ≡ some p)
unfolding cache_entry
cache_entry-hba_name p i name c =
    let splits = rsplit_found b'_' (dir_prefix p) (decimal i) (has-decimal i b'_' refl) in
    (ap after_split splits ∙ ap after_index (int_of-decimal i), splits, so_mapping-dir_prefix p)
  where
    after_index : Option ℕ → Result Cache
    after_index o = elim o [ none ↦ err value_error | some n ↦ ok (put (lookup_key p name) n c) ]

    after_split : Option (Text × Text) → Result Cache
    after_split o = elim o [
      | none ↦ err value_error
      | some (dirp, n) ↦ elim (int_of n) [
        | none ↦ err value_error
        | some m ↦ ok (put (dirp ++ b'/' ∷ name) m c)
      ]
    ]
