-- ===== src/Tcm/Backstore.antt =====
-- `class _Backstore` of rtslib/tcm.py: the HBA directory that stands for one storage object.
pub mod Unchanged
pub mod Allocation
pub mod Injective
pub mod Names
pub mod Deletion
pub mod Outcome
pub mod Liveness
pub mod Refines
use rtslib_fb.Prelude.{
  ℕ, Bool, true, false, ◌&&◌, Option, none, some, List, [], ◌∷◌, ◌++◌, is_empty, keep, has, Text,
  codes, text_eq, rsplit_once, decimal, int_of, Exn, Result, ok, err, rtslib_error, not_in_cfs,
  value_error, key_error, if◌then◌else◌,
}
use rtslib_fb.Prelude.Free.{first_free}
use rtslib_fb.Cfs.{
  FsPath, Fs, Kernel, World, M, pure, raise, lift, ◌>>=◌, ◌>>◌, raise_if, when, try_except, any_exn,
  for_each, get_world, set_cache, children, is_dir_in,
}
use rtslib_fb.Node
use rtslib_fb.Node.{Mode, any, lookup, create, invalid, core_dir, create_in_cfs_ine}
use rtslib_fb.Tcm.Cache.{Cache, get, put, remove, indexes}

-- The storage object classes; `bs_params` gives each its plugin name and directory prefix.
pub data Plugin : Type 0 where
  pscsi ramdisk fileio block user : Plugin

abbrev pub plugin_name : Plugin → Text
plugin_name pscsi = codes "pscsi"
plugin_name ramdisk = codes "ramdisk"
plugin_name fileio = codes "fileio"
plugin_name block = codes "block"
plugin_name user = codes "user"

abbrev pub dir_prefix : Plugin → Text
dir_prefix ramdisk = codes "rd_mcp"
dir_prefix block = codes "iblock"
dir_prefix c = plugin_name c

-- `so_mapping[name]`
unfoldable pub so_mapping : Text → Option Plugin
so_mapping n =
    if text_eq n (codes "pscsi")
    then some pscsi
    else if text_eq n (codes "rd_mcp")
    then some ramdisk
    else if text_eq n (codes "ramdisk")
    then some ramdisk
    else if text_eq n (codes "fileio")
    then some fileio
    else if text_eq n (codes "iblock")
    then some block
    else if text_eq n (codes "block")
    then some block
    else if text_eq n (codes "user")
    then some user
    else none

-- f"{dirp}/{name}"
abbrev pub lookup_key : Plugin → Text → Text
lookup_key c name = dir_prefix c ++ b'/' ∷ name

-- The attributes of the object.
pub record Backstore : Type 0 where
  pub cls : Plugin
  pub index : ℕ
  pub key : Text
  pub path : FsPath

-- f"{dirp}_{index}" below `core`
abbrev pub backstore_path : Plugin → ℕ → FsPath
backstore_path c i = (dir_prefix c ++ b'_' ∷ decimal i) ∷ core_dir

-- The directories `core/*_*/*/`, as the pairs of the two last components.
unfoldable pub so_dirs : Fs → List (Text × Text)
so_dirs fs = hbas (children core_dir fs)
  where
    objects : Text → List Text → List (Text × Text)
    objects hba [] = []
    objects hba (n ∷ ns) =
        let rest = objects hba ns in
        if is_dir_in (n ∷ hba ∷ core_dir) fs then (hba, n) ∷ rest else rest

    hbas : List Text → List (Text × Text)
    hbas [] = []
    hbas (h ∷ hs) =
        let rest = hbas hs in
        if has b'_' h then objects h (children (h ∷ core_dir) fs) ++ rest else rest

-- One round of the loop that fills the cache.
unfoldable pub cache_entry : Text × Text → Cache → Result Cache
cache_entry (hba, bs_name) c = elim (rsplit_once b'_' hba) [
  | none ↦ err value_error
  | some (dirp, i) ↦ elim (int_of i) [
    | none ↦ err value_error
    | some n ↦ ok (put (dirp ++ b'/' ∷ bs_name) n c)
  ]
]

-- `range(1048576)`
abbrev pub max_backstores : ℕ
max_backstores = 1048576

module _ ⦃k : Kernel⦄ where
  unfoldable pub fill_cache : M (Unit {0})
  unfolding so_dirs cache_entry
  fill_cache = do
    w ← get_world
    for_each (so_dirs w.fs)
        (λ d. do w' ← get_world; c ← lift (cache_entry d w'.bs_cache); set_cache c)

  -- `create` refuses a name that the cache holds.
  pub new_or_known : Mode → Option ℕ → M (Option ℕ)
  new_or_known create (some i) = raise (rtslib_error "Storage object exists")
  new_or_known mode i = pure i

  -- The index that the caller gives, or that of the cache, which is filled if it is empty.
  pub known_index : Plugin → Text → Mode → Option ℕ → M (Option ℕ)
  unfolding fill_cache new_or_known
  known_index c name mode (some i) = pure (some i)
  known_index c name mode none = do
    w ← get_world
    when (is_empty w.bs_cache) fill_cache
    w' ← get_world
    new_or_known mode (get (lookup_key c name) w'.bs_cache)

  -- The search for a new index, which is what runs while the lock is held. The lock file is not
  -- modelled: neither that it and /var/run are made before, nor the OSErrors of that, nor the exclusion
  -- of other processes.
  unfoldable pub take_index : Plugin → Text → Option ℕ → M ℕ
  take_index c name none w = (err (rtslib_error "No available backstore index"), w)
  take_index c name (some i) w =
      (ok i, record w { bs_cache = put (lookup_key c name) i w.bs_cache })

  unfoldable pub allocate_index : Plugin → Text → M ℕ
  unfolding take_index
  allocate_index c name w = take_index c name (first_free max_backstores 0 (indexes w.bs_cache)) w

  choose_index : Plugin → Text → Mode → Option ℕ → M ℕ
  unfolding allocate_index
  choose_index c name mode (some i) = pure i
  choose_index c name lookup none = raise not_in_cfs
  choose_index c name mode none = allocate_index c name

  forget : Text → M (Unit {0})
  forget key w = (ok tt, record w { bs_cache = remove key w.bs_cache })

  -- `__init__` behind the choice of the index.
  init_at : Text → Plugin → Mode → ℕ → M Backstore
  unfolding forget
  init_at name c mode i = do
    let p = backstore_path c i
    try_except (create_in_cfs_ine p mode) any_exn (λ e. do forget (lookup_key c name); raise e)
    pure (record { cls = c; index = i; key = lookup_key c name; path = p })

  init_with : Text → Plugin → Mode → Option ℕ → M Backstore
  unfolding choose_index init_at
  init_with name c mode known = do i ← choose_index c name mode known; init_at name c mode i

  -- `__init__`
  unfoldable pub init : Text → Plugin → Mode → Option ℕ → M Backstore
  unfolding known_index init_with
  init name c mode index = do known ← known_index c name mode index; init_with name c mode known

  -- `delete`
  unfoldable pub delete : Backstore → M (Unit {0})
  unfolding forget
  delete b = do Node.delete b.path; forget b.key
