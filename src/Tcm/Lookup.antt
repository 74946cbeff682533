-- ===== src/Tcm/Lookup.antt =====
-- `class StorageObject` of rtslib/tcm.py: its constructor, the objects that configFS holds, and the
pub mod Unchanged
-- methods that read one.
use rtslib_fb.Prelude.{
  ℕ, Bool, true, false, not, ◌&&◌, ◌||◌, Option, none, some, List, [], ◌∷◌, ◌++◌, has, Text, codes,
  text_eq, rsplit_once, int_of, strip, after, ℤ, pos, negsuc, py_int, Result, ok, err, rtslib_error,
  is_rtslib, value_error, key_error, if◌then◌else◌, ◌==◌,
}
use rtslib_fb.Cfs.{
  FsPath, Kernel, M, pure, raise, lift, get_world, ◌>>=◌, ◌>>◌, raise_if, try_except, any_exn,
  map_m, is_file, fread, fwrite,
}
use rtslib_fb.Node
use rtslib_fb.Node.{Mode, create, lookup, core_dir, create_in_cfs_ine, check_self}
use rtslib_fb.Tcm.Backstore
use rtslib_fb.Tcm.Backstore.{
  Plugin, pscsi, ramdisk, fileio, block, user, plugin_name, so_mapping, Backstore, so_dirs,
}

pub record StorageObject : Type 0 where
  pub name : Text
  pub backstore : Backstore
  pub path : FsPath

abbrev pub cls : StorageObject → Plugin
cls so = so.backstore.cls

-- A character that no name of a storage object may hold.
abbrev pub has_bad_char : Text → Bool
has_bad_char name = has b'/' name || has 32 name || has 9 name || has 10 name

-- `__eq__`
abbrev pub so_eq : StorageObject → StorageObject → Bool
so_eq a b = text_eq (plugin_name (cls a)) (plugin_name (cls b)) && text_eq a.name b.name

module _ ⦃k : Kernel⦄ where
  -- `StorageObject.__init__`; `self._backstore.plugin` checks that the backstore exists.
  unfoldable pub so_init : Text → Plugin → Mode → Option ℕ → M StorageObject
  so_init name c mode index = do
    raise_if (has_bad_char name)
        (rtslib_error "A storage object's name cannot contain  /, newline or spaces/tabs")
    b ← Backstore.init name c mode index
    check_self b.path
    let p = name ∷ b.path
    try_except (create_in_cfs_ine p mode) any_exn (λ e. do Backstore.delete b; raise e)
    pure (record { name = name; backstore = b; path = p })

  -- `so_from_path`, from the names of the object and of its HBA directory.
  unfoldable pub so_from_path : Text → Text → M StorageObject
  unfolding so_init so_mapping
  so_from_path hba name = elim (rsplit_once b'_' hba) [
    | none ↦ raise value_error
    | some (so_type, so_index) ↦ elim (so_mapping so_type) [
      | none ↦ raise key_error
      | some c ↦ elim (int_of so_index) [
        | none ↦ raise value_error
        | some i ↦ so_init name c lookup (some i)
      ]
    ]
  ]

  -- `StorageObject.all`
  unfoldable pub all : M (List StorageObject)
  unfolding so_dirs so_from_path
  all = do w ← get_world; map_m (so_dirs w.fs) (λ d. so_from_path d.0 d.1)

  -- A flag's text is an integer; an object without the file is always enabled.
  unfoldable pub int_flag : Text → Result Bool
  unfolding py_int
  int_flag s = elim (py_int s) [ none ↦ err value_error | some n ↦ ok (not (is_zero n)) ]
    where
      is_zero : ℤ → Bool
      is_zero (pos n) = n == 0
      is_zero (negsuc n) = false

  unfoldable pub is_configured : FsPath → M Bool
  unfolding int_flag
  is_configured p = do
    check_self p
    there ← is_file (codes "enable" ∷ p)
    if there then (do s ← fread (codes "enable" ∷ p); lift (int_flag s)) else pure true

  -- `_get_wwn`: what stands behind the first colon.
  unfoldable pub get_wwn : FsPath → M Text
  unfolding is_configured
  get_wwn p = do
    check_self p
    configured ← is_configured p
    if configured
        then (do s ← fread (codes "vpd_unit_serial" ∷ codes "wwn" ∷ p); pure (strip (after b':' s)))
        else raise
            (rtslib_error "Cannot read a T10 WWN Unit Serial from an unconfigured StorageObject")

  -- `_set_wwn`; for pscsi it does nothing.
  unfoldable pub set_wwn : Plugin → FsPath → Text → M (Unit {0})
  unfolding is_configured
  set_wwn pscsi p wwn = pure tt
  set_wwn c p wwn = do
    check_self p
    configured ← is_configured p
    if configured
        then fwrite (codes "vpd_unit_serial" ∷ codes "wwn" ∷ p) (wwn ++ 10 ∷ [])
        else raise
            (rtslib_error "Cannot write a T10 WWN Unit Serial to an unconfigured StorageObject")

  unfoldable pub set_udev_path : FsPath → Text → M (Unit {0})
  set_udev_path p udev_path = do check_self p; fwrite (codes "udev_path" ∷ p) udev_path

  unfoldable pub enable : FsPath → M (Unit {0})
  enable p = do check_self p; fwrite (codes "enable" ∷ p) (codes "1\n")

  unfoldable pub control : FsPath → Text → M (Unit {0})
  control p command = do check_self p; fwrite (codes "control" ∷ p) (strip command)

  -- `int(so.get_attribute("alua_support")) == 1`, of which only an RTSLibError is suppressed.
  alua_support_attr : FsPath → M Bool
  unfolding py_int
  alua_support_attr p =
      try_except
        (do
          s ← Node.get_attribute p (codes "alua_support")
          elim (py_int s) [
            | none ↦ raise value_error
            | some n ↦ pure (elim n [ pos m ↦ m == 1 | negsuc m ↦ false ])
          ])
        is_rtslib (λ e. pure false)

  -- `alua_supported`: the two pass-through classes ask the kernel.
  unfoldable pub alua_supported : Plugin → FsPath → M Bool
  unfolding alua_support_attr
  alua_supported pscsi p = do check_self p; alua_support_attr p
  alua_supported user p = do check_self p; alua_support_attr p
  alua_supported c p = do check_self p; pure true
