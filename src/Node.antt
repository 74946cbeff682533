-- ===== src/Node.antt =====
-- `class CFSNode` of rtslib/node.py: an object that stands for a directory of configFS. A method
-- takes the object's path, `self._path`.
mod Sorted
pub mod Create
pub mod Attributes
mod Tests
use Sorted.{sort}
use rtslib_fb.Prelude.{
  ℕ, Bool, true, false, not, ◌&&◌, Option, none, some, List, [], ◌∷◌, ◌++◌, is_empty, keep, Text,
  codes, String, ℤ, py_int, Exn, rtslib_error, not_in_cfs, os_error, ok, err, if◌then◌else◌,
}
use rtslib_fb.Cfs.{
  FsPath, path_eq, parent, Fs, Entry, dir, file, link, entry, is_dir_in, Kernel, World, M, pure,
  raise, ◌>>=◌, ◌>>◌, when, raise_if, try_except, any_exn, map_m, is_dir, is_file, listdir, fread,
  fwrite, mkdir, rmdir,
}

-- `configfs_dir`
abbrev pub configfs_dir : FsPath
configfs_dir = codes "target" ∷ codes "config" ∷ codes "kernel" ∷ codes "sys" ∷ []

abbrev pub core_dir : FsPath
core_dir = codes "core" ∷ configfs_dir

-- The creation modes; `invalid` is any other text.
pub data Mode : Type 0 where
  any lookup create invalid : Mode

module _ ⦃k : Kernel⦄ where
  -- `exists`
  unfoldable pub exists : FsPath → M Bool
  unfolding is_dir
  exists p = is_dir p

  -- `path.resolve().parent.samefile(core)`: the comparison wants both directories.
  same_as_core : FsPath → M Bool
  same_as_core q w =
      if is_dir_in core_dir w.fs then (ok (path_eq q core_dir), w) else (err os_error, w)

  -- The stale HBA directory that `create` may replace: a directory of `core` with no entry.
  is_stale_hba : FsPath → M Bool
  unfolding same_as_core
  is_stale_hba p = do
    core ← same_as_core (parent p)
    if core then (do names ← listdir p; pure (is_empty names)) else pure false

  -- `if self.exists and mode == 'create'` and its `elif`.
  check_mode : FsPath → Mode → M (Unit {0})
  unfolding exists is_stale_hba
  check_mode p create = do
    there ← exists p
    when there (do
      stale ← is_stale_hba p
      if stale then rmdir p else raise (rtslib_error "This object already exists in configFS"))
  check_mode p lookup = do there ← exists p; raise_if (not there) not_in_cfs
  check_mode p m = pure tt

  -- `_create_in_cfs_ine`
  unfoldable pub create_in_cfs_ine : FsPath → Mode → M (Unit {0})
  unfolding check_mode exists
  create_in_cfs_ine p invalid = raise (rtslib_error "Invalid mode")
  create_in_cfs_ine p m = do
    check_mode p m
    there ← exists p
    when (not there) (
        try_except (mkdir p) any_exn
          (λ e. raise (rtslib_error "Could not create object in configFS")))

  -- `_check_self`
  unfoldable pub check_self : FsPath → M (Unit {0})
  unfolding exists
  check_self p = do there ← exists p; raise_if (not there) not_in_cfs

  -- The tests of `_list_files` on one entry of the directory.
  abbrev allowed : Option Bool → Bool → Bool
  allowed none b = true
  allowed (some true) b = b
  allowed (some false) b = not b

  abbrev listed : Option Bool → Option Bool → Option Entry → Bool
  listed writable readable none = false
  listed writable readable (some dir) = false
  listed writable readable (some (link q)) = false
  listed writable readable (some (file w r s)) = allowed writable w && allowed readable r

  -- `_list_files`
  unfoldable pub list_files : FsPath → Option Bool → Option Bool → M (List Text)
  unfolding is_dir listdir sort
  list_files p writable readable = do
    there ← is_dir p
    if there
        then (do
          names ← listdir p
          λ w. pure (sort (keep (λ n. listed writable readable (entry (n ∷ p) w.fs)) names)) w)
        else pure []

  unfoldable pub list_parameters : FsPath → Option Bool → Option Bool → M (List Text)
  unfolding check_self list_files
  list_parameters p writable readable = do
    check_self p
    list_files (codes "param" ∷ p) writable readable

  unfoldable pub list_attributes : FsPath → Option Bool → Option Bool → M (List Text)
  unfolding check_self list_files
  list_attributes p writable readable = do
    check_self p
    list_files (codes "attrib" ∷ p) writable readable

  unfoldable pub set_attribute : FsPath → Text → Text → M (Unit {0})
  unfolding check_self
  set_attribute p attribute value = do
    check_self p
    there ← is_file (attribute ∷ codes "attrib" ∷ p)
    raise_if (not there) (rtslib_error "Cannot find attribute")
    try_except (fwrite (attribute ∷ codes "attrib" ∷ p) value) any_exn
        (λ e. raise (rtslib_error "Cannot set attribute"))

  unfoldable pub get_attribute : FsPath → Text → M Text
  unfolding check_self
  get_attribute p attribute = do
    check_self p
    there ← is_file (attribute ∷ codes "attrib" ∷ p)
    raise_if (not there) (rtslib_error "Cannot find attribute")
    fread (attribute ∷ codes "attrib" ∷ p)

  -- A parameter's value is written with a line break.
  unfoldable pub set_parameter : FsPath → Text → Text → M (Unit {0})
  unfolding check_self
  set_parameter p parameter value = do
    check_self p
    there ← is_file (parameter ∷ codes "param" ∷ p)
    raise_if (not there) (rtslib_error "Cannot find parameter")
    try_except (fwrite (parameter ∷ codes "param" ∷ p) (value ++ 10 ∷ [])) any_exn
        (λ e. raise (rtslib_error "Cannot set parameter"))

  unfoldable pub get_parameter : FsPath → Text → M Text
  unfolding check_self
  get_parameter p parameter = do
    check_self p
    there ← is_file (parameter ∷ codes "param" ∷ p)
    raise_if (not there) (rtslib_error "Cannot find RFC-3720 parameter")
    fread (parameter ∷ codes "param" ∷ p)

  -- `delete`
  unfoldable pub delete : FsPath → M (Unit {0})
  unfolding exists
  delete p = do there ← exists p; when there (rmdir p)

-- The value of an attribute in a dump: an integer, or the text where it is none.
pub data AttributeValue : Type 0 where
  number : ℤ → AttributeValue
  text : Text → AttributeValue

abbrev pub attribute_value : Text → AttributeValue
attribute_value s = elim (py_int s) [ none ↦ text s | some n ↦ number n ]

-- The keys `attributes` and `parameters` of a dump; a key that is absent is the empty list.
pub record NodeDump : Type 0 where
  pub attributes : List (Text × AttributeValue)
  pub parameters : List (Text × Text)

module _ ⦃k : Kernel⦄ where
  -- `dump`; on a ValueError the attribute is read once more.
  dump_attribute : FsPath → Text → M (Text × AttributeValue)
  unfolding get_attribute py_int
  dump_attribute p item = do
    s ← get_attribute p item
    elim (py_int s) [
      | some n ↦ pure (item, number n)
      | none ↦ (do again ← get_attribute p item; pure (item, text again))
    ]

  unfoldable pub dump : FsPath → M NodeDump
  unfolding dump_attribute list_attributes list_parameters get_parameter
  dump p = do
    names ← list_attributes p (some true) (some true)
    attributes ← map_m names (dump_attribute p)
    items ← list_parameters p (some true) (some true)
    parameters ← map_m items (λ item. do value ← get_parameter p item; pure (item, value))
    pure (record { attributes = attributes; parameters = parameters })
