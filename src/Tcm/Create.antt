-- ===== src/Tcm/Create.antt =====
-- The constructors of the storage object classes of rtslib/tcm.py that make an object: a class's
-- `__init__` with its `_configure`.
mod Args
mod Reservations
mod Configure
pub mod Blocks
pub mod Pages
pub use Args.{SoArgs, given, flag}
unfoldable pub use Args.{has_unexpected, pages, path_of}
unfoldable pub use Configure.{
  configure_pscsi, configure_ramdisk, configure_fileio, configure_block, configure_user,
}
pub use Reservations.{reservations}
use rtslib_fb.Prelude.{
  ℕ, ◌+◌, ◌*◌, ◌/◌, ◌%◌, Bool, true, false, not, ◌&&◌, ◌||◌, Option, none, some, List, [], ◌∷◌,
  ◌++◌, is_empty, has, keep, Text, codes, text_eq, starts_with, split, words, strip, decimal, ltb,
  ℤ, pos, negsuc, int_text, to_text, Json, Exn, Result, ok, err, rtslib_error, type_error,
  index_error, value_error, ◌==◌, if◌then◌else◌,
}
use rtslib_fb.Wwn.{unit_serial}
use rtslib_fb.Cfs.{
  FsPath, Fs, Kernel, World, M, pure, raise, lift, get_world, ◌>>=◌, ◌>>◌, raise_if, when,
  try_except, any_exn, for_each, entry, is_file_in, fread, fwrite, generate_wwn,
}
use rtslib_fb.Node
use rtslib_fb.Node.{Mode, check_self}
use rtslib_fb.Dbroot.{rtsroot_init}
use rtslib_fb.Devices.{
  Udev, Hctl, hctl_of_text, is_dev_in_use, get_blockdev_type, convert_scsi_path_to_hctl,
  convert_scsi_hctl_to_path,
}
use rtslib_fb.Tcm.Backstore.{Plugin, pscsi, ramdisk, fileio, block, user}
use rtslib_fb.Tcm.Lookup.{StorageObject, so_init, get_wwn, set_wwn, set_udev_path, enable, control}
use rtslib_fb.Tcm.Delete

module _ ⦃k : Kernel⦄ (u : Udev) (page : ℕ) where
  -- `super().__init__(name, 'create', index)`, then `_configure`; where that raises the object is
  -- deleted and the exception goes on.
  unfoldable pub create_so : Plugin → Text → (FsPath → M (Unit {0})) → M StorageObject
  create_so c name configure = do
    so ← so_init name c Mode.create none
    try_except (configure so.path) any_exn (λ e. do Delete.delete so; raise e)
    pure so

  -- The constructors of the classes, behind the check of the arguments' names: with its distinctive
  -- arguments an object is made, without them it is looked up.
  unfoldable pub new_pscsi : SoArgs → M StorageObject
  unfolding create_so configure_pscsi
  new_pscsi a = elim a.dev [
    | none ↦ so_init a.name pscsi Mode.lookup none
    | some dev ↦ create_so pscsi a.name (λ p. configure_pscsi u page p dev)
  ]

  unfoldable pub new_ramdisk : SoArgs → M StorageObject
  unfolding create_so configure_ramdisk
  new_ramdisk a = elim a.size [
    | none ↦ so_init a.name ramdisk Mode.lookup none
    | some size ↦
        create_so ramdisk a.name (λ p. configure_ramdisk u page p size a.wwn (flag a.nullio))
  ]

  unfoldable pub new_fileio : SoArgs → M StorageObject
  unfolding create_so configure_fileio
  new_fileio a = elim a.dev [
    | none ↦ so_init a.name fileio Mode.lookup none
    | some dev ↦
        create_so fileio a.name
          (λ p. configure_fileio u page p dev a.size a.wwn (flag a.write_back) (flag a.aio))
  ]

  unfoldable pub new_block : SoArgs → M StorageObject
  unfolding create_so configure_block
  new_block a = elim a.dev [
    | none ↦ so_init a.name block Mode.lookup none
    | some dev ↦ create_so block a.name (λ p. configure_block u page p dev a.wwn (flag a.readonly))
  ]

  unfoldable pub new_user : SoArgs → M StorageObject
  unfolding create_so configure_user
  new_user a = elim a.size [
    | none ↦ so_init a.name user Mode.lookup none
    | some size ↦ elim a.config [
      | none ↦ raise (
          rtslib_error
            "'size' and 'config' must be set when creating a new UserBackedStorageObject")
      | some config ↦ (do
        raise_if (not (has b'/' config)) (
            rtslib_error
              "'config' must contain a '/' separating subtype from its configuration string")
        create_so user a.name
            (λ p. configure_user u page p config size a.wwn a.hw_max_sectors a.control))
    ]
  ]

  -- `so_cls(name, **kwargs)`
  unfoldable pub so_new : Plugin → SoArgs → M StorageObject
  unfolding has_unexpected new_pscsi new_ramdisk new_fileio new_block new_user
  so_new c a = do raise_if (has_unexpected c a) type_error; construct c a
    where
      construct : Plugin → SoArgs → M StorageObject
      construct pscsi a = new_pscsi a
      construct ramdisk a = new_ramdisk a
      construct fileio a = new_fileio a
      construct block a = new_block a
      construct user a = new_user a
