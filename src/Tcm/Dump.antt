-- ===== src/Tcm/Dump.antt =====
-- The `dump` methods of the storage object classes of rtslib/tcm.py, and StorageObjectFactory.
use rtslib_fb.Prelude.{
  ℕ, Bool, false, Option, none, some, List, [], ◌∷◌, Text, ℤ, rtslib_error, if◌then◌else◌,
}
use rtslib_fb.Cfs.{FsPath, Kernel, M, pure, raise, ◌>>=◌, is_file}
use rtslib_fb.Node
use rtslib_fb.Node.{NodeDump}
use rtslib_fb.Devices.{Udev}
use rtslib_fb.Alua
use rtslib_fb.Alua.{GroupDump}
use rtslib_fb.Tcm.Backstore.{Plugin, pscsi, ramdisk, fileio, block, user, plugin_name}
use rtslib_fb.Tcm.Lookup.{StorageObject, cls, get_wwn}
use rtslib_fb.Tcm.Create.{SoArgs, path_of, so_new}
use rtslib_fb.Tcm.Info.{
  from_alua_tpgs, get_udev_path, ramdisk_size, get_nullio, get_readonly, get_wb_enabled,
}
use rtslib_fb.Tcm.Sizes.{
  get_aio, fileio_size, user_size, get_config, get_hw_max_sectors, get_control_tuples,
}

-- The keys that a class adds to those of every object.
pub data ClassDump : Type 0 where
  pscsi_dump : (dev : Text) → ClassDump
  ramdisk_dump : (wwn : Text) → (size : ℤ) → (nullio : Bool) → ClassDump
  fileio_dump :
      (write_back : Bool) → (wwn : Text) → (dev : Text) → (size : ℤ) → (aio : Bool) → ClassDump
  block_dump : (write_back : Bool) → (readonly : Bool) → (wwn : Text) → (dev : Text) → ClassDump
  user_dump :
      (wwn : Text)
      → (size : ℤ) → (config : Option Text) → (hw_max_sectors : ℤ) → (control : Text) → ClassDump

pub record SoDump : Type 0 where
  pub node : NodeDump
  pub name : Text
  pub plugin : Text
  pub alua_tpgs : List GroupDump
  pub keys : ClassDump

module _ ⦃k : Kernel⦄ (u : Udev) where
  -- What each class's `dump` adds; `nullio` is a key of a ramdisk's only where it is true.
  unfoldable pub dump_class : Plugin → StorageObject → M ClassDump
  dump_class pscsi so = do dev ← get_udev_path so; pure (pscsi_dump dev)
  dump_class ramdisk so = do
    wwn ← get_wwn so.path
    size ← ramdisk_size so.path
    nullio ← get_nullio so.path
    pure (ramdisk_dump wwn size nullio)
  dump_class fileio so = do
    write_back ← get_wb_enabled so.path
    wwn ← get_wwn so.path
    dev ← get_udev_path so
    size ← fileio_size u so
    aio ← get_aio so.path
    pure (fileio_dump write_back wwn dev size aio)
  dump_class block so = do
    write_back ← get_wb_enabled so.path
    readonly ← get_readonly so.path
    wwn ← get_wwn so.path
    dev ← get_udev_path so
    pure (block_dump write_back readonly wwn dev)
  dump_class user so = do
    wwn ← get_wwn so.path
    size ← user_size so.path
    config ← get_config so.path
    hw_max_sectors ← get_hw_max_sectors so.path
    control ← get_control_tuples so.path
    pure (user_dump wwn size config hw_max_sectors control)

  -- `dump`
  unfoldable pub dump : StorageObject → M SoDump
  unfolding dump_class
  dump so = do
    node ← Node.dump so.path
    alua_tpgs ← from_alua_tpgs so Alua.dump
    keys ← dump_class (cls so) so
    pure (record {
      node = node;
      name = so.name;
      plugin = plugin_name (cls so);
      alua_tpgs = alua_tpgs;
      keys = keys;
    })

  -- `StorageObjectFactory`, of a path in its usual form; what `stat` tells is an argument. A path that
  -- does not exist is neither a block device nor a file.
  unfoldable pub storage_object_factory : ℕ → (Text → Bool) → (Text → ℕ) → Text → M StorageObject
  storage_object_factory page is_block_device st_size path = do
    let blank : SoArgs = record {
      name = last_name (path_of path);
      dev = some path;
      size = none;
      wwn = none;
      nullio = none;
      write_back = none;
      aio = none;
      readonly = none;
      config = none;
      hw_max_sectors = none;
      control = none;
      unexpected = false;
    }
    regular ← is_file (path_of path)
    if is_block_device path
        then so_new u page block blank
        else if regular
        then so_new u page fileio (record blank { size = some (st_size path) })
        else raise (rtslib_error "Can't create storageobject from path")
    where
      last_name : FsPath → Text
      last_name [] = []
      last_name (c ∷ p) = c
