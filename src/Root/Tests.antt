-- ===== src/Root/Tests.antt =====
-- Examples of a restore that refuses, and of a configuration that is merged and saved
-- (rtslib/root.py).
use rtslib_fb.Prelude.{
  Each, rtslib_error, ◌≡◌, ◌↔◌, refl, true, false, none, some, [], ◌∷◌, ◌++◌, codes, drop, ok, err,
  index_error,
}
use rtslib_fb.Cfs.{for_until, collect_error}
use rtslib_fb.Cfs.Memory.{memory, world}
use rtslib_fb.Devices.{Udev}
use rtslib_fb.Tcm.Backstore.{fileio, backstore_path}
use rtslib_fb.Tcm.Lookup.{StorageObject}
use rtslib_fb.Tcm.Create.{SoArgs}
use rtslib_fb.Setup.{SavedTarget}
use rtslib_fb.Root.{SavedSo, Config, precheck, restore_so, restore_target}
use rtslib_fb.Root.Precheck.{
  SoDiffers, TargetDiffers, precheck_iff, restore_so_for_target, restore_target_for_so,
}
use rtslib_fb.Root.SaveFile.{File, Disk, mode, save_to_file, run}
use rtslib_fb.Root.SaveFile.Crash.{
  after_steps, OldOrNew, Private, save_to_file_crash_safe, run-save_to_file, save_to_file-Private,
  save_to_file_raced,
}

abbrev udev : Udev
udev = record {
  device_file = λ p. err index_error;
  block_device = λ n. err index_error;
  opens = λ p b. false;
  scsi_parent = λ p. none;
  block_nodes = λ p. none;
}

abbrev args : SoArgs
args = record {
  name = codes "image";
  dev = some (codes "/tmp/image");
  size = some 1048576;
  wwn = none;
  nullio = none;
  write_back = none;
  aio = none;
  readonly = none;
  config = none;
  hw_max_sectors = none;
  control = none;
  unexpected = false;
}

abbrev saved_so : SavedSo
saved_so = record {
  name = some (codes "image");
  plugin = some (codes "fileio");
  args = args;
  attributes = [];
  alua_tpgs = [];
}

abbrev saved_target : SavedTarget
saved_target = record {
  wwn = some (codes "iqn.2003-01.org.example:disk");
  fabric = some (codes "iscsi");
  tpgs = [];
}

abbrev config : Config
config = record {
  storage_objects = saved_so ∷ [];
  fabric_modules = [];
  targets = saved_target ∷ [];
}

abbrev loaded : StorageObject
loaded = record {
  name = codes "image";
  backstore = record {
    cls = fileio;
    index = 0;
    key = codes "fileio/image";
    path = backstore_path fileio 0;
  };
  path = codes "image" ∷ backstore_path fileio 0;
}

precheck_iff_example : (precheck config (loaded ∷ []) [] ≡ ok tt) ↔ (
    Each (λ s. Each (SoDiffers s) (loaded ∷ [])) (saved_so ∷ [])
    × Each (λ s. Each (TargetDiffers s) []) (saved_target ∷ []))
precheck_iff_example = precheck_iff config (loaded ∷ []) []

-- A configuration that shares no name with what is loaded is restored beside it, without
-- `clear_existing`.
other_restored : precheck config (record loaded { name = codes "other" } ∷ []) [] ≡ ok tt
unfolding precheck
other_restored = refl

same_refused :
    precheck config (loaded ∷ []) [] ≡ err (rtslib_error "storageobject exist not restoring")
unfolding precheck
same_refused = refl

restore_so_for_target_test :
    for_until
      (saved_so ∷ [])
      (restore_so udev 4096 collect_error (some (codes "iqn.2003-01.org.example:disk")) none)
      (world [])
    ≡ (ok tt, world [])
restore_so_for_target_test =
    restore_so_for_target udev 4096 collect_error (codes "iqn.2003-01.org.example:disk")
      (saved_so ∷ []) (world []) refl

restore_target_for_so_test :
    for_until
      (saved_target ∷ [])
      (restore_target udev 4096 collect_error none (some (codes "image")))
      (world [])
    ≡ (ok tt, world [])
restore_target_for_so_test =
    restore_target_for_so udev 4096 collect_error (codes "image") (saved_target ∷ []) (world [])
      refl

abbrev old_file : File
old_file = record { mode = 420; text = codes "{}"; synced = true }

abbrev disk : Disk
disk = record { tmp = none; saved = some old_file; umask = 18 }

save_to_file_crash_safe_example : OldOrNew (codes "{ }") disk (after_steps 4 (codes "{ }") disk)
save_to_file_crash_safe_example = save_to_file_crash_safe 4 (codes "{ }") disk

run-save_to_file_test : run (save_to_file (codes "{ }") 18) disk ≡ (
  true,
  record {
    tmp = none;
    saved = some (record { mode = mode; text = codes "{ }" ++ 10 ∷ []; synced = true });
    umask = 18;
  },
)
run-save_to_file_test = run-save_to_file (codes "{ }") disk

save_to_file-Private_example : Private (after_steps 4 (codes "{ }") disk).tmp
save_to_file-Private_example = save_to_file-Private 3 (codes "{ }") disk

abbrev raced : Disk
raced = record disk { tmp = some old_file }

save_to_file_raced_example :
    run (drop 1 (save_to_file (codes "{ }") 18)) raced ≡ (false, record raced { umask = 127 })
save_to_file_raced_example = save_to_file_raced (codes "{ }") 18 raced old_file refl
