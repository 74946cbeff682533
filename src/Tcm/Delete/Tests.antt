-- ===== src/Tcm/Delete/Tests.antt =====
-- A storage object (rtslib/tcm.py) that is looked up, and one whose configuration fails.
use rtslib_fb.Prelude.{
  ℕ, ◌≡◌, refl, Bool, true, false, Option, none, some, List, [], ◌∷◌, Text, codes, Exn, Result, ok,
  err, os_error, index_error, arith,
}
use rtslib_fb.Cfs.{FsPath, Fs, Entry, dir, file, Kernel, World, M}
use rtslib_fb.Cfs.Laws.{RemovesDirectories}
use rtslib_fb.Cfs.Memory.{memory, memory-RemovesDirectories, add_at, world}
use rtslib_fb.Node.{Mode, exists, core_dir}
use rtslib_fb.Devices.{Udev}
use rtslib_fb.Tcm.Backstore.{Backstore, ramdisk, backstore_path}
use rtslib_fb.Tcm.Lookup.{StorageObject, so_init, so_from_path}
use rtslib_fb.Tcm.Lookup.Unchanged.{so_from_path_unchanged}
use rtslib_fb.Tcm.Create.{create_so, configure_ramdisk}
use rtslib_fb.Tcm.Delete.{delete}
use rtslib_fb.Tcm.Delete.Gone.{create_so_undone, exists-delete}

-- In this configFS every new directory has a flag that says that it is not configured, and groups.
abbrev filled : FsPath → Fs → Fs
filled p fs = (codes "enable" ∷ p, file true true (codes "0")) ∷ (codes "alua" ∷ p, dir) ∷ fs

abbrev filling : Kernel
filling = record memory {
  mkdir = λ p fs. elim (add_at p dir fs) [ none ↦ none | some fs' ↦ some (filled p fs') ];
}

filling-RemovesDirectories : RemovesDirectories filling
filling-RemovesDirectories = record {
  removes = memory-RemovesDirectories.removes;
  makes_none = memory-RemovesDirectories.makes_none;
}

abbrev udev : Udev
udev = record {
  device_file = λ p. err index_error;
  block_device = λ n. err index_error;
  opens = λ p b. false;
  scsi_parent = λ p. none;
  block_nodes = λ p. none;
}

abbrev before : World
before = world ((core_dir, dir) ∷ [])

abbrev b : Backstore
b = record { cls = ramdisk; index = 0; key = codes "rd_mcp/disk"; path = backstore_path ramdisk 0 }

abbrev so : StorageObject
so = record { name = codes "disk"; backstore = b; path = codes "disk" ∷ b.path }

abbrev made : World
made =
    record (world
      (filled so.path ((so.path, dir) ∷ filled b.path ((b.path, dir) ∷ (core_dir, dir) ∷ [])))) {
        bs_cache = (b.key, 0) ∷ [];
      }

abbrev after : World
after = world (filled so.path (filled b.path ((core_dir, dir) ∷ [])))

-- There is no control file to write to.
abbrev configure : FsPath → M (Unit {0})
configure p = configure_ramdisk ⦃k = filling⦄ udev 4096 p 1048576 none false

was_made : so_init ⦃k = filling⦄ (codes "disk") ramdisk Mode.create none before ≡ (ok so, made)
unfolding so_init rtslib_fb.Tcm.Backstore.init rtslib_fb.Tcm.Cache.get
    rtslib_fb.Prelude.Free.first_free rtslib_fb.Tcm.Cache.indexes rtslib_fb.Node.create_in_cfs_ine
    rtslib_fb.Cfs.mkdir rtslib_fb.Node.check_self rtslib_fb.Prelude.decimal rtslib_fb.Tcm.Cache.put
was_made = refl

has_failed : configure so.path made ≡ (err os_error, made)
unfolding configure_ramdisk rtslib_fb.Node.check_self rtslib_fb.Prelude.decimal
    rtslib_fb.Tcm.Lookup.control rtslib_fb.Cfs.fwrite
has_failed = refl

was_deleted : delete ⦃k = filling⦄ so made ≡ (ok tt, after)
unfolding delete rtslib_fb.Node.check_self rtslib_fb.Prelude.decimal rtslib_fb.Cfs.listdir
    rtslib_fb.Tcm.Lookup.is_configured rtslib_fb.Cfs.is_file rtslib_fb.Cfs.fread
    rtslib_fb.Node.delete rtslib_fb.Cfs.rmdir rtslib_fb.Tcm.Backstore.delete
    rtslib_fb.Tcm.Cache.remove
was_deleted = refl

create_so_undone_example :
    (create_so ⦃k = filling⦄ udev 4096 ramdisk (codes "disk") configure before
      ≡ (err os_error, after))
    × (exists ⦃k = filling⦄ so.path after ≡ (ok false, after))
    × (exists ⦃k = filling⦄ so.backstore.path after ≡ (ok false, after))
create_so_undone_example =
    create_so_undone ⦃k = filling⦄ udev 4096 ramdisk (codes "disk") configure so os_error before
      made made after filling-RemovesDirectories was_made has_failed was_deleted

exists-delete_example :
    (exists ⦃k = filling⦄ so.path after ≡ (ok false, after))
    × (exists ⦃k = filling⦄ so.backstore.path after ≡ (ok false, after))
exists-delete_example =
    exists-delete ⦃k = filling⦄ filling-RemovesDirectories so made after was_deleted

was_found : so_from_path ⦃k = filling⦄ (codes "rd_mcp_0") (codes "disk") made ≡ (ok so, made)
unfolding so_from_path rtslib_fb.Prelude.rsplit_once rtslib_fb.Prelude.int_of
    rtslib_fb.Tcm.Backstore.init rtslib_fb.Node.create_in_cfs_ine rtslib_fb.Prelude.decimal
    rtslib_fb.Node.check_self
was_found = refl

so_from_path_unchanged_example : made ≡ made
so_from_path_unchanged_example =
    so_from_path_unchanged ⦃k = filling⦄ (codes "rd_mcp_0") (codes "disk") so made made was_found
