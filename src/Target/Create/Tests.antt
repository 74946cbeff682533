-- ===== src/Target/Create/Tests.antt =====
-- A LUN (rtslib/target.py) whose storage object is not there.
use rtslib_fb.Prelude.{
  ℕ, ◌≡◌, refl, Bool, true, false, Option, none, some, List, [], ◌∷◌, Text, codes, Json, Exn,
  Result, ok, err, rtslib_error, arith,
}
use rtslib_fb.Wwn.{iqn}
use rtslib_fb.Fabric.{iscsi}
use rtslib_fb.Cfs.{FsPath, Fs, Entry, dir, World}
use rtslib_fb.Cfs.Memory.{memory, memory-RemovesDirectories, world}
use rtslib_fb.Node.{create, create_in_cfs_ine, exists, core_dir}
use rtslib_fb.Tcm.Backstore.{fileio, backstore_path}
use rtslib_fb.Tcm.Lookup.{StorageObject}
use rtslib_fb.Target.Objects.{Target, Tpg, Lun, fabric_path}
use rtslib_fb.Target.Children.{lun_path}
use rtslib_fb.Target.Delete.{delete_lun}
use rtslib_fb.Target.Create.{choose_lun, configure_lun, lun_init}
use rtslib_fb.Target.Create.Undone.{lun_init_undone}

abbrev target : Target
target = record {
  fabric = iscsi;
  wwn = codes "iqn.2003-01.org.example:disk";
  wwn_type = iqn;
  path = codes "iqn.2003-01.org.example:disk" ∷ fabric_path iscsi;
}

abbrev tpg : Tpg
tpg = record { target = target; tag = 1; path = codes "tpgt_1" ∷ target.path }

-- The one free index below those in use.
abbrev new_lun : Lun
new_lun = record { tpg = tpg; lun = 1; path = lun_path tpg 1 }

abbrev luns : Fs
luns =
    (tpg.path, dir)
    ∷ (codes "acls" ∷ tpg.path, dir)
    ∷ (codes "lun" ∷ tpg.path, dir)
    ∷ (codes "lun_0" ∷ codes "lun" ∷ tpg.path, dir)
    ∷ (codes "lun_2" ∷ codes "lun" ∷ tpg.path, dir)
    ∷ (core_dir, dir)
    ∷ []

abbrev before : World
before = world luns

abbrev made : World
made = world ((new_lun.path, dir) ∷ luns)

abbrev gone : StorageObject
gone = record {
  name = codes "image";
  backstore = record {
    cls = fileio;
    index = 0;
    key = codes "fileio/image";
    path = backstore_path fileio 0;
  };
  path = codes "image" ∷ backstore_path fileio 0;
}

abbrev alias : Option Text
alias = some (codes "link")

abbrev no_object : Exn
no_object = rtslib_error "storage_object does not exist in configFS"

was_chosen : choose_lun tpg none before ≡ (ok 1, before)
unfolding choose_lun rtslib_fb.Node.check_self rtslib_fb.Cfs.listdir
    rtslib_fb.Target.Objects.numbered create_in_cfs_ine rtslib_fb.Prelude.decimal
    rtslib_fb.Prelude.Free.first_free
was_chosen = refl

was_made : create_in_cfs_ine new_lun.path create before ≡ (ok tt, made)
unfolding create_in_cfs_ine rtslib_fb.Prelude.decimal rtslib_fb.Cfs.mkdir
was_made = refl

has_failed : configure_lun new_lun gone alias made ≡ (err no_object, made)
unfolding configure_lun rtslib_fb.Node.check_self rtslib_fb.Prelude.decimal rtslib_fb.Prelude.strip
has_failed = refl

was_deleted : delete_lun new_lun made ≡ (ok tt, before)
unfolding delete_lun rtslib_fb.Node.check_self rtslib_fb.Prelude.decimal
    rtslib_fb.Fabric.has_feature rtslib_fb.Target.Children.for_node_acls rtslib_fb.Cfs.listdir
    rtslib_fb.Node.delete rtslib_fb.Cfs.rmdir
was_deleted = refl

lun_init_undone_example :
    (lun_init tpg none (some gone) alias before ≡ (err no_object, before))
    × (exists new_lun.path before ≡ (ok false, before))
lun_init_undone_example =
    lun_init_undone tpg none gone alias 1 no_object before before made made before
      memory-RemovesDirectories was_chosen was_made has_failed was_deleted
