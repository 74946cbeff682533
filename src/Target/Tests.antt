-- ===== src/Target/Tests.antt =====
-- A LUN that is picked and a TPG that is enabled (rtslib/target.py).
use rtslib_fb.Prelude.{
  ℕ, ◌≡◌, refl, ◌<◌, ◌≤◌, ◌↔◌, Bool, true, false, Option, none, some, List, [], ◌∷◌, ◌++◌, Text,
  codes, elem, ℤ, pos, Result, ok, err,
}
use rtslib_fb.Wwn.{iqn}
use rtslib_fb.Fabric.{iscsi}
use rtslib_fb.Cfs.{FsPath, Entry, dir, file, is_file_in, World}
use rtslib_fb.Cfs.Memory.{memory, world, content-write_at, is_dir_in-write_at}
use rtslib_fb.Cfs.Laws.{Stores}
use rtslib_fb.Target.Objects.{
  Target, Tpg, Lun, fabric_path, lun_name, tpgt_name, numbered, list_tpgs, tags, tpg_init,
}
use rtslib_fb.Node
use rtslib_fb.Node.{Mode}
use rtslib_fb.Target.Children.{max_target_lun, lun_path, lun_index, list_luns}
use rtslib_fb.Target.Delete.{get_enable, set_enable}
use rtslib_fb.Target.Create.{choose_lun, lun_numbers}
use rtslib_fb.Target.Names.{numbered-lun_name, lun_index_iff, choose_lun_fresh, tpg_init_fresh}
use rtslib_fb.Target.Enable.{get-set_enable}
use rtslib_fb.Prelude.{rsplit_once, int_text}
use rtslib_fb.Cfs.Memory.{memory-RemovesDirectories}
use rtslib_fb.Node.{exists}
use rtslib_fb.Target.Deleted.{delete_object, of_tpg, exists-delete_object}
use rtslib_fb.Cfs.{link}
use rtslib_fb.Node.{core_dir}
use rtslib_fb.Tcm.Backstore.{fileio, backstore_path}
use rtslib_fb.Target.Alua.{
  is_status, lun_supports_alua, get_alua_tg_pt_status, set_alua_tg_pt_status,
}
use rtslib_fb.Target.AluaRoundTrip.{get-set_alua_tg_pt_status}

abbrev target : Target
target = record {
  fabric = iscsi;
  wwn = codes "iqn.2003-01.org.example:disk";
  wwn_type = iqn;
  path = codes "iqn.2003-01.org.example:disk" ∷ fabric_path iscsi;
}

abbrev tpg : Tpg
tpg = record { target = target; tag = 1; path = codes "tpgt_1" ∷ target.path }

abbrev enable : FsPath
enable = codes "enable" ∷ tpg.path

abbrev lun : ℕ → Lun
lun n = record { tpg = tpg; lun = n; path = lun_path tpg n }

-- A TPG with the LUNs 0 and 2.
abbrev before : World
before = world (
    (tpg.path, dir)
    ∷ (enable, file true true (codes "0\n"))
    ∷ (codes "lun" ∷ tpg.path, dir)
    ∷ (codes "lun_0" ∷ codes "lun" ∷ tpg.path, dir)
    ∷ (codes "lun_2" ∷ codes "lun" ∷ tpg.path, dir)
    ∷ [])

abbrev behind : World
behind = world (
    (tpg.path, dir)
    ∷ (enable, file true true (codes "1"))
    ∷ (codes "lun" ∷ tpg.path, dir)
    ∷ (codes "lun_0" ∷ codes "lun" ∷ tpg.path, dir)
    ∷ (codes "lun_2" ∷ codes "lun" ∷ tpg.path, dir)
    ∷ [])

numbered-lun_name_test :
    (numbered (codes "lun_120") ≡ ok (pos 120)) × (numbered (codes "tpgt_120") ≡ ok (pos 120))
unfolding rtslib_fb.Prelude.decimal
numbered-lun_name_test = numbered-lun_name 120

lun_index_iff_test : (lun_index (pos 7) ≡ ok 7) ↔ ((pos 7 ≡ pos 7) × (7 ≤ max_target_lun))
lun_index_iff_test = lun_index_iff (pos 7) 7

listed : list_luns tpg before ≡ (ok (lun 0 ∷ lun 2 ∷ []), before)
unfolding list_luns rtslib_fb.Node.check_self rtslib_fb.Cfs.listdir numbered
    rtslib_fb.Node.create_in_cfs_ine rtslib_fb.Prelude.decimal
listed = refl

chosen : choose_lun tpg none before ≡ (ok 1, before)
unfolding choose_lun rtslib_fb.Node.check_self rtslib_fb.Cfs.listdir numbered
    rtslib_fb.Node.create_in_cfs_ine rtslib_fb.Prelude.decimal rtslib_fb.Prelude.Free.first_free
chosen = refl

choose_lun_fresh_example :
    (1 ≤ max_target_lun)
    × (elem 1 (lun_numbers (lun 0 ∷ lun 2 ∷ [])) ≡ false)
    × ((m : ℕ) → m < 1 → elem m (lun_numbers (lun 0 ∷ lun 2 ∷ [])) ≡ true)
choose_lun_fresh_example =
    choose_lun_fresh tpg (lun 0 ∷ lun 2 ∷ []) 1 before before before listed chosen

enable-Stores : Stores memory tpg.path (codes "enable" ∷ [])
enable-Stores = record {
  stores = content-write_at enable;
  stays = is_dir_in-write_at enable tpg.path;
}

was_enabled : set_enable tpg true before ≡ (ok tt, behind)
unfolding set_enable rtslib_fb.Node.check_self rtslib_fb.Cfs.is_file rtslib_fb.Cfs.fread
    rtslib_fb.Tcm.Lookup.int_flag rtslib_fb.Cfs.fwrite
was_enabled = refl

get-set_enable_example : get_enable tpg behind ≡ (ok true, behind)
get-set_enable_example = get-set_enable tpg true before behind enable-Stores refl was_enabled

-- A target with the TPG 1, and the TPG 2 that is made without a tag.
abbrev one_tpg : World
one_tpg = world ((fabric_path iscsi, dir) ∷ (target.path, dir) ∷ (tpg.path, dir) ∷ [])

abbrev two_tpgs : World
two_tpgs = world (
    (codes "tpgt_2" ∷ target.path, dir)
    ∷ (fabric_path iscsi, dir)
    ∷ (target.path, dir)
    ∷ (tpg.path, dir)
    ∷ [])

abbrev tpg_2 : Tpg
tpg_2 = record { target = target; tag = 2; path = codes "tpgt_2" ∷ target.path }

tpgs_listed : list_tpgs target one_tpg ≡ (ok (tpg ∷ []), one_tpg)
unfolding list_tpgs Node.check_self numbered rtslib_fb.Target.Objects.tpg_at
    rtslib_fb.Fabric.has_feature Node.create_in_cfs_ine rtslib_fb.Prelude.decimal
tpgs_listed = refl

tpg_made : tpg_init target none Mode.any one_tpg ≡ (ok tpg_2, two_tpgs)
unfolding tpg_init Node.check_self numbered rtslib_fb.Fabric.has_feature Node.create_in_cfs_ine
    rtslib_fb.Prelude.decimal rtslib_fb.Prelude.Free.first_free rtslib_fb.Cfs.mkdir
tpg_made = refl

tpg_init_fresh_example :
    (1 ≤ 2)
    × (2 < 1048576)
    × (elem 2 (tags (tpg ∷ [])) ≡ false)
    × ((m : ℕ) → 1 ≤ m → m < 2 → elem m (tags (tpg ∷ [])) ≡ true)
tpg_init_fresh_example =
    tpg_init_fresh target Mode.any (tpg ∷ []) tpg_2 one_tpg one_tpg two_tpgs tpgs_listed tpg_made

abbrev status : FsPath
status = codes "alua_tg_pt_status" ∷ (lun 0).path

-- A LUN whose storage object is an image.
abbrev linked : Text → World
linked n = world (
    ((lun 0).path, dir)
    ∷ (codes "0123456789" ∷ (lun 0).path, link (codes "image" ∷ backstore_path fileio 0))
    ∷ (status, file true true n)
    ∷ (core_dir, dir)
    ∷ (backstore_path fileio 0, dir)
    ∷ (codes "image" ∷ backstore_path fileio 0, dir)
    ∷ [])

status-Stores : Stores memory (lun 0).path (codes "alua_tg_pt_status" ∷ [])
status-Stores = record {
  stores = content-write_at status;
  stays = is_dir_in-write_at status (lun 0).path;
}

supports_behind : lun_supports_alua (lun 0) (linked (codes "2")) ≡ (ok true, linked (codes "2"))
unfolding lun_supports_alua Node.check_self rtslib_fb.Prelude.decimal
    rtslib_fb.Target.Create.get_storage_object rtslib_fb.Target.Children.get_alias
    rtslib_fb.Cfs.listdir rtslib_fb.Tcm.Lookup.so_from_path rsplit_once rtslib_fb.Prelude.int_of
    rtslib_fb.Tcm.Backstore.init Node.create_in_cfs_ine rtslib_fb.Tcm.Lookup.alua_supported
supports_behind = refl

status_set :
    set_alua_tg_pt_status (lun 0) (pos 2) (linked (codes "0\n")) ≡ (ok true, linked (codes "2"))
unfolding set_alua_tg_pt_status Node.check_self rtslib_fb.Prelude.decimal
    rtslib_fb.Target.Create.get_storage_object rtslib_fb.Target.Children.get_alias
    rtslib_fb.Cfs.listdir rtslib_fb.Tcm.Lookup.so_from_path rsplit_once rtslib_fb.Prelude.int_of
    rtslib_fb.Tcm.Backstore.init Node.create_in_cfs_ine rtslib_fb.Tcm.Lookup.alua_supported
    rtslib_fb.Cfs.is_file rtslib_fb.Cfs.fwrite int_text
status_set = refl

get-set_alua_tg_pt_status_example :
    (is_status (pos 2) ≡ true)
    × (get_alua_tg_pt_status (lun 0) (linked (codes "2")) ≡ (ok (some (pos 2)), linked (codes "2")))
unfolding rtslib_fb.Prelude.decimal
get-set_alua_tg_pt_status_example =
    get-set_alua_tg_pt_status (lun 0) (pos 2) (linked (codes "0\n")) (linked (codes "2"))
      (linked (codes "2")) status-Stores refl status_set supports_behind

-- A TPG with the LUNs 0 and 2 and no ACLs or portals.
abbrev full : World
full = world (
    (tpg.path, dir)
    ∷ (codes "acls" ∷ tpg.path, dir)
    ∷ (codes "np" ∷ tpg.path, dir)
    ∷ (codes "lun" ∷ tpg.path, dir)
    ∷ (codes "lun_0" ∷ codes "lun" ∷ tpg.path, dir)
    ∷ (codes "lun_2" ∷ codes "lun" ∷ tpg.path, dir)
    ∷ [])

abbrev emptied : World
emptied = world (
    (codes "acls" ∷ tpg.path, dir)
    ∷ (codes "np" ∷ tpg.path, dir)
    ∷ (codes "lun" ∷ tpg.path, dir)
    ∷ [])

tpg_deleted : delete_object (of_tpg tpg) full ≡ (ok tt, emptied)
unfolding delete_object rtslib_fb.Target.Delete.delete_tpg Node.check_self rtslib_fb.Cfs.is_file
    rtslib_fb.Target.Children.for_node_acls rtslib_fb.Fabric.has_feature rtslib_fb.Cfs.listdir
    rtslib_fb.Target.Children.for_luns numbered Node.create_in_cfs_ine rtslib_fb.Prelude.decimal
    Node.delete rtslib_fb.Cfs.rmdir rtslib_fb.Target.Children.for_portals
tpg_deleted = refl

exists-delete_object_example : exists tpg.path emptied ≡ (ok false, emptied)
exists-delete_object_example =
    exists-delete_object (of_tpg tpg) full emptied memory-RemovesDirectories tpg_deleted
