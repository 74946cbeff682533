-- ===== src/Setup/Tests.antt =====
-- Restores that go on behind an error, and one that ends (rtslib/target.py).
use rtslib_fb.Prelude.{
  ◌≡◌, refl, none, some, List, [], ◌∷◌, Text, codes, to_text, pos, Json, ok, err, os_error,
  type_error,
}
use rtslib_fb.Cfs.{FsPath, dir, World, fwrite, collect_error}
use rtslib_fb.Cfs.Memory.{memory, world}
use rtslib_fb.Node.{check_self}
use rtslib_fb.Wwn.{iqn}
use rtslib_fb.Fabric.{iscsi}
use rtslib_fb.Tcm.Backstore.{fileio, backstore_path}
use rtslib_fb.Tcm.Lookup.{StorageObject}
use rtslib_fb.Target.Objects.{Target, Tpg, fabric_path}
use rtslib_fb.Setup.{SavedLun, set_attributes, set_tcq_depth}
use rtslib_fb.Setup.Errors.{set_attributes-collect_error, set_tcq_depth_refused}
use rtslib_fb.Tcm.Backstore.{so_mapping}
use rtslib_fb.Setup.{so_names}
use rtslib_fb.Setup.RoundTrip.{so_names-storage_object_field}

abbrev acl : FsPath
acl = codes "acl" ∷ []

abbrev before : World
before = world ((acl, dir) ∷ [])

abbrev attributes : List (Text × Json)
attributes = (codes "dataout_timeout", Json.number (pos 3)) ∷ []

set_attributes-collect_error_example :
    (w' : World) × (set_attributes acl attributes collect_error before ≡ (ok tt, w'))
set_attributes-collect_error_example = set_attributes-collect_error acl attributes before

is_there : check_self acl before ≡ (ok tt, before)
unfolding check_self
is_there = refl

is_refused :
    fwrite (codes "cmdsn_depth" ∷ acl) (to_text (Json.number (pos 64))) before
    ≡ (err os_error, before)
unfolding fwrite
is_refused = refl

set_tcq_depth_refused_test :
    set_tcq_depth acl (Json.number (pos 64)) before ≡ (err type_error, before)
set_tcq_depth_refused_test =
    set_tcq_depth_refused acl (Json.number (pos 64)) before is_there is_refused

abbrev target : Target
target = record {
  fabric = iscsi;
  wwn = codes "iqn.2003-01.org.example:disk";
  wwn_type = iqn;
  path = codes "iqn.2003-01.org.example:disk" ∷ fabric_path iscsi;
}

abbrev tpg : Tpg
tpg = record { target = target; tag = 1; path = codes "tpgt_1" ∷ target.path }

abbrev image : StorageObject
image = record {
  name = codes "image";
  backstore = record {
    cls = fileio;
    index = 0;
    key = codes "fileio/image";
    path = backstore_path fileio 0;
  };
  path = codes "image" ∷ backstore_path fileio 0;
}

abbrev saved_lun : SavedLun
saved_lun = record {
  index = some (pos 0);
  storage_object = some (codes "/backstores/fileio/image");
  alias = none;
  alua_tg_pt_gp_name = some (Json.text (codes "default_tg_pt_gp"));
}

so_names-storage_object_field_example :
    (so_names (some (codes "/backstores/fileio/image")) ≡ some (codes "fileio", codes "image"))
    × (so_mapping (codes "fileio") ≡ some fileio)
unfolding rtslib_fb.Target.Dump.storage_object_field
so_names-storage_object_field_example = so_names-storage_object_field fileio (codes "image") refl
