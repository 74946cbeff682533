-- ===== src/Node/Tests.antt =====
-- The creation modes (rtslib/node.py) on a small configFS.
use rtslib_fb.Prelude.{◌≡◌, refl, true, [], ◌∷◌, Text, codes, strip, ok, err, rtslib_error}
use rtslib_fb.Cfs.{FsPath, Fs, Entry, dir, file, World}
use rtslib_fb.Cfs.Memory.{
  memory, world, memory-MakesDirectories, content-write_at, is_dir_in-write_at,
}
use rtslib_fb.Cfs.Laws.{Stores}
use rtslib_fb.Node.Attributes.{get-set_attribute, get-set_parameter}
use rtslib_fb.Node.{
  any, create, core_dir, configfs_dir, exists, create_in_cfs_ine, set_attribute, get_attribute,
  set_parameter, get_parameter,
}
use rtslib_fb.Node.Create.{create_in_cfs_ine_lem, exists-create_in_cfs_ine}

abbrev iscsi : FsPath
iscsi = codes "iscsi" ∷ configfs_dir

abbrev before : World
before = world ((core_dir, dir) ∷ [])

abbrev behind : World
behind = world ((iscsi, dir) ∷ (core_dir, dir) ∷ [])

create_in_cfs_ine_lem_example :
    create_in_cfs_ine iscsi create behind
    ≡ (err (rtslib_error "This object already exists in configFS"), behind)
create_in_cfs_ine_lem_example = create_in_cfs_ine_lem iscsi create behind refl refl

was_made : create_in_cfs_ine iscsi any before ≡ (ok tt, behind)
unfolding create_in_cfs_ine rtslib_fb.Cfs.mkdir
was_made = refl

exists-create_in_cfs_ine_example : exists iscsi behind ≡ (ok true, behind)
exists-create_in_cfs_ine_example =
    exists-create_in_cfs_ine iscsi any before behind memory-MakesDirectories was_made

abbrev attribute : FsPath
attribute = codes "authentication" ∷ codes "attrib" ∷ iscsi

abbrev parameter : FsPath
parameter = codes "AuthMethod" ∷ codes "param" ∷ iscsi

abbrev files : Text → Text → World
files a p =
    world ((iscsi, dir) ∷ (attribute, file true true a) ∷ (parameter, file true true p) ∷ [])

attribute-Stores : Stores memory iscsi (codes "authentication" ∷ codes "attrib" ∷ [])
attribute-Stores = record {
  stores = content-write_at attribute;
  stays = is_dir_in-write_at attribute iscsi;
}

parameter-Stores : Stores memory iscsi (codes "AuthMethod" ∷ codes "param" ∷ [])
parameter-Stores = record {
  stores = content-write_at parameter;
  stays = is_dir_in-write_at parameter iscsi;
}

attribute_set :
    set_attribute iscsi (codes "authentication") (codes "1") (files (codes "0\n") [])
    ≡ (ok tt, files (codes "1") [])
unfolding set_attribute rtslib_fb.Cfs.is_file rtslib_fb.Cfs.fwrite
attribute_set = refl

get-set_attribute_example :
    get_attribute iscsi (codes "authentication") (files (codes "1") [])
    ≡ (ok (strip (codes "1")), files (codes "1") [])
get-set_attribute_example =
    get-set_attribute iscsi (codes "authentication") (codes "1") (files (codes "0\n") [])
      (files (codes "1") []) attribute-Stores attribute_set

parameter_set :
    set_parameter iscsi (codes "AuthMethod") (codes "CHAP") (files [] [])
    ≡ (ok tt, files [] (codes "CHAP\n"))
unfolding set_parameter rtslib_fb.Cfs.is_file rtslib_fb.Cfs.fwrite
parameter_set = refl

get-set_parameter_test :
    get_parameter iscsi (codes "AuthMethod") (files [] (codes "CHAP\n"))
    ≡ (ok (strip (codes "CHAP")), files [] (codes "CHAP\n"))
get-set_parameter_test =
    get-set_parameter iscsi (codes "AuthMethod") (codes "CHAP") (files [] [])
      (files [] (codes "CHAP\n")) parameter-Stores parameter_set
