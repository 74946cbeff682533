-- ===== src/Target/Getters.antt =====
-- The properties of the objects of rtslib/target.py that read one file or one link.
use rtslib_fb.Prelude.{
  Bool, true, false, Option, none, some, List, [], ◌∷◌, ◌++◌, is_empty, Text, codes, is_os,
  broken_link, if◌then◌else◌,
}
use rtslib_fb.Cfs.{
  FsPath, path_eq, Kernel, M, pure, raise, lift, get_world, ◌>>=◌, ◌>>◌, try_except, any_exn,
  link_target, listdir, fread, fwrite,
}
use rtslib_fb.Node
use rtslib_fb.Auth.{get_auth_attr}
use rtslib_fb.Tcm.Lookup.{int_flag}
use rtslib_fb.Target.Objects.{Tpg, Lun, NetworkPortal, NodeAcl, MappedLun, numbered}
use rtslib_fb.Target.Children.{get_alias, lun_lookup}

-- `auth_params`, by the names of their files.
abbrev pub auth_params : List Text
auth_params =
    codes "userid" ∷ codes "password" ∷ codes "userid_mutual" ∷ codes "password_mutual" ∷ []

abbrev pub auth_path : Text → FsPath
auth_path file = file ∷ codes "auth" ∷ []

module _ ⦃k : Kernel⦄ where
  -- `bool(int(fread(path)))`
  unfoldable pub read_flag : FsPath → M Bool
  read_flag p = do s ← fread p; lift (int_flag s)

  -- `TPG._control`
  unfoldable pub tpg_control : Tpg → Text → M (Unit {0})
  tpg_control t command = do
    Node.check_self t.path
    fwrite (codes "control" ∷ t.path) (command ++ 10 ∷ [])

  -- `TPG._get_authenticate_target`: None where it cannot be read.
  unfoldable pub tpg_authenticate_target : Tpg → M (Option Bool)
  unfolding read_flag
  tpg_authenticate_target t = do
    Node.check_self t.path
    try_except
        (do b ← read_flag (codes "authenticate_target" ∷ codes "auth" ∷ t.path); pure (some b))
        any_exn (λ e. pure none)

  -- `_get_iser` and `_get_offload` of NetworkPortal, on the files iser and cxgbit.
  unfoldable pub get_portal_flag : NetworkPortal → Text → M Bool
  unfolding read_flag
  get_portal_flag np name = try_except (read_flag (name ∷ np.path)) is_os (λ e. pure false)

  -- `NodeACL._get_tcq_depth`
  unfoldable pub get_tcq_depth : NodeAcl → M Text
  get_tcq_depth acl = do Node.check_self acl.path; fread (codes "cmdsn_depth" ∷ acl.path)

  -- `NodeACL._get_tag`: an empty tag, and one that cannot be read, are None.
  unfoldable pub get_acl_tag : NodeAcl → M (Option Text)
  get_acl_tag acl = do
    Node.check_self acl.path
    try_except (do s ← fread (codes "tag" ∷ acl.path); pure (if is_empty s then none else some s))
        is_os (λ e. pure none)

  -- `NodeACL._get_authenticate_target`
  unfoldable pub acl_authenticate_target : NodeAcl → M Bool
  unfolding read_flag
  acl_authenticate_target acl = do
    Node.check_self acl.path
    read_flag (codes "authenticate_target" ∷ codes "auth" ∷ acl.path)

  -- `MappedLUN._get_write_protect`
  unfoldable pub get_write_protect : MappedLun → M Bool
  unfolding read_flag
  get_write_protect m = do Node.check_self m.path; read_flag (codes "write_protect" ∷ m.path)

  search_path : Tpg → Option FsPath → List Text → M Lun
  search_path t q [] = raise broken_link
  search_path t q (n ∷ ns) = do
    i ← lift (numbered n)
    l ← lun_lookup t i
    if (elim q [ none ↦ false | some p ↦ path_eq l.path p ]) then pure l else search_path t q ns

  -- `MappedLUN._get_tpg_lun`: the LUN that the link points at.
  unfoldable pub get_tpg_lun : MappedLun → M Lun
  unfolding search_path
  get_tpg_lun m = do
    Node.check_self m.path
    alias ← get_alias m.path
    w ← get_world
    Node.check_self m.acl.tpg.path
    names ← listdir (codes "lun" ∷ m.acl.tpg.path)
    search_path m.acl.tpg (link_target (alias ∷ m.path) w.fs) names

  -- `chap_userid` and the three below it, of a TPG and of a NodeACL.
  unfoldable pub get_tpg_chap : Tpg → Text → M (Option Text)
  get_tpg_chap t file = get_auth_attr (Node.check_self t.path) t.path (auth_path file) true

  unfoldable pub get_acl_chap : NodeAcl → Text → M (Option Text)
  get_acl_chap acl file = get_auth_attr (Node.check_self acl.path) acl.path (auth_path file) false
