-- ===== src/Root/Lists.antt =====
-- The lists of RTSRoot (rtslib/root.py) as loops over their elements, its `dump`, and the groups of a
-- TPG (rtslib/target.py).
use rtslib_fb.Prelude.{
  false, not, ◌&&◌, Option, none, some, List, [], ◌∷◌, ◌++◌, any, Text, codes, text_eq, type_error,
  if◌then◌else◌,
}
use rtslib_fb.Fabric.{
  Fabric, acls, fabric_modules, has_feature, discovery_auth, is_target_name, from_fabric_wwn,
}
use rtslib_fb.Fabric.Info
use rtslib_fb.Fabric.Info.{FabricDump}
use rtslib_fb.Fabric.Discovery.{get_enable_auth}
use rtslib_fb.Cfs.{
  FsPath, Kernel, M, pure, raise, get_world, set_cache, ◌>>=◌, ◌>>◌, for_each, map_m, is_dir_in,
  listdir,
}
use rtslib_fb.Node
use rtslib_fb.Node.{Mode, NodeDump, configfs_dir, check_self, exists}
use rtslib_fb.Devices.{Udev}
use rtslib_fb.Tcm.Backstore.{so_dirs}
use rtslib_fb.Tcm.Lookup.{so_from_path}
use rtslib_fb.Tcm.Info.{from_alua_tpgs}
use rtslib_fb.Tcm.Dump
use rtslib_fb.Tcm.Dump.{SoDump}
use rtslib_fb.Target.Objects.{
  Tpg, Lun, NetworkPortal, NodeAcl, MappedLun, tpg_has, fabric_path, target_init, for_tpgs,
}
use rtslib_fb.Target.Children.{for_node_acls, for_luns, for_portals, for_mapped_luns, node_acl_init}
use rtslib_fb.Target.Getters.{get_acl_tag}
use rtslib_fb.Target.Sessions.{Session, get_session}
use rtslib_fb.Target.Dump.{TargetDump, dump_target}
use rtslib_fb.Groups.NodeAcls.{NodeAclGroup, group_init}
use rtslib_fb.Groups.MappedLuns.{MappedLunGroup, mapped_lun_groups}
use rtslib_fb.Root.{for_targets}

-- `names.add(tag)` for a tag that is not empty. The order of a set is not known: that of the first
-- occurrences stands for it.
abbrev pub add_name : Option Text → List Text → List Text
add_name none names = names
add_name (some t) names = if any (text_eq t) names then names else names ++ t ∷ []

module _ ⦃k : Kernel⦄ where
  group_names : Tpg → List Text → List Text → M (List Text)
  group_names t names [] = pure names
  group_names t names (n ∷ ns) = do
    acl ← node_acl_init t (from_fabric_wwn t.target.fabric n) Mode.lookup
    tag ← get_acl_tag acl
    group_names t (add_name tag names) ns

  -- `TPG._list_node_acl_groups`: the names of the groups; None where the fabric has no ACLs.
  unfoldable pub acl_group_names : Tpg → M (Option (List Text))
  unfolding group_names
  acl_group_names t = do
    check_self t.path
    if not (tpg_has t acls) then pure none else (do
      check_self t.path
      ns ← listdir (codes "acls" ∷ t.path)
      names ← group_names t [] ns
      pure (some names))

  -- The loops over the lists of RTSRoot.
  unfoldable pub each_tpg : (Tpg → M (Unit {0})) → M (Unit {0})
  each_tpg body = do
    check_self configfs_dir
    for_targets (λ t. do for_tpgs t body; pure false)
    pure tt

  unfoldable pub each_node_acl : (NodeAcl → M (Unit {0})) → M (Unit {0})
  unfolding each_tpg
  each_node_acl body = do check_self configfs_dir; each_tpg (λ t. for_node_acls t body)

  -- `yield from None` is a TypeError.
  groups_of : Tpg → (NodeAclGroup → M (Unit {0})) → M (Unit {0})
  unfolding acl_group_names
  groups_of t body = do
    found ← acl_group_names t
    elim found [
      | none ↦ raise type_error
      | some names ↦ for_each names (λ n. do g ← group_init t n; body g)
    ]

  unfoldable pub each_node_acl_group : (NodeAclGroup → M (Unit {0})) → M (Unit {0})
  unfolding each_tpg groups_of
  each_node_acl_group body = do check_self configfs_dir; each_tpg (λ t. groups_of t body)

  unfoldable pub each_mapped_lun : (MappedLun → M (Unit {0})) → M (Unit {0})
  unfolding each_node_acl
  each_mapped_lun body = do check_self configfs_dir; each_node_acl (λ acl. for_mapped_luns acl body)

  unfoldable pub each_mapped_lun_group : (MappedLunGroup → M (Unit {0})) → M (Unit {0})
  unfolding each_node_acl_group
  each_mapped_lun_group body = do
    check_self configfs_dir
    each_node_acl_group (λ g. do gs ← mapped_lun_groups g; for_each gs body)

  unfoldable pub each_network_portal : (NetworkPortal → M (Unit {0})) → M (Unit {0})
  unfolding each_tpg
  each_network_portal body = do check_self configfs_dir; each_tpg (λ t. for_portals t body)

  unfoldable pub each_lun : (Lun → M (Unit {0})) → M (Unit {0})
  unfolding each_tpg
  each_lun body = do check_self configfs_dir; each_tpg (λ t. for_luns t body)

  -- The session of each node ACL that has one; it is read twice.
  unfoldable pub each_session : (Session → M (Unit {0})) → M (Unit {0})
  unfolding each_node_acl
  each_session body = do
    check_self configfs_dir
    each_node_acl (λ acl. do
      found ← get_session acl
      elim found [
        | none ↦ pure tt
        | some s ↦ (do again ← get_session acl; elim again [ none ↦ pure tt | some s ↦ body s ])
      ])

  unfoldable pub list_fabric_modules : M (List Fabric)
  list_fabric_modules = do check_self configfs_dir; pure fabric_modules

  -- `invalidate_caches`
  unfoldable pub invalidate_caches : M (Unit {0})
  invalidate_caches = set_cache []

  -- `restore_from_file`: the method `open` is not called, and a method is no context manager.
  unfoldable pub restore_from_file : M (Unit {0})
  restore_from_file = raise type_error

pub record RootDump : Type 0 where
  pub node : NodeDump
  pub storage_objects : List SoDump
  pub targets : List TargetDump
  pub fabric_modules : List FabricDump

module _ ⦃k : Kernel⦄ where
  targets_dump : Fabric → List Text → M (List TargetDump)
  targets_dump f [] = pure []
  targets_dump f (n ∷ ns) = do
    w ← get_world
    here ←
        if is_dir_in (n ∷ fabric_path f) w.fs && is_target_name n
        then (do
          t ← target_init f (some (from_fabric_wwn f n)) Mode.lookup
          d ← dump_target t
          pure (d ∷ []))
        else pure []
    rest ← targets_dump f ns
    pure (here ++ rest)

  dump_targets : List Fabric → M (List TargetDump)
  unfolding targets_dump
  dump_targets [] = pure []
  dump_targets (f ∷ fs) = do
    there ← exists (fabric_path f)
    here ← if there then (do ns ← listdir (fabric_path f); targets_dump f ns) else pure []
    rest ← dump_targets fs
    pure (here ++ rest)

  dump_fabrics : List Fabric → M (List FabricDump)
  dump_fabrics [] = pure []
  dump_fabrics (f ∷ fs) = do
    here ← if not (has_feature f discovery_auth) then pure [] else (do
      enabled ← get_enable_auth f
      if enabled then (do d ← Info.dump f; pure (d ∷ [])) else pure [])
    rest ← dump_fabrics fs
    pure (here ++ rest)

  -- `dump`
  unfoldable pub dump : Udev → M RootDump
  unfolding dump_targets dump_fabrics
  dump u = do
    node ← Node.dump configfs_dir
    check_self configfs_dir
    w ← get_world
    sos ← map_m (so_dirs w.fs) (λ d. do so ← so_from_path d.0 d.1; Dump.dump u so)
    check_self configfs_dir
    targets ← dump_targets fabric_modules
    check_self configfs_dir
    fabrics ← dump_fabrics fabric_modules
    pure
        (record { node = node; storage_objects = sos; targets = targets; fabric_modules = fabrics })

  -- `_get_saveconf` up to the place where it raises: `with Path(save_file).open as f` does not call
  -- `open`, and a method is no context manager, so that the merge behind it is not reached.
  unfoldable pub get_saveconf : Udev → M RootDump
  unfolding dump
  get_saveconf u = do dump u; raise type_error

  -- What `save_to_file` saves; an empty path is none.
  unfoldable pub saved_config : Udev → Option Text → M RootDump
  unfolding get_saveconf dump
  saved_config u none = dump u
  saved_config u (some so_path) = get_saveconf u

  -- `_list_alua_tpgs`: the groups of all storage objects, by what is read of each.
  unfoldable pub from_root_alua_tpgs : {A : Type 0} → (FsPath → Text → M A) → M (List (List A))
  from_root_alua_tpgs read = do
    check_self configfs_dir
    check_self configfs_dir
    w ← get_world
    map_m (so_dirs w.fs) (λ d. do so ← so_from_path d.0 d.1; from_alua_tpgs so read)
