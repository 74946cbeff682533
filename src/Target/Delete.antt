-- ===== src/Target/Delete.antt =====
-- The `delete` methods of rtslib/target.py, and the setters that they call.
use rtslib_fb.Prelude.{
  Bool, true, false, not, Option, none, some, ◌∷◌, Text, codes, Exn, rtslib_error, is_os,
  broken_link, if◌then◌else◌,
}
use rtslib_fb.Fabric.{acls}
use rtslib_fb.Cfs.{
  FsPath, path_eq, Kernel, M, pure, raise, lift, get_world, ◌>>=◌, ◌>>◌, raise_if, when, try_except,
  link_target, is_file, fread, fwrite, unlink,
}
use rtslib_fb.Node
use rtslib_fb.Target.Objects.{
  Target, Tpg, Lun, NetworkPortal, NodeAcl, MappedLun, tpg_has, for_tpgs,
}
use rtslib_fb.Target.Children.{get_alias, for_luns, for_node_acls, for_mapped_luns, for_portals}
use rtslib_fb.Tcm.Lookup.{int_flag}

abbrev pub is_broken : Exn → Bool
is_broken broken_link = true
is_broken e = false

abbrev pub bool_eq : Bool → Bool → Bool
bool_eq true b = b
bool_eq false b = not b

abbrev pub flag_text : Bool → Text
flag_text b = if b then codes "1" else codes "0"

module _ ⦃k : Kernel⦄ where
  -- The link below an object, or none where the link is missing.
  pub alias_or_none : FsPath → M (Option Text)
  unfolding get_alias
  alias_or_none p = try_except (do n ← get_alias p; pure (some n)) is_broken (λ e. pure none)

  -- `MappedLUN.delete`; what the alias names is a link, by `_get_alias`.
  unfoldable pub delete_mapped_lun : MappedLun → M (Unit {0})
  unfolding alias_or_none
  delete_mapped_lun m = do
    Node.check_self m.path
    alias ← alias_or_none m.path
    elim alias [ none ↦ pure tt | some n ↦ unlink (n ∷ m.path) ]
    Node.delete m.path

  -- `mlun` in `lun.mapped_luns`: its link points at the LUN.
  points_at : MappedLun → FsPath → M Bool
  points_at m p = do
    alias ← get_alias m.path
    w ← get_world
    pure (elim (link_target (alias ∷ m.path) w.fs) [ none ↦ false | some q ↦ path_eq q p ])

  -- `for mlun in lun.mapped_luns: mlun.delete()`
  pub delete_mapped_luns : Lun → M (Unit {0})
  unfolding points_at delete_mapped_lun
  delete_mapped_luns l = do
    Node.check_self l.path
    if not (tpg_has l.tpg acls)
        then pure tt
        else for_node_acls l.tpg (λ acl.
          for_mapped_luns acl (λ m. do hit ← points_at m l.path; when hit (delete_mapped_lun m)))

  -- `LUN.delete`
  unfoldable pub delete_lun : Lun → M (Unit {0})
  unfolding alias_or_none delete_mapped_luns
  delete_lun l = do
    Node.check_self l.path
    delete_mapped_luns l
    alias ← alias_or_none l.path
    elim alias [ none ↦ pure tt | some n ↦ unlink (n ∷ l.path) ]
    Node.delete l.path

  -- `_set_iser` and `_set_offload`, on the files iser and cxgbit.
  unfoldable pub set_portal_flag : NetworkPortal → Text → Bool → M (Unit {0})
  set_portal_flag np name b = try_except (fwrite (name ∷ np.path) (flag_text b)) is_os (λ e. do
    there ← is_file (name ∷ np.path)
    raise_if there (rtslib_error "Cannot change iser or offload"))

  -- `NetworkPortal.delete`
  unfoldable pub delete_portal : NetworkPortal → M (Unit {0})
  unfolding set_portal_flag
  delete_portal np = do
    set_portal_flag np (codes "iser") false
    set_portal_flag np (codes "cxgbit") false
    Node.delete np.path

  -- `NodeACL.delete`
  unfoldable pub delete_node_acl : NodeAcl → M (Unit {0})
  unfolding delete_mapped_lun
  delete_node_acl acl = do
    Node.check_self acl.path
    for_mapped_luns acl delete_mapped_lun
    Node.delete acl.path

  -- `TPG._get_enable`
  unfoldable pub get_enable : Tpg → M Bool
  get_enable t = do
    Node.check_self t.path
    there ← is_file (codes "enable" ∷ t.path)
    if there then (do s ← fread (codes "enable" ∷ t.path); lift (int_flag s)) else pure true

  -- `TPG._set_enable`
  unfoldable pub set_enable : Tpg → Bool → M (Unit {0})
  unfolding get_enable
  set_enable t b = do
    Node.check_self t.path
    there ← is_file (codes "enable" ∷ t.path)
    when there (do
      now ← get_enable t
      when (not (bool_eq b now)) (
          try_except (fwrite (codes "enable" ∷ t.path) (flag_text b)) is_os
            (λ e. raise (rtslib_error "Cannot change enable state"))))

  -- `TPG.delete`
  unfoldable pub delete_tpg : Tpg → M (Unit {0})
  unfolding set_enable delete_node_acl delete_lun delete_portal
  delete_tpg t = do
    Node.check_self t.path
    set_enable t false
    for_node_acls t delete_node_acl
    for_luns t delete_lun
    for_portals t delete_portal
    Node.delete t.path

  -- `Target.delete`
  unfoldable pub delete_target : Target → M (Unit {0})
  unfolding delete_tpg
  delete_target t = do Node.check_self t.path; for_tpgs t delete_tpg; Node.delete t.path
