-- ===== src/Target/Deleted.antt =====
-- That an object of rtslib/target.py is gone from configFS where its `delete` returns.
use rtslib_fb.Prelude.{
  ◌≡◌, ap, Bool, Result, false, Option, none, some, List, [], ◌∷◌, codes, Text, ok,
}
use rtslib_fb.Cfs.{FsPath, is_dir_in, Kernel, World, M, pure, ◌>>=◌, ◌>>◌, is_dir, unlink}
use rtslib_fb.Cfs.Laws.{RemovesDirectories, Ends, bind-Ends, steps, steps-Ends}
use rtslib_fb.Node.Create.{delete-is_dir_in}
use rtslib_fb.Node
use rtslib_fb.Node.{exists, check_self}
use rtslib_fb.Target.Objects.{Target, Tpg, Lun, NetworkPortal, NodeAcl, MappedLun, for_tpgs}
use rtslib_fb.Target.Children.{for_luns, for_node_acls, for_mapped_luns, for_portals}
use rtslib_fb.Target.Delete.{
  alias_or_none, set_portal_flag, set_enable, delete_mapped_luns, delete_target, delete_tpg,
  delete_lun, delete_portal, delete_node_acl, delete_mapped_lun,
}

-- The objects that have a `delete`.
pub data Object : Type 0 where
  of_target : Target → Object
  of_tpg : Tpg → Object
  of_lun : Lun → Object
  of_portal : NetworkPortal → Object
  of_acl : NodeAcl → Object
  of_mapped_lun : MappedLun → Object

abbrev pub object_path : Object → FsPath
object_path (of_target t) = t.path
object_path (of_tpg t) = t.path
object_path (of_lun l) = l.path
object_path (of_portal np) = np.path
object_path (of_acl acl) = acl.path
object_path (of_mapped_lun m) = m.path

module _ ⦃k : Kernel⦄ where
  -- `obj.delete()`
  unfoldable pub delete_object : Object → M (Unit {0})
  delete_object (of_target t) = delete_target t
  delete_object (of_tpg t) = delete_tpg t
  delete_object (of_lun l) = delete_lun l
  delete_object (of_portal np) = delete_portal np
  delete_object (of_acl acl) = delete_node_acl acl
  delete_object (of_mapped_lun m) = delete_mapped_lun m

  module _ (law : RemovesDirectories k) where
    -- The directory is gone.
    abbrev Gone : FsPath → World → Type 0
    Gone p w = is_dir_in p w.fs ≡ false

    delete-Gone : (p : FsPath) → Ends (Gone p) (Node.delete p)
    delete-Gone p w w' h = delete-is_dir_in ⦃k = k⦄ law p w w' h

    steps-Gone : (ms : List (M (Unit {0}))) (p : FsPath) → Ends (Gone p) (steps ms (Node.delete p))
    steps-Gone ms p = steps-Ends (Gone p) ms (Node.delete p) (delete-Gone p)

    -- The link of an object is removed first.
    abbrev unlinked : FsPath → Option Text → M (Unit {0})
    unlinked p alias =
        steps (elim alias [ none ↦ pure tt | some n ↦ unlink (n ∷ p) ] ∷ []) (Node.delete p)

    unlinked-Gone : (p : FsPath) → Ends (Gone p) (alias_or_none p >>= unlinked p)
    unlinked-Gone p =
        bind-Ends (Gone p) (alias_or_none p) (unlinked p)
          (λ a. steps-Gone (elim a [ none ↦ pure tt | some n ↦ unlink (n ∷ p) ] ∷ []) p)

    delete_object-Gone : (o : Object) → Ends (Gone (object_path o)) (delete_object o)
    unfolding delete_object delete_target delete_tpg delete_lun delete_portal delete_node_acl
        delete_mapped_lun
    delete_object-Gone (of_target t) =
        steps-Gone (check_self t.path ∷ for_tpgs t delete_tpg ∷ []) t.path
    delete_object-Gone (of_tpg t) =
        steps-Gone
          (check_self t.path
            ∷ set_enable t false
            ∷ for_node_acls t delete_node_acl
            ∷ for_luns t delete_lun
            ∷ for_portals t delete_portal
            ∷ [])
          t.path
    delete_object-Gone (of_lun l) =
        bind-Ends (Gone l.path) (check_self l.path)
          (λ u. delete_mapped_luns l >> (alias_or_none l.path >>= unlinked l.path))
          (λ u.
            bind-Ends (Gone l.path) (delete_mapped_luns l)
              (λ v. alias_or_none l.path >>= unlinked l.path) (λ v. unlinked-Gone l.path))
    delete_object-Gone (of_portal np) =
        steps-Gone
          (set_portal_flag np (codes "iser") false ∷ set_portal_flag np (codes "cxgbit") false ∷ [])
          np.path
    delete_object-Gone (of_acl acl) =
        steps-Gone (check_self acl.path ∷ for_mapped_luns acl delete_mapped_lun ∷ []) acl.path
    delete_object-Gone (of_mapped_lun m) =
        bind-Ends (Gone m.path) (check_self m.path) (λ u. alias_or_none m.path >>= unlinked m.path)
          (λ u. unlinked-Gone m.path)

  -- With a kernel whose rmdir removes the directory: where the deletion of a target, a TPG, a LUN, a
  -- portal, a node ACL or a mapped LUN returns, whatever it deleted below, the object is not in
  -- configFS.
  pub exists-delete_object :
      (o : Object) (w w' : World)
      → RemovesDirectories k
      → delete_object o w ≡ (ok tt, w')
      → exists (object_path o) w' ≡ (ok false, w')
  unfolding exists is_dir
  exists-delete_object o w w' removes h = ap with_world (delete_object-Gone removes o w w' h)
    where
      with_world : Bool → Result Bool × World
      with_world b = (ok b, w')
