-- ===== src/Root/Clear.antt =====
-- The targets and storage objects that class RTSRoot of rtslib/root.py goes through, and
-- `clear_existing`. An option that is empty is none, as in Python.
use rtslib_fb.Prelude.{
  Bool, true, false, not, ◌&&◌, ◌||◌, Option, none, some, List, [], ◌∷◌, ◌++◌, has, keep, Text,
  text_eq, rtslib_error, if◌then◌else◌,
}
use rtslib_fb.Fabric.{
  Fabric, fabric_modules, has_feature, discovery_auth, is_target_name, from_fabric_wwn,
}
use rtslib_fb.Fabric.Discovery.{clear_discovery_auth_settings}
use rtslib_fb.Cfs.{
  Kernel, M, pure, get_world, ◌>>=◌, ◌>>◌, raise_if, when, for_each, for_until, map_m, is_dir_in,
  children, rmdir, listdir,
}
use rtslib_fb.Node.{Mode, configfs_dir, core_dir, check_self, exists}
use rtslib_fb.Tcm.Backstore.{so_dirs}
use rtslib_fb.Tcm.Lookup.{StorageObject, so_from_path}
use rtslib_fb.Tcm.Delete
use rtslib_fb.Target.Objects.{Target, fabric_path, target_init}
use rtslib_fb.Target.Delete.{delete_target}

-- `(not storage_object and not target) or (wanted and name == wanted)`, where `wanted` is the one
-- of the two options that the object is tested against and `instead` is the other.
unfoldable pub selected : Option Text → Option Text → Text → Bool
selected none none name = true
selected none (some o) name = false
selected (some w) instead name = text_eq name w

abbrev pub given : Option Text → Bool
given none = false
given (some t) = true

module _ ⦃k : Kernel⦄ where
  -- The targets of one fabric, up to the first at which `body` stops.
  targets_of : Fabric → List Text → (Target → M Bool) → M Bool
  targets_of f [] body = pure false
  targets_of f (n ∷ ns) body = do
    w ← get_world
    stop ←
        if is_dir_in (n ∷ fabric_path f) w.fs && is_target_name n
        then (do t ← target_init f (some (from_fabric_wwn f n)) Mode.lookup; body t)
        else pure false
    if stop then pure true else targets_of f ns body

  targets_in : List Fabric → (Target → M Bool) → M Bool
  unfolding targets_of
  targets_in [] body = pure false
  targets_in (f ∷ fs) body = do
    there ← exists (fabric_path f)
    stop ← if there then (do ns ← listdir (fabric_path f); targets_of f ns body) else pure false
    if stop then pure true else targets_in fs body

  -- `for t in self.targets: if body(t): break`
  unfoldable pub for_targets : (Target → M Bool) → M Bool
  unfolding targets_in
  for_targets body = do check_self configfs_dir; targets_in fabric_modules body

  -- `for so in self.storage_objects: if body(so): break`
  unfoldable pub for_storage_objects : (StorageObject → M Bool) → M (Unit {0})
  for_storage_objects body = do
    check_self configfs_dir
    w ← get_world
    for_until (so_dirs w.fs) (λ d. do so ← so_from_path d.0 d.1; body so)

  -- The loop body over the targets in `clear_existing`.
  unfoldable pub clear_target : Option Text → Option Text → Target → M Bool
  unfolding selected
  clear_target target storage_object t =
      if selected target storage_object t.wwn
      then (do delete_target t; pure (given target))
      else pure false

  -- The loop body over the storage objects.
  unfoldable pub clear_so : Option Text → Option Text → StorageObject → M Bool
  unfolding selected
  clear_so target storage_object so =
      if selected storage_object target so.name
      then (do Delete.delete so; pure (given storage_object))
      else pure false

  -- `core.glob('*_*')`, each removed.
  clear_hbas : M (Unit {0})
  clear_hbas = do
    w ← get_world
    for_each (keep (has b'_') (children core_dir w.fs)) (λ n. rmdir (n ∷ core_dir))

  -- `clear_existing`
  unfoldable pub clear_existing : Option Text → Option Text → Bool → M (Unit {0})
  unfolding for_targets for_storage_objects clear_target clear_so clear_hbas
  clear_existing target storage_object confirm = do
    raise_if (not confirm) (rtslib_error "As a precaution, confirm=True needs to be set")
    for_targets (clear_target target storage_object)
    for_each (keep (λ f. has_feature f discovery_auth) fabric_modules) clear_discovery_auth_settings
    for_storage_objects (clear_so target storage_object)
    when (not (given storage_object || given target)) clear_hbas

  -- `list(self.targets)`
  unfoldable pub loaded_targets : M (List Target)
  loaded_targets = do
    check_self configfs_dir
    w ← get_world
    found ← map_m fabric_modules (λ f. do
      there ← exists (fabric_path f)
      if there
          then (do
            names ← listdir (fabric_path f)
            map_m (keep (λ n. is_dir_in (n ∷ fabric_path f) w.fs && is_target_name n) names)
                (λ n. target_init f (some (from_fabric_wwn f n)) Mode.lookup))
          else pure [])
    pure (concat found)
    where
      concat : List (List Target) → List Target
      concat [] = []
      concat (ts ∷ rest) = ts ++ concat rest
