-- ===== src/Fabric/Discovery.antt =====
-- The discovery authentication of a fabric module and its other settings (rtslib/fabric.py).
use rtslib_fb.Prelude.{
  Bool, false, Option, none, some, List, [], ◌∷◌, ◌++◌, Text, codes, String, pos, negsuc, Json,
  to_int, to_text, attribute_error, if◌then◌else◌, ◌==◌,
}
use rtslib_fb.Fabric.{Fabric, discovery_auth, cpus_allowed_list, assert_feature}
use rtslib_fb.Cfs.{
  FsPath, Kernel, M, pure, raise, lift, ◌>>=◌, ◌>>◌, try_except, any_exn, for_each, fread, fwrite,
}
use rtslib_fb.Auth.{set_auth_attr}
use rtslib_fb.Target.Objects.{fabric_path, fabric_check_self}
use rtslib_fb.Tcm.Lookup.{int_flag}

-- The names that `setup` sets; any other is set on the object alone.
pub data FabricItem : Type 0 where
  userid password mutual_userid mutual_password enable_auth cpus read_only other : FabricItem

pub record SavedFabric : Type 0 where
  pub name : Option Text
  pub items : List (FabricItem × Json)

abbrev pub disc_path : Text → FsPath
disc_path file = file ∷ codes "discovery_auth" ∷ []

abbrev disc_file : FabricItem → Option Text
disc_file userid = some (codes "userid")
disc_file password = some (codes "password")
disc_file mutual_userid = some (codes "userid_mutual")
disc_file mutual_password = some (codes "password_mutual")
disc_file i = none

module _ ⦃k : Kernel⦄ where
  -- `_set_disc_attr`
  unfoldable pub set_disc_attr : Fabric → Text → Text → M (Unit {0})
  set_disc_attr f file value = do
    lift (assert_feature f discovery_auth)
    set_auth_attr (fabric_check_self f) (fabric_path f) value (disc_path file) false

  -- `_set_discovery_enable_auth`
  unfoldable pub set_enable_auth : Fabric → Json → M (Unit {0})
  set_enable_auth f value = do
    fabric_check_self f
    lift (assert_feature f discovery_auth)
    n ← lift (to_int value)
    fwrite (disc_path (codes "enforce_discovery_auth") ++ fabric_path f)
        (elim n [ pos m ↦ (if m == 0 then codes "0" else codes "1") | negsuc m ↦ codes "1" ])

  -- `_get_discovery_enable_auth`
  unfoldable pub get_enable_auth : Fabric → M Bool
  get_enable_auth f = do
    fabric_check_self f
    lift (assert_feature f discovery_auth)
    s ← fread (disc_path (codes "enforce_discovery_auth") ++ fabric_path f)
    lift (int_flag s)

  -- `clear_discovery_auth_settings`
  unfoldable pub clear_discovery_auth_settings : Fabric → M (Unit {0})
  unfolding set_disc_attr set_enable_auth
  clear_discovery_auth_settings f = do
    fabric_check_self f
    lift (assert_feature f discovery_auth)
    set_disc_attr f (codes "password_mutual") []
    set_disc_attr f (codes "userid_mutual") []
    set_disc_attr f (codes "password") []
    set_disc_attr f (codes "userid") []
    set_enable_auth f (Json.bool false)

  -- `_get_cpus_allowed_list` and `_set_cpus_allowed_list`
  unfoldable pub get_cpus_allowed_list : Fabric → M Text
  get_cpus_allowed_list f = do
    fabric_check_self f
    lift (assert_feature f cpus_allowed_list)
    fread (codes "cpus_allowed_list" ∷ fabric_path f)

  unfoldable pub set_cpus_allowed_list : Fabric → Json → M (Unit {0})
  set_cpus_allowed_list f value = do
    fabric_check_self f
    lift (assert_feature f cpus_allowed_list)
    fwrite (codes "cpus_allowed_list" ∷ fabric_path f) (to_text value)

  -- `setattr(self, name, value)`
  unfoldable pub set_fabric_item : Fabric → FabricItem → Json → M (Unit {0})
  unfolding set_disc_attr set_enable_auth set_cpus_allowed_list
  set_fabric_item f enable_auth value = set_enable_auth f value
  set_fabric_item f cpus value = set_cpus_allowed_list f value
  set_fabric_item f read_only value = raise attribute_error
  set_fabric_item f other value = pure tt
  set_fabric_item f item (Json.text s) = elim (disc_file item) [
    | none ↦ pure tt
    | some file ↦ set_disc_attr f file s
  ]
  set_fabric_item f item value = do
    lift (assert_feature f discovery_auth)
    fabric_check_self f
    raise attribute_error

  -- `setup`
  unfoldable pub setup_fabric : Fabric → SavedFabric → (String → M (Unit {0})) → M (Unit {0})
  unfolding set_fabric_item
  setup_fabric f s err_func = for_each s.items (λ i.
      try_except (set_fabric_item f i.0 i.1) any_exn
        (λ e. err_func "Could not set fabric attribute"))
