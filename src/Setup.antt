-- ===== src/Setup.antt =====
-- The `setup` methods of rtslib/target.py: they rebuild objects from the dictionaries of a saved
-- configuration, and report what is wrong with one by `err_func`. A dictionary is a record whose
-- optional keys are options; the keys that a `setattr` loop goes through are `items`.
mod Saved
mod Items
pub use Saved.*
unfoldable pub use Items.{set_tcq_depth, set_acl_tag, set_acl_item, set_tpg_item}
pub mod RoundTrip
pub mod Errors
mod Tests
use rtslib_fb.Prelude.{
  ℕ, zero, suc, Bool, true, false, not, ◌&&◌, ◌||◌, Option, none, some, List, [], ◌∷◌, ◌++◌,
  is_empty, drop, Text, codes, text_eq, split, String, ℤ, pos, negsuc, Json, to_int, to_text,
  truthy, Exn, Result, ok, err, rtslib_error, is_os, is_rtslib, is_rtslib_or_key, key_error,
  attribute_error, type_error, unbound_local, if◌then◌else◌,
}
use rtslib_fb.Fabric.{Fabric}
use rtslib_fb.Cfs.{
  FsPath, Fs, Kernel, World, M, pure, raise, lift, get_world, ◌>>=◌, ◌>>◌, raise_if, when,
  try_except, any_exn, for_each, map_m, fwrite,
}
use rtslib_fb.Node
use rtslib_fb.Node.{Mode}
use rtslib_fb.Auth.{set_auth_attr}
use rtslib_fb.Tcm.Backstore.{plugin_name, so_dirs}
use rtslib_fb.Tcm.Lookup.{StorageObject, cls, so_from_path}
use rtslib_fb.Target.Objects.{
  Target, Tpg, Lun, NetworkPortal, NodeAcl, MappedLun, target_init, tpg_init,
}
use rtslib_fb.Target.Children.{find_lun, portal_init, node_acl_init}
use rtslib_fb.Target.Delete.{set_portal_flag, set_enable}
use rtslib_fb.Target.Create.{TpgLun, lun_init, mapped_lun_init, set_alua_tg_pt_gp_name}

abbrev pub ErrFunc : Type 0
ErrFunc = String → M (Unit {0})

abbrev pub is_key : Exn → Bool
is_key key_error = true
is_key e = false

-- `lun['storage_object'].split('/')[2:]` into two names.
unfoldable pub so_names : Option Text → Option (Text × Text)
unfolding split
so_names none = none
so_names (some s) = two (drop 2 (split b'/' s))
  where
    two : List Text → Option (Text × Text)
    two (a ∷ b ∷ []) = some (a, b)
    two parts = none

module _ ⦃k : Kernel⦄ where
  -- `set_attributes` and `set_parameters` of rtslib/utils.py.
  unfoldable pub set_attributes : FsPath → List (Text × Json) → ErrFunc → M (Unit {0})
  set_attributes p attrs err_func = for_each attrs (λ a.
      try_except (Node.set_attribute p a.0 (to_text a.1)) is_rtslib
        (λ e. err_func "Cannot set attribute"))

  unfoldable pub set_parameters : FsPath → List (Text × Json) → ErrFunc → M (Unit {0})
  set_parameters p params err_func = for_each params (λ a.
      try_except (Node.set_parameter p a.0 (to_text a.1)) is_rtslib
        (λ e. err_func "Cannot set parameter"))

  -- The first storage object with a plugin and a name.
  search_so : Text → Text → List (Text × Text) → M (Option StorageObject)
  search_so plugin name [] = pure none
  search_so plugin name ((hba, n) ∷ dirs) = do
    so ← so_from_path hba n
    if text_eq name so.name && text_eq plugin (plugin_name (cls so))
        then pure (some so)
        else search_so plugin name dirs

  unfoldable pub find_so : Text → Text → M (Option StorageObject)
  unfolding search_so so_dirs
  find_so plugin name = do w ← get_world; search_so plugin name (so_dirs w.fs)

  -- The lines of `LUN.setup` behind the `try`: where the LUN could not be created, and its group is
  -- saved, `lun_obj` is not bound.
  unfoldable pub restore_group : Option Lun → Option Json → M (Unit {0})
  restore_group l none = pure tt
  restore_group none (some g) = raise unbound_local
  restore_group (some l) (some g) =
      try_except (do set_alua_tg_pt_gp_name l g; pure tt) is_key (λ e. pure tt)

  -- `lun_obj`, which is not bound where the LUN could not be created.
  unfoldable pub make_lun : Tpg → SavedLun → ErrFunc → ℤ → StorageObject → M (Option Lun)
  make_lun t s err_func i so =
      try_except (do l ← lun_init t (some (Json.number i)) (some so) s.alias; pure (some l))
        is_rtslib_or_key (λ e. do err_func "Creating TPG LUN index failed"; pure none)

  unfoldable pub setup_lun_on : Tpg → SavedLun → ErrFunc → ℤ → Option StorageObject → M (Unit {0})
  unfolding make_lun restore_group
  setup_lun_on t s err_func i none = err_func "Could not find matching StorageObject for LUN"
  setup_lun_on t s err_func i (some so) = do
    made ← make_lun t s err_func i so
    restore_group made s.alua_tg_pt_gp_name

  -- `LUN.setup`
  unfoldable pub setup_lun : Tpg → SavedLun → ErrFunc → M (Unit {0})
  unfolding find_so setup_lun_on so_names
  setup_lun t s err_func = elim s.index [
    | none ↦ err_func "'index' missing from a LUN in TPG"
    | some i ↦ elim (so_names s.storage_object) [
      | none ↦ err_func "Malformed storage object field for LUN"
      | some (bs_name, so_name) ↦ find_so bs_name so_name >>= setup_lun_on t s err_func i
    ]
  ]

  -- `NetworkPortal.setup`
  unfoldable pub setup_portal : Tpg → SavedPortal → ErrFunc → M (Unit {0})
  setup_portal t s err_func = elim s.ip_address [
    | none ↦ err_func "'ip_address' field missing from a portal in TPG"
    | some ip ↦ elim s.port [
      | none ↦ err_func "'port' field missing from a portal in TPG"
      | some port ↦
          try_except
            (do
              np ← portal_init t ip port Mode.any
              set_portal_flag np (codes "iser") s.iser
              set_portal_flag np (codes "cxgbit") s.offload)
            is_rtslib_or_key (λ e. err_func "Creating NetworkPortal object failed")
    ]
  ]

  -- `MappedLUN.setup`
  unfoldable pub setup_mapped_lun : Tpg → NodeAcl → SavedMappedLun → ErrFunc → M (Unit {0})
  setup_mapped_lun t acl s err_func = elim s.tpg_lun [
    | none ↦ err_func "'tpg_lun' not in a mapped_lun"
    | some j ↦ elim s.index [
      | none ↦ err_func "'index' not in a mapped_lun"
      | some i ↦ (do
        found ← find_lun t j
        elim found [
          | none ↦ err_func "Could not find matching TPG LUN for MappedLUN"
          | some l ↦
              try_except
                (do
                  mapped_lun_init acl (Json.number i) (some (TpgLun.object l)) s.write_protect
                      s.alias
                  pure tt)
                is_rtslib_or_key (λ e. err_func "Creating MappedLUN object failed")
        ])
    ]
  ]

  -- `NodeACL.setup`: the handler of the last loop reads a key that is deleted by then.
  unfoldable pub setup_node_acl : Tpg → SavedAcl → ErrFunc → M (Unit {0})
  unfolding set_attributes setup_mapped_lun set_acl_item
  setup_node_acl t s err_func = elim s.node_wwn [
    | none ↦ err_func "'node_wwn' missing in node_acl"
    | some w ↦ (do
      made ←
          try_except (do acl ← node_acl_init t w Mode.any; pure (some acl)) is_rtslib
            (λ e. do err_func "Error when creating NodeACL"; pure none)
      elim made [
        | none ↦ pure tt
        | some acl ↦ (do
          set_attributes acl.path s.attributes err_func
          for_each s.mapped_luns (λ m. setup_mapped_lun t acl m err_func)
          for_each s.items (λ a.
              when (truthy a.1)
                (try_except (set_acl_item acl a.0 a.1) any_exn (λ e. raise key_error))))
      ])
  ]

  enable_or_default : Option Bool → Bool
  enable_or_default none = true
  enable_or_default (some b) = b

  -- `TPG.setup`
  unfoldable pub setup_tpg : Target → SavedTpg → ErrFunc → M (Unit {0})
  unfolding set_attributes set_parameters setup_lun setup_portal setup_node_acl set_tpg_item
      enable_or_default
  setup_tpg t s err_func = do
    tpg ← tpg_init t s.tag Mode.any
    set_attributes tpg.path s.attributes err_func
    set_parameters tpg.path s.parameters err_func
    for_each s.luns (λ l. setup_lun tpg l err_func)
    for_each s.portals (λ p. setup_portal tpg p err_func)
    for_each s.node_acls (λ a. setup_node_acl tpg a err_func)
    set_enable tpg (enable_or_default s.enable)
    for_each s.items (λ a. when (truthy a.1) (
        try_except (set_tpg_item tpg a.0 a.1) any_exn
          (λ e. err_func "Could not set tpg attribute")))

  -- `Target.setup`
  unfoldable pub setup_target : Fabric → SavedTarget → ErrFunc → M (Unit {0})
  unfolding setup_tpg
  setup_target f s err_func = elim s.wwn [
    | none ↦ err_func "'wwn' not defined for Target"
    | some w ↦ (do
      made ←
          try_except (do t ← target_init f (some w) Mode.any; pure (some t)) is_rtslib
            (λ e. do err_func "Could not create Target object"; pure none)
      elim made [ none ↦ pure tt | some t ↦ for_each s.tpgs (λ tpg. setup_tpg t tpg err_func) ])
  ]
