-- ===== src/Root.antt =====
-- `restore` of rtslib/root.py. An option that is empty is none, as in Python.
mod Clear
unfoldable pub use Clear.{
  selected, for_targets, for_storage_objects, clear_target, clear_so, clear_existing,
  loaded_targets,
}
pub use Clear.{given}
pub mod SaveFile
pub mod Precheck
pub mod Lists
mod Tests
use rtslib_fb.Prelude.{
  ℕ, Bool, true, false, not, ◌&&◌, ◌||◌, Option, none, some, List, [], ◌∷◌, ◌++◌, is_empty,
  any as any_of, has, keep, Text, codes, text_eq, String, Exn, Result, ok, err, rtslib_error,
  alua_not_supported, key_error, if◌then◌else◌, Json,
}
use rtslib_fb.Fabric.{
  Fabric, fabric_modules, find_fabric, fabric_module, has_feature, discovery_auth, is_target_name,
  from_fabric_wwn,
}
use rtslib_fb.Fabric
use rtslib_fb.Fabric.Discovery.{SavedFabric, clear_discovery_auth_settings, setup_fabric}
use rtslib_fb.Cfs.{
  FsPath, Fs, Kernel, World, M, pure, raise, lift, get_world, ◌>>=◌, ◌>>◌, raise_if, when,
  try_except, any_exn, for_each, for_until, map_m, collect_error, is_dir_in, children, rmdir,
  listdir,
}
use rtslib_fb.Node
use rtslib_fb.Node.{Mode, configfs_dir, core_dir, check_self, exists}
use rtslib_fb.Devices.{Udev}
use rtslib_fb.Alua
use rtslib_fb.Alua.{SavedGroup}
use rtslib_fb.Tcm.Backstore.{Plugin, plugin_name, so_mapping, so_dirs}
use rtslib_fb.Tcm.Lookup
use rtslib_fb.Tcm.Lookup.{StorageObject, cls, so_from_path, alua_supported}
use rtslib_fb.Tcm.Delete
use rtslib_fb.Tcm.Create.{SoArgs, so_new}
use rtslib_fb.Target.Objects.{Target, fabric_path, target_init}
use rtslib_fb.Target.Delete.{delete_target}
use rtslib_fb.Setup.{SavedTarget, ErrFunc, set_attributes, setup_target}

-- A storage object of a configuration; `args` are its keys without exists, attributes, plugin,
-- buffered_mode and alua_tpgs, which `dict_remove` takes out.
pub record SavedSo : Type 0 where
  pub name : Option Text
  pub plugin : Option Text
  pub args : SoArgs
  pub attributes : List (Text × Json)
  pub alua_tpgs : List SavedGroup

pub record Config : Type 0 where
  pub storage_objects : List SavedSo
  pub fabric_modules : List SavedFabric
  pub targets : List SavedTarget

abbrev pub is_no_alua : Exn → Bool
is_no_alua alua_not_supported = true
is_no_alua e = false

-- `config_so['name'] == loaded_so.name and config_so['plugin'] == loaded_so.plugin`
unfoldable pub so_clash : SavedSo → StorageObject → Result Bool
so_clash s so = elim s.name [
  | none ↦ err key_error
  | some n ↦
      (if text_eq n so.name
        then elim s.plugin [ none ↦ err key_error | some p ↦ ok (text_eq p (plugin_name (cls so))) ]
        else ok false)
]

-- `config_tg['wwn'] == loaded_tg.wwn`
unfoldable pub target_clash : SavedTarget → Target → Result Bool
target_clash s t = elim s.wwn [ none ↦ err key_error | some w ↦ ok (text_eq w t.wwn) ]

-- The two nested loops: the first pair that is equal raises.
module _ {S L : Type 0} (clash : S → L → Result Bool) (message : String) where
  unfoldable pub check_against : S → List L → Result (Unit {0})
  check_against s [] = ok tt
  check_against s (l ∷ ls) =
      let rest = check_against s ls in
      elim (clash s l) [ err e ↦ err e | ok b ↦ (if b then err (rtslib_error message) else rest) ]

  unfoldable pub check_all : List S → List L → Result (Unit {0})
  unfolding check_against
  check_all [] ls = ok tt
  check_all (s ∷ ss) ls =
      let rest = check_all ss ls in elim (check_against s ls) [ err e ↦ err e | ok u ↦ rest ]

-- The refusal to restore over what is loaded. Where nothing is loaded nothing is compared.
unfoldable pub precheck : Config → List StorageObject → List Target → Result (Unit {0})
unfolding so_clash target_clash check_all
precheck c sos ts =
    elim (check_all so_clash "storageobject exist not restoring" c.storage_objects sos) [
      | err e ↦ err e
      | ok u ↦ check_all target_clash "target with wwn exist, not restoring" c.targets ts
    ]

plugin_of : Option Text → Option Plugin
unfolding so_mapping
plugin_of none = none
plugin_of (some p) = so_mapping p

module _ ⦃k : Kernel⦄ (u : Udev) (page : ℕ) (err_func : ErrFunc) where
  -- One round of the loop over the storage objects; the result tells whether to break.
  unfoldable pub restore_so : Option Text → Option Text → SavedSo → M Bool
  unfolding selected plugin_of
  restore_so target storage_object s = elim s.name [
    | none ↦ (do err_func "'name' not defined in storage object"; pure false)
    | some name ↦
        (if not (selected storage_object target name)
          then pure false
          else elim (plugin_of s.plugin) [
            | none ↦ (do
              err_func "'plugin' not defined or invalid in storageobject"
              pure (given storage_object))
            | some c ↦ (do
              made ←
                  try_except (do so ← so_new u page c s.args; pure (some so)) any_exn
                    (λ e. do err_func "Could not create StorageObject"; pure none)
              elim made [
                | none ↦ pure (given storage_object)
                | some so ↦ (do
                  set_attributes so.path s.attributes err_func
                  for_each s.alua_tpgs (λ g.
                      try_except (Alua.setup (alua_supported (cls so) so.path) so.path g) is_no_alua
                        (λ e. pure tt))
                  pure (given storage_object))
              ])
          ])
  ]

  -- One round of the loop over the fabric modules.
  unfoldable pub restore_fabric : SavedFabric → M (Unit {0})
  restore_fabric s = elim s.name [
    | none ↦ err_func "'name' not defined in fabricmodule"
    | some n ↦ elim (find_fabric n fabric_modules) [
      | none ↦ pure tt
      | some f ↦ setup_fabric f s err_func
    ]
  ]

  -- One round of the loop over the targets.
  unfoldable pub restore_target : Option Text → Option Text → SavedTarget → M Bool
  unfolding selected
  restore_target target storage_object s = elim s.wwn [
    | none ↦ (do err_func "'wwn' not defined in target"; pure false)
    | some w ↦
        (if not (selected target storage_object w) then pure false else elim s.fabric [
          | none ↦ (do err_func "target missing 'fabric' field"; pure (given target))
          | some n ↦ elim (find_fabric n fabric_modules) [
            | none ↦ (do err_func "Unknown fabric"; pure (given target))
            | some f ↦ (do setup_target f s err_func; pure (given target))
          ]
        ])
  ]

  -- The three loops.
  unfoldable pub restore_all : Config → Option Text → Option Text → M (Unit {0})
  unfolding restore_so restore_fabric restore_target
  restore_all c target storage_object = do
    for_until c.storage_objects (restore_so target storage_object)
    for_each c.fabric_modules restore_fabric
    for_until c.targets (restore_target target storage_object)

module _ ⦃k : Kernel⦄ (u : Udev) (page : ℕ) where
  -- `restore`: the list of errors is that of the world, and is empty at the start.
  unfoldable pub restore : Config → Option Text → Option Text → Bool → Bool → M (List String)
  unfolding clear_existing loaded_targets precheck restore_all
  restore c target storage_object clear abort = do
    if clear
        then clear_existing target storage_object true
        else (do sos ← Lookup.all; ts ← loaded_targets; lift (precheck c sos ts))
    λ w. (ok tt, record w { errors = [] })
    restore_all u page (if abort then (λ s. raise (rtslib_error s)) else collect_error) c target
        storage_object
    w ← get_world
    pure w.errors
