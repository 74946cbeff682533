-- ===== src/Fabric/Info.antt =====
-- What a fabric module tells of itself (rtslib/fabric.py): the names of the local ports, which the
-- classes read from sysfs, the version, the discovery settings and `dump`.
use rtslib_fb.Prelude.{
  Bool, false, not, ◌&&◌, ◌||◌, Option, none, some, List, [], ◌∷◌, ◌++◌, has, Text, codes, text_eq,
  starts_with, drop, after, without, is_os, attribute_error, if◌then◌else◌,
}
use rtslib_fb.Cfs.{
  FsPath, path_eq, Fs, Kernel, M, pure, raise, lift, get_world, ◌>>=◌, ◌>>◌, try_except, fread,
  listdir,
}
use rtslib_fb.Node
use rtslib_fb.Node.{NodeDump, exists}
use rtslib_fb.Auth.{get_auth_attr}
use rtslib_fb.Fabric.{
  Fabric, srpt, iscsi, loopback, qla2xxx, efct, sbp, tcm_fc, usb_gadget, vhost, xen_pvscsi,
  ibmvscsis, discovery_auth, has_feature, assert_feature, name,
}
use rtslib_fb.Fabric.Discovery.{disc_path, get_enable_auth}
use rtslib_fb.Target.Objects.{fabric_path, fabric_check_self}
use rtslib_fb.Tcm.Lookup.{int_flag}
use rtslib_fb.Target.Getters.{auth_params}
use rtslib_fb.Target.Dump.{add_chap}

abbrev under_sys : List Text → FsPath
under_sys names = names ++ codes "sys" ∷ []

abbrev firewire_dir : FsPath
firewire_dir = under_sys (codes "devices" ∷ codes "firewire" ∷ codes "bus" ∷ [])

abbrev fc_host_dir : FsPath
fc_host_dir = under_sys (codes "fc_host" ∷ codes "class" ∷ [])

abbrev infiniband_dir : FsPath
infiniband_dir = under_sys (codes "infiniband" ∷ codes "class" ∷ [])

abbrev vio_dir : FsPath
vio_dir =
    under_sys (codes "vio:ibmvscsis" ∷ codes "drivers" ∷ codes "ibmvscsis" ∷ codes "module" ∷ [])

-- `glob("<prefix>*/<file>")` of a directory.
abbrev two_below : FsPath → Text → Text → FsPath → Bool
two_below d prefix file (c ∷ n ∷ p) = text_eq c file && starts_with prefix n && path_eq p d
two_below d prefix file p = false

abbrev at_or_below : FsPath → FsPath → Bool
at_or_below d [] = path_eq [] d
at_or_below d (c ∷ p) = path_eq (c ∷ p) d || at_or_below d p

-- `glob("**/ports/*/gids/0")`
abbrev is_gid : FsPath → FsPath → Bool
is_gid d (zero ∷ gids ∷ n ∷ ports ∷ p) =
    text_eq zero (codes "0")
    && text_eq gids (codes "gids")
    && text_eq ports (codes "ports")
    && at_or_below d p
is_gid d p = false

unfoldable pub glob : (FsPath → Bool) → Fs → List FsPath
glob fits [] = []
glob fits ((p, e) ∷ fs) = if fits p then p ∷ glob fits fs else glob fits fs

-- `name[name.find("@") + 1:]`
abbrev behind_at : Text → Text
behind_at s = if has b'@' s then after b'@' s else s

abbrev sibling : Text → FsPath → FsPath
sibling n [] = n ∷ []
sibling n (c ∷ p) = n ∷ p

module _ ⦃k : Kernel⦄ where
  -- The first local GUID.
  firewire_wwns : List FsPath → M (List Text)
  firewire_wwns [] = pure []
  firewire_wwns (p ∷ ps) = do
    s ← fread p
    local ← lift (int_flag s)
    if not local
        then firewire_wwns ps
        else (do guid ← fread (sibling (codes "guid") p); pure ((codes "eui." ++ drop 2 guid) ∷ []))

  -- The ports whose device passes the test, less those that cannot be read.
  fc_wwns : (FsPath → Bool) → List FsPath → M (List Text)
  fc_wwns fits [] = pure []
  fc_wwns fits (p ∷ ps) = do
    here ←
        if not (fits p)
        then pure []
        else try_except (do s ← fread p; pure ((codes "naa." ++ drop 2 s) ∷ [])) is_os
            (λ e. pure [])
    rest ← fc_wwns fits ps
    pure (here ++ rest)

  read_each : (Text → Text) → List FsPath → M (List Text)
  read_each f [] = pure []
  read_each f (p ∷ ps) = do s ← fread p; rest ← read_each f ps; pure (f s ∷ rest)

  -- `wwns`; the names of the driver and of the subsystem of a port's device, behind links of sysfs,
  -- are arguments. None is a fabric that allows any name.
  unfoldable pub wwns : (FsPath → Text) → (FsPath → Text) → Fabric → M (Option (List Text))
  unfolding glob firewire_wwns fc_wwns read_each without after
  wwns driver subsystem f = do
    w ← get_world
    elim f [
      | sbp ↦
          found (firewire_wwns (glob (two_below firewire_dir (codes "fw") (codes "is_local")) w.fs))
      | qla2xxx ↦ found (fc_wwns (λ p. text_eq (driver p) (codes "qla2xxx")) (fc_ports w.fs))
      | efct ↦ found (fc_wwns (λ p. text_eq (driver p) (codes "efct")) (fc_ports w.fs))
      | tcm_fc ↦ found (fc_wwns (λ p. text_eq (subsystem p) (codes "fcoe")) (fc_ports w.fs))
      | srpt ↦
          found (read_each (λ s. codes "ib." ++ without b':' s) (glob (is_gid infiniband_dir) w.fs))
      | ibmvscsis ↦ found (read_each behind_at (glob (two_below vio_dir [] (codes "devspec")) w.fs))
      | iscsi ↦ pure none
      | loopback ↦ pure none
      | usb_gadget ↦ pure none
      | vhost ↦ pure none
      | xen_pvscsi ↦ pure none
    ]
    where
      fc_ports : Fs → List FsPath
      fc_ports fs = glob (two_below fc_host_dir (codes "host") (codes "port_name")) fs

      found : M (List Text) → M (Option (List Text))
      found m = do names ← m; pure (some names)

  -- `_get_version`: no class has the attribute `version_attributes`.
  unfoldable pub get_version : Fabric → M (Option Text)
  get_version f = do
    there ← exists (fabric_path f)
    if there then raise attribute_error else pure none

  -- `_get_discovery_authenticate_target`
  unfoldable pub get_discovery_authenticate_target : Fabric → M Bool
  get_discovery_authenticate_target f = do
    fabric_check_self f
    lift (assert_feature f discovery_auth)
    s ← fread (disc_path (codes "authenticate_target") ++ fabric_path f)
    lift (int_flag s)

  -- `_get_disc_attr`
  unfoldable pub get_disc_attr : Fabric → Text → M (Option Text)
  get_disc_attr f file = do
    lift (assert_feature f discovery_auth)
    get_auth_attr (fabric_check_self f) (fabric_path f) (disc_path file) false

  dump_disc : Fabric → List Text → M (List (Text × Text))
  unfolding get_disc_attr
  dump_disc f [] = pure []
  dump_disc f (a ∷ rest) = do
    value ← get_disc_attr f a
    d ← dump_disc f rest
    pure (add_chap a value d)

-- The settings of discovery are none where the fabric has no such feature.
pub record FabricDump : Type 0 where
  pub node : NodeDump
  pub name : Text
  pub discovery : Option (List (Text × Text) × Bool)

module _ ⦃k : Kernel⦄ where
  -- `dump`. Only the first `_check_self` can find the directory missing and load the module.
  unfoldable pub dump : Fabric → M FabricDump
  unfolding dump_disc
  dump f = do
    fabric_check_self f
    node ← Node.dump (fabric_path f)
    if not (has_feature f discovery_auth)
        then pure (record { node = node; name = name f; discovery = none })
        else (do
          d ← dump_disc f auth_params
          enabled ← get_enable_auth f
          pure (record { node = node; name = name f; discovery = some (d, enabled) }))

  -- `FabricModule.list_registered_drivers`
  unfoldable pub list_registered_drivers : M (List Text)
  list_registered_drivers =
      try_except
        (listdir (under_sys (codes "holders" ∷ codes "target_core_mod" ∷ codes "module" ∷ [])))
        is_os (λ e. pure [])
