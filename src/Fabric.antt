-- ===== src/Fabric.antt =====
-- The fabric modules of rtslib/fabric.py: what each subclass of `_BaseFabricModule` sets, its two
-- conversions of WWNs, and the table `fabric_modules`.
pub mod RoundTrip
pub mod Discovery
pub mod Info
mod Tests
use rtslib_fb.Prelude.{
  ℕ, Bool, true, false, not, ◌&&◌, Option, none, some, List, [], ◌∷◌, ◌++◌, any, Text, codes,
  text_eq, without, drop, if◌then◌else◌, Result, ok, err, rtslib_error, key_error,
}
use rtslib_fb.Wwn.{WwnType, free, iqn, naa, eui, ib, colonize, normalize_wwn}

-- The classes.
pub data Fabric : Type 0 where
  srpt iscsi loopback qla2xxx efct sbp tcm_fc usb_gadget vhost xen_pvscsi ibmvscsis : Fabric

pub data Feature : Type 0 where
  discovery_auth acls auth nps tpgts cpus_allowed_list nexus acls_auth : Feature

abbrev pub feature_eq : Feature → Feature → Bool
feature_eq discovery_auth discovery_auth = true
feature_eq acls acls = true
feature_eq auth auth = true
feature_eq nps nps = true
feature_eq tpgts tpgts = true
feature_eq cpus_allowed_list cpus_allowed_list = true
feature_eq nexus nexus = true
feature_eq acls_auth acls_auth = true
feature_eq f g = false

-- `self.name`
abbrev pub name : Fabric → Text
name srpt = codes "srpt"
name iscsi = codes "iscsi"
name loopback = codes "loopback"
name qla2xxx = codes "qla2xxx"
name efct = codes "efct"
name sbp = codes "sbp"
name tcm_fc = codes "tcm_fc"
name usb_gadget = codes "usb_gadget"
name vhost = codes "vhost"
name xen_pvscsi = codes "xen-pvscsi"
name ibmvscsis = codes "ibmvscsis"

-- The last component of `self._path`.
abbrev pub cfs_dir : Fabric → Text
cfs_dir tcm_fc = codes "fc"
cfs_dir f = name f

-- `self.features`; the base class's where a subclass sets none.
unfoldable pub features : Fabric → List Feature
features srpt = acls ∷ []
features iscsi = discovery_auth ∷ acls ∷ auth ∷ nps ∷ tpgts ∷ cpus_allowed_list ∷ []
features loopback = nexus ∷ []
features qla2xxx = acls ∷ []
features efct = acls ∷ []
features sbp = []
features tcm_fc = acls ∷ []
features usb_gadget = nexus ∷ []
features vhost = nexus ∷ acls ∷ tpgts ∷ []
features xen_pvscsi = nexus ∷ tpgts ∷ []
features ibmvscsis = []

-- `self.wwn_types`
unfoldable pub wwn_types : Fabric → List WwnType
wwn_types srpt = ib ∷ []
wwn_types iscsi = iqn ∷ naa ∷ eui ∷ []
wwn_types loopback = naa ∷ []
wwn_types qla2xxx = naa ∷ []
wwn_types efct = naa ∷ []
wwn_types sbp = eui ∷ []
wwn_types tcm_fc = naa ∷ []
wwn_types usb_gadget = naa ∷ []
wwn_types vhost = naa ∷ []
wwn_types xen_pvscsi = naa ∷ []
wwn_types ibmvscsis = free ∷ []

-- `self.kernel_module`; the base class's is the name with "_target_mod".
unfoldable pub kernel_module : Fabric → Text
kernel_module srpt = codes "ib_srpt"
kernel_module iscsi = codes "iscsi_target_mod"
kernel_module loopback = codes "tcm_loop"
kernel_module qla2xxx = codes "tcm_qla2xxx"
kernel_module efct = codes "efct"
kernel_module sbp = codes "sbp_target"
kernel_module tcm_fc = codes "tcm_fc"
kernel_module usb_gadget = codes "tcm_usb_gadget"
kernel_module vhost = codes "tcm_vhost"
kernel_module xen_pvscsi = codes "xen-scsiback"
kernel_module ibmvscsis = codes "ibmvscsis"

-- `acls_auth` is a renamed feature.
unfoldable pub has_feature : Fabric → Feature → Bool
unfolding features
has_feature f acls_auth = any (feature_eq auth) (features f)
has_feature f x = any (feature_eq x) (features f)

unfoldable pub assert_feature : Fabric → Feature → Result (Unit {0})
unfolding has_feature
assert_feature f x =
    if has_feature f x
    then ok tt
    else err (rtslib_error "Fabric module does not implement the feature")

-- `wwns` is None in the base class, and a generator, which is true and not None, in the five
-- classes that list the names of local ports.
unfoldable pub needs_wwn : Fabric → Bool
needs_wwn sbp = true
needs_wwn qla2xxx = true
needs_wwn efct = true
needs_wwn srpt = true
needs_wwn tcm_fc = true
needs_wwn ibmvscsis = true
needs_wwn f = false

unfoldable pub to_normalized_wwn : Fabric → Text → Result (Text × WwnType)
unfolding wwn_types
to_normalized_wwn f w = normalize_wwn (wwn_types f) w

unfoldable pub to_fabric_wwn : Fabric → Text → Text
to_fabric_wwn sbp w = drop 4 w
to_fabric_wwn qla2xxx w = colonize (drop 4 w)
to_fabric_wwn efct w = colonize (drop 4 w)
to_fabric_wwn srpt w = codes "0x" ++ drop 3 w
to_fabric_wwn tcm_fc w = colonize (drop 4 w)
to_fabric_wwn f w = w

unfoldable pub from_fabric_wwn : Fabric → Text → Text
from_fabric_wwn sbp w = codes "eui." ++ w
from_fabric_wwn qla2xxx w = codes "naa." ++ without b':' w
from_fabric_wwn efct w = codes "naa." ++ without b':' w
from_fabric_wwn srpt w = codes "ib." ++ drop 2 w
from_fabric_wwn tcm_fc w = codes "naa." ++ without b':' w
from_fabric_wwn f w = w

-- The table; `usb_gadget` is commented out in it.
unfoldable pub fabric_modules : List Fabric
fabric_modules =
    srpt ∷ iscsi ∷ loopback ∷ qla2xxx ∷ efct ∷ sbp ∷ tcm_fc ∷ vhost ∷ xen_pvscsi ∷ ibmvscsis ∷ []

unfoldable pub find_fabric : Text → List Fabric → Option Fabric
find_fabric n [] = none
find_fabric n (f ∷ fs) = let rest = find_fabric n fs in if text_eq n (name f) then some f else rest

-- `FabricModule(name)`
unfoldable pub fabric_module : Text → Result Fabric
unfolding find_fabric fabric_modules
fabric_module n = elim (find_fabric n fabric_modules) [ none ↦ err key_error | some f ↦ ok f ]

-- `target_names_excludes`
abbrev pub target_names_excludes : List Text
target_names_excludes =
    codes "lio_version" ∷ codes "version" ∷ codes "discovery_auth" ∷ codes "cpus_allowed_list" ∷ []

unfoldable pub is_target_name : Text → Bool
is_target_name n = not (any (text_eq n) target_names_excludes)
