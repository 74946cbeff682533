-- ===== src/Fabric/Tests.antt =====
-- A name of a Fibre Channel target on its way into configFS and back (rtslib/fabric.py).
use rtslib_fb.Prelude.{◌≡◌, refl, Text, codes, ok}
use rtslib_fb.Wwn.{WwnType, naa}
use rtslib_fb.Fabric.{qla2xxx, to_normalized_wwn, to_fabric_wwn, from_fabric_wwn}
use rtslib_fb.Fabric.RoundTrip.{from_fabric_wwn-to_fabric_wwn}

abbrev wwpn : Text
wwpn = codes "naa.5001405ab12cd34e"

normal : to_normalized_wwn qla2xxx (codes "50:01:40:5a:b1:2c:d3:4e") ≡ ok (wwpn, naa)
unfolding to_normalized_wwn rtslib_fb.Wwn.normalize_wwn
normal = refl

-- The directory's name.
in_configfs : to_fabric_wwn qla2xxx wwpn ≡ codes "50:01:40:5a:b1:2c:d3:4e"
unfolding to_fabric_wwn rtslib_fb.Wwn.colonize
in_configfs = refl

from_fabric_wwn-to_fabric_wwn_example : from_fabric_wwn qla2xxx (to_fabric_wwn qla2xxx wwpn) ≡ wwpn
from_fabric_wwn-to_fabric_wwn_example =
    from_fabric_wwn-to_fabric_wwn qla2xxx (codes "50:01:40:5a:b1:2c:d3:4e") wwpn naa normal
