-- ===== src/Setup/RoundTrip.antt =====
-- What LUN.dump of rtslib/target.py writes of a storage object, and what LUN.setup reads of it.
use rtslib_fb.Prelude.{◌≡◌, refl, false, some, Text, has, split, arith}
use rtslib_fb.Prelude.Split.{split_absent}
use rtslib_fb.Tcm.Backstore.{Plugin, pscsi, ramdisk, fileio, block, user, plugin_name, so_mapping}
use rtslib_fb.Tcm.Lookup.{has_bad_char}
use rtslib_fb.Target.Dump.{storage_object_field}
use rtslib_fb.Setup.{so_names}

two_lem :
    (c : Plugin) (name : Text)
    → has b'/' name ≡ false
    → so_names (some (storage_object_field (plugin_name c) name)) ≡ some (plugin_name c, name)
unfolding so_names storage_object_field split
two_lem pscsi name h = rw (split_absent b'/' name h)
two_lem ramdisk name h = rw (split_absent b'/' name h)
two_lem fileio name h = rw (split_absent b'/' name h)
two_lem block name h = rw (split_absent b'/' name h)
two_lem user name h = rw (split_absent b'/' name h)

-- The field that a dump writes for a LUN's storage object gives back to a restore the plugin and the
-- name of the object, for every class and every name that an object may have; and the plugin's name
-- gives back the class.
pub so_names-storage_object_field :
    (c : Plugin) (name : Text)
    → has_bad_char name ≡ false
    → (so_names (some (storage_object_field (plugin_name c) name)) ≡ some (plugin_name c, name))
      × (so_mapping (plugin_name c) ≡ some c)
unfolding so_mapping
so_names-storage_object_field c name h = (two_lem c name (ground arith), of_plugin c)
  where
    of_plugin : (d : Plugin) → so_mapping (plugin_name d) ≡ some d
    of_plugin pscsi = refl
    of_plugin ramdisk = refl
    of_plugin fileio = refl
    of_plugin block = refl
    of_plugin user = refl
