-- ===== src/Target/Factories.antt =====
-- The methods of rtslib/target.py that make an object below the one they are called on:
-- `TPG.node_acl`, `network_portal` and `lun` and `NodeACL.mapped_lun`.
use rtslib_fb.Prelude.{Option, none, Text, Json}
use rtslib_fb.Cfs.{Kernel, M, ◌>>◌}
use rtslib_fb.Node
use rtslib_fb.Node.{Mode}
use rtslib_fb.Tcm.Lookup.{StorageObject}
use rtslib_fb.Target.Objects.{Tpg, Lun, NetworkPortal, NodeAcl, MappedLun}
use rtslib_fb.Target.Children.{node_acl_init, portal_init}
use rtslib_fb.Target.Create.{TpgLun, lun_init, mapped_lun_init}

module _ ⦃k : Kernel⦄ where
  -- `TPG.node_acl`
  pub new_node_acl : Tpg → Text → Mode → M NodeAcl
  new_node_acl t w mode = do Node.check_self t.path; node_acl_init t w mode

  -- `TPG.network_portal`
  pub new_network_portal : Tpg → Text → Json → Mode → M NetworkPortal
  new_network_portal t ip port mode = do Node.check_self t.path; portal_init t ip port mode

  -- `TPG.lun`
  pub new_lun : Tpg → Option Json → Option StorageObject → Option Text → M Lun
  new_lun t lun so alias = do Node.check_self t.path; lun_init t lun so alias

  -- `NodeACL.mapped_lun`: it takes no alias.
  pub new_mapped_lun : NodeAcl → Json → Option TpgLun → Json → M MappedLun
  new_mapped_lun acl i tpg_lun write_protect = do
    Node.check_self acl.path
    mapped_lun_init acl i tpg_lun write_protect none
