-- ===== src/Target/Dump.antt =====
-- The `dump` methods of the classes of rtslib/target.py, as records with the keys of the dictionaries.
use rtslib_fb.Prelude.{
  ℕ, Bool, not, Option, none, some, List, [], ◌∷◌, ◌++◌, keep, starts_with, Text, codes,
  rsplit_once, ℤ, Json, to_int, value_error, if◌then◌else◌,
}
use rtslib_fb.Fabric.{acls, auth, nps, from_fabric_wwn, name}
use rtslib_fb.Cfs.{Kernel, M, pure, raise, lift, get_world, ◌>>=◌, ◌>>◌, map_m, children, listdir}
use rtslib_fb.Node
use rtslib_fb.Node.{Mode, NodeDump}
use rtslib_fb.Tcm.Backstore.{plugin_name}
use rtslib_fb.Tcm.Lookup.{cls}
use rtslib_fb.Target.Objects.{
  Target, Tpg, Lun, NetworkPortal, NodeAcl, MappedLun, numbered, tpg_has, tpg_at,
}
use rtslib_fb.Target.Children.{get_alias, lun_lookup, mapped_lun_lookup, portal_init, node_acl_init}
use rtslib_fb.Target.Create.{get_storage_object, get_alua_tg_pt_gp_name}
use rtslib_fb.Target.Delete.{get_enable}
use rtslib_fb.Target.Getters.{
  auth_params, get_portal_flag, get_acl_tag, get_write_protect, get_tpg_lun, get_tpg_chap,
  get_acl_chap,
}

pub record LunDump : Type 0 where
  pub node : NodeDump
  pub storage_object : Text
  pub index : ℕ
  pub alias : Text
  pub alua_tg_pt_gp_name : Text

pub record PortalDump : Type 0 where
  pub node : NodeDump
  pub port : ℤ
  pub ip_address : Text
  pub iser : Bool
  pub offload : Bool

pub record MappedLunDump : Type 0 where
  pub node : NodeDump
  pub write_protect : Bool
  pub index : ℕ
  pub tpg_lun : ℕ
  pub alias : Text

-- A key that is absent is none, or not in `chap`.
pub record AclDump : Type 0 where
  pub node : NodeDump
  pub node_wwn : Text
  pub mapped_luns : List MappedLunDump
  pub tag : Option Text
  pub chap : List (Text × Text)

pub record TpgDump : Type 0 where
  pub node : NodeDump
  pub tag : ℕ
  pub enable : Bool
  pub luns : List LunDump
  pub portals : List PortalDump
  pub node_acls : List AclDump
  pub chap : List (Text × Text)

pub record TargetDump : Type 0 where
  pub node : NodeDump
  pub wwn : Text
  pub fabric : Text
  pub tpgs : List TpgDump

-- f"/backstores/{plugin}/{name}"
unfoldable pub storage_object_field : Text → Text → Text
storage_object_field plugin so_name = codes "/backstores/" ++ plugin ++ b'/' ∷ so_name

-- `if val: d["chap_" + attr] = val`
abbrev pub add_chap : Text → Option Text → List (Text × Text) → List (Text × Text)
add_chap file none d = d
add_chap file (some []) d = d
add_chap file (some (c ∷ s)) d = (file, c ∷ s) ∷ d

module _ ⦃k : Kernel⦄ where
  -- The loop over `auth_params`.
  dump_chap : (Text → M (Option Text)) → List Text → M (List (Text × Text))
  dump_chap read [] = pure []
  dump_chap read (a ∷ rest) = do value ← read a; d ← dump_chap read rest; pure (add_chap a value d)

  -- `LUN.dump`
  unfoldable pub dump_lun : Lun → M LunDump
  unfolding storage_object_field
  dump_lun l = do
    node ← Node.dump l.path
    a ← get_storage_object l
    b ← get_storage_object l
    alias ← get_alias l.path
    group ← get_alua_tg_pt_gp_name l
    pure (record {
      node = node;
      storage_object = storage_object_field (plugin_name (cls a)) b.name;
      index = l.lun;
      alias = alias;
      alua_tg_pt_gp_name = group;
    })

  -- `NetworkPortal.dump`
  unfoldable pub dump_portal : NetworkPortal → M PortalDump
  dump_portal np = do
    node ← Node.dump np.path
    iser ← get_portal_flag np (codes "iser")
    offload ← get_portal_flag np (codes "cxgbit")
    pure (record {
      node = node;
      port = np.port;
      ip_address = np.ip_address;
      iser = iser;
      offload = offload;
    })

  -- `MappedLUN.dump`
  unfoldable pub dump_mapped_lun : MappedLun → M MappedLunDump
  dump_mapped_lun m = do
    node ← Node.dump m.path
    write_protect ← get_write_protect m
    l ← get_tpg_lun m
    alias ← get_alias m.path
    pure (record {
      node = node;
      write_protect = write_protect;
      index = m.mapped_lun;
      tpg_lun = l.lun;
      alias = alias;
    })

  -- `NodeACL.dump`
  unfoldable pub dump_acl : NodeAcl → M AclDump
  unfolding dump_mapped_lun dump_chap
  dump_acl acl = do
    node ← Node.dump acl.path
    Node.check_self acl.path
    w ← get_world
    mapped_luns ← map_m (keep (starts_with (codes "lun_")) (children acl.path w.fs)) (λ n. do
      i ← lift (numbered n)
      m ← mapped_lun_lookup acl (Json.number i)
      dump_mapped_lun m)
    tag ← get_acl_tag acl
    chap ← if tpg_has acl.tpg auth then dump_chap (get_acl_chap acl) auth_params else pure []
    pure (record {
      node = node;
      node_wwn = acl.node_wwn;
      mapped_luns = mapped_luns;
      tag = tag;
      chap = chap;
    })

  dump_luns : Tpg → M (List LunDump)
  unfolding dump_lun
  dump_luns t = do
    Node.check_self t.path
    names ← listdir (codes "lun" ∷ t.path)
    map_m names (λ n. do i ← lift (numbered n); l ← lun_lookup t i; dump_lun l)

  dump_portals : Tpg → M (List PortalDump)
  unfolding dump_portal
  dump_portals t = do
    Node.check_self t.path
    if not (tpg_has t nps) then pure [] else (do
      names ← listdir (codes "np" ∷ t.path)
      map_m names (λ n. elim (rsplit_once b':' n) [
        | none ↦ raise value_error
        | some (ip, port) ↦ (do
          i ← lift (to_int (Json.text port))
          np ← portal_init t ip (Json.number i) Mode.lookup
          dump_portal np)
      ]))

  dump_acls : Tpg → M (List AclDump)
  unfolding dump_acl
  dump_acls t = do
    Node.check_self t.path
    if not (tpg_has t acls) then pure [] else (do
      names ← listdir (codes "acls" ∷ t.path)
      map_m names (λ n. do
        acl ← node_acl_init t (from_fabric_wwn t.target.fabric n) Mode.lookup
        dump_acl acl))

  -- `TPG.dump`
  unfoldable pub dump_tpg : Tpg → M TpgDump
  unfolding dump_luns dump_portals dump_acls dump_chap
  dump_tpg t = do
    node ← Node.dump t.path
    enable ← get_enable t
    luns ← dump_luns t
    portals ← dump_portals t
    node_acls ← dump_acls t
    chap ← if tpg_has t auth then dump_chap (get_tpg_chap t) auth_params else pure []
    pure (record {
      node = node;
      tag = t.tag;
      enable = enable;
      luns = luns;
      portals = portals;
      node_acls = node_acls;
      chap = chap;
    })

  -- `Target.dump`
  unfoldable pub dump_target : Target → M TargetDump
  unfolding dump_tpg
  dump_target t = do
    node ← Node.dump t.path
    Node.check_self t.path
    w ← get_world
    tpgs ←
        map_m (keep (starts_with (codes "tpgt")) (children t.path w.fs))
          (λ n. do tag ← lift (numbered n); tpg ← tpg_at t tag Mode.lookup; dump_tpg tpg)
    pure (record { node = node; wwn = t.wwn; fabric = name t.fabric; tpgs = tpgs })
