-- ===== src/Target/Children.antt =====
-- The objects below a TPG (rtslib/target.py): the constructors of LUN and MappedLUN that look an
-- object up, those of NodeACL and NetworkPortal, and the lists of what configFS holds.
use rtslib_fb.Prelude.{
  ℕ, Bool, true, false, not, Option, none, some, List, [], ◌∷◌, ◌++◌, keep, Text, codes,
  starts_with, rsplit_once, ℤ, pos, negsuc, Json, to_int, int_text, Exn, Result, ok, err,
  rtslib_error, is_os, broken_link, value_error, ltb, ◌==◌, if◌then◌else◌,
}
use rtslib_fb.Fabric.{acls, nps, wwn_types, to_fabric_wwn, from_fabric_wwn}
use rtslib_fb.Wwn.{normalize_wwn}
use rtslib_fb.Cfs.{
  FsPath, Fs, Kernel, M, pure, raise, lift, get_world, ◌>>=◌, ◌>>◌, raise_if, try_except, for_each,
  map_m, link_target, listdir, children,
}
use rtslib_fb.Node
use rtslib_fb.Node.{Mode, lookup, create_in_cfs_ine, exists}
use rtslib_fb.Target.Objects.{
  Tpg, Lun, NetworkPortal, NodeAcl, MappedLun, lun_name, numbered, tpg_has,
}

-- `MAX_TARGET_LUN`
abbrev pub max_target_lun : ℕ
max_target_lun = 65535

abbrev pub lun_path : Tpg → ℕ → FsPath
lun_path t n = lun_name n ∷ codes "lun" ∷ t.path

-- The range that LUN allows.
unfoldable pub lun_index : ℤ → Result ℕ
lun_index (pos n) =
    if ltb max_target_lun n then err (rtslib_error "LUN must be 0 to 65535") else ok n
lun_index (negsuc n) = err (rtslib_error "LUN must be 0 to 65535")

-- MappedLUN's; a ValueError of `int` becomes an RTSLibError.
unfoldable pub mapped_lun_index : Json → Result ℕ
unfolding to_int
mapped_lun_index j = elim (to_int j) [
  | err e ↦ elim e [
    | value_error ↦ err (rtslib_error "The mapped_lun parameter must be an integer value")
    | other ↦ err other
  ]
  | ok n ↦ elim n [ pos m ↦ ok m | negsuc m ↦ err (rtslib_error "Mapped LUN must be >= 0") ]
]

-- The first symbolic link of a directory, by its name.
unfoldable pub first_link : FsPath → List Text → Fs → Option Text
first_link p [] fs = none
first_link p (n ∷ ns) fs = elim (link_target (n ∷ p) fs) [
  | none ↦ first_link p ns fs
  | some q ↦ some n
]

abbrev has_number : ℤ → Lun → Bool
has_number (pos i) l = l.lun == i
has_number (negsuc i) l = false

abbrev pub portal_name : Text → ℤ → Text
portal_name ip port = ip ++ b':' ∷ int_text port

module _ ⦃k : Kernel⦄ where
  -- `_get_alias` of LUN and of MappedLUN.
  unfoldable pub get_alias : FsPath → M Text
  unfolding first_link
  get_alias p = do
    Node.check_self p
    names ← listdir p
    w ← get_world
    elim (first_link p names w.fs) [ none ↦ raise broken_link | some n ↦ pure n ]

  -- `LUN(parent_tpg, lun)`
  unfoldable pub lun_lookup : Tpg → ℤ → M Lun
  unfolding lun_index
  lun_lookup t i = do
    n ← lift (lun_index i)
    create_in_cfs_ine (lun_path t n) lookup
    pure (record { tpg = t; lun = n; path = lun_path t n })

  -- `TPG._list_luns`
  unfoldable pub list_luns : Tpg → M (List Lun)
  unfolding lun_lookup
  list_luns t = do
    Node.check_self t.path
    names ← listdir (codes "lun" ∷ t.path)
    map_m names (λ n. do i ← lift (numbered n); lun_lookup t i)

  -- `for lun in tpg.luns: body(lun)`
  unfoldable pub for_luns : Tpg → (Lun → M (Unit {0})) → M (Unit {0})
  unfolding lun_lookup
  for_luns t body = do
    Node.check_self t.path
    names ← listdir (codes "lun" ∷ t.path)
    for_each names (λ n. do i ← lift (numbered n); l ← lun_lookup t i; body l)

  search_luns : Tpg → ℤ → List Text → M (Option Lun)
  unfolding lun_lookup
  search_luns t i [] = pure none
  search_luns t i (n ∷ ns) = do
    j ← lift (numbered n)
    l ← lun_lookup t j
    if has_number i l then pure (some l) else search_luns t i ns

  -- `for lun in tpg.luns: if lun.lun == i: break`
  unfoldable pub find_lun : Tpg → ℤ → M (Option Lun)
  unfolding search_luns
  find_lun t i = do
    Node.check_self t.path
    names ← listdir (codes "lun" ∷ t.path)
    search_luns t i names

  -- `NodeACL.__init__`
  unfoldable pub node_acl_init : Tpg → Text → Mode → M NodeAcl
  node_acl_init t w mode = do
    found ← lift (normalize_wwn (wwn_types t.target.fabric) w)
    let p = to_fabric_wwn t.target.fabric found.0 ∷ codes "acls" ∷ t.path
    create_in_cfs_ine p mode
    pure (record { tpg = t; node_wwn = found.0; wwn_type = found.1; path = p })

  -- `for acl in tpg.node_acls: body(acl)`, with `TPG._list_node_acls`.
  unfoldable pub for_node_acls : Tpg → (NodeAcl → M (Unit {0})) → M (Unit {0})
  unfolding node_acl_init
  for_node_acls t body = do
    Node.check_self t.path
    if not (tpg_has t acls) then pure tt else (do
      names ← listdir (codes "acls" ∷ t.path)
      for_each names
          (λ n. do acl ← node_acl_init t (from_fabric_wwn t.target.fabric n) lookup; body acl))

  -- `MappedLUN(parent_nodeacl, mapped_lun)`
  unfoldable pub mapped_lun_lookup : NodeAcl → Json → M MappedLun
  unfolding mapped_lun_index
  mapped_lun_lookup acl i = do
    there ← exists acl.path
    raise_if (not there) (rtslib_error "The parent_nodeacl does not exist")
    n ← lift (mapped_lun_index i)
    let p = lun_name n ∷ acl.path
    create_in_cfs_ine p lookup
    pure (record { acl = acl; mapped_lun = n; path = p })

  -- `for mlun in acl.mapped_luns: body(mlun)`, with `NodeACL._list_mapped_luns`.
  unfoldable pub for_mapped_luns : NodeAcl → (MappedLun → M (Unit {0})) → M (Unit {0})
  unfolding mapped_lun_lookup
  for_mapped_luns acl body = do
    Node.check_self acl.path
    w ← get_world
    for_each (keep (starts_with (codes "lun_")) (children acl.path w.fs))
        (λ n. do i ← lift (numbered n); mlun ← mapped_lun_lookup acl (Json.number i); body mlun)

  -- `NetworkPortal.__init__`
  unfoldable pub portal_init : Tpg → Text → Json → Mode → M NetworkPortal
  portal_init t ip port mode = do
    n ← try_except (lift (to_int port)) is_value (λ e. raise (rtslib_error "Invalid port"))
    let p = portal_name ip n ∷ codes "np" ∷ t.path
    try_except (create_in_cfs_ine p mode) is_os (λ e. raise (rtslib_error "OSError"))
    pure (record { tpg = t; ip_address = ip; port = n; path = p })
    where
      is_value : Exn → Bool
      is_value value_error = true
      is_value e = false

  -- `for portal in tpg.network_portals: body(portal)`, with `TPG._list_network_portals`.
  unfoldable pub for_portals : Tpg → (NetworkPortal → M (Unit {0})) → M (Unit {0})
  unfolding portal_init
  for_portals t body = do
    Node.check_self t.path
    if not (tpg_has t nps) then pure tt else (do
      names ← listdir (codes "np" ∷ t.path)
      for_each names (λ n. elim (rsplit_once b':' n) [
        | none ↦ raise value_error
        | some (ip, port) ↦ (do
          i ← lift (to_int (Json.text port))
          portal ← portal_init t ip (Json.number i) lookup
          body portal)
      ]))
