-- ===== src/Groups/NodeAcls.antt =====
-- `class NodeACLGroup` of rtslib/target.py: the node ACLs of a TPG that have the same tag.
use rtslib_fb.Prelude.{
  Bool, true, false, not, Option, none, some, List, [], ◌∷◌, has, Text, codes, text_eq, Json, pos,
  Result, ok, err, rtslib_error, if◌then◌else◌,
}
use rtslib_fb.Fabric.{acls, from_fabric_wwn}
use rtslib_fb.Cfs.{
  path_eq, Kernel, M, pure, raise, lift, ◌>>=◌, ◌>>◌, when, for_each, try_except, any_exn, listdir,
}
use rtslib_fb.Node
use rtslib_fb.Node.{Mode}
use rtslib_fb.Auth.{set_auth_attr}
use rtslib_fb.Target.Objects.{Tpg, NodeAcl, tpg_has}
use rtslib_fb.Target.Children.{node_acl_init, for_node_acls, for_mapped_luns}
use rtslib_fb.Target.Delete.{delete_mapped_lun, delete_node_acl}
use rtslib_fb.Target.Create.{TpgLun, mapped_lun_init}
use rtslib_fb.Target.Getters.{
  auth_path, get_acl_tag, get_tpg_lun, get_write_protect, get_acl_chap, get_tcq_depth,
  acl_authenticate_target,
}
use rtslib_fb.Target.Sessions.{Session, get_session}
use rtslib_fb.Setup.{set_acl_tag, set_tcq_depth}
use rtslib_fb.Groups.{Members, get_prop, set_prop}

pub record NodeAclGroup : Type 0 where
  pub tpg : Tpg
  pub name : Text

-- `_check_group_name`
unfoldable pub check_group_name : Text → Result (Unit {0})
check_group_name name =
    if has b'.' name then err (rtslib_error "'.' not permitted in group names.") else ok tt

-- `na.tag == self.name`
abbrev pub is_tag : Text → Option Text → Bool
is_tag name none = false
is_tag name (some t) = text_eq t name

-- `try: m finally: last`
abbrev pub try_finally : M (Unit {0}) → M (Unit {0}) → M (Unit {0})
try_finally m last = do try_except m any_exn (λ e. do last; raise e); last

module _ ⦃k : Kernel⦄ where
  -- `for na in self._node_acls: body(na)`
  unfoldable pub each_acl : NodeAclGroup → (NodeAcl → M (Unit {0})) → M (Unit {0})
  each_acl g body =
      for_node_acls g.tpg (λ acl. do tag ← get_acl_tag acl; when (is_tag g.name tag) (body acl))

  search_acl : NodeAclGroup → (NodeAcl → Bool) → List Text → M (Option NodeAcl)
  search_acl g fits [] = pure none
  search_acl g fits (n ∷ ns) = do
    acl ← node_acl_init g.tpg (from_fabric_wwn g.tpg.target.fabric n) Mode.lookup
    tag ← get_acl_tag acl
    if is_tag g.name tag
        then (if fits acl then pure (some acl) else search_acl g fits ns)
        else search_acl g fits ns

  -- The first member that fits; no later one is looked at.
  unfoldable pub find_acl : NodeAclGroup → (NodeAcl → Bool) → M (Option NodeAcl)
  unfolding search_acl
  find_acl g fits = do
    Node.check_self g.tpg.path
    if not (tpg_has g.tpg acls)
        then pure none
        else (do names ← listdir (codes "acls" ∷ g.tpg.path); search_acl g fits names)

  -- The members, as the base class takes them.
  unfoldable pub acl_members : NodeAclGroup → Members NodeAcl
  unfolding each_acl find_acl
  acl_members g = record { each = each_acl g; next = find_acl g (λ acl. true) }

  -- `NodeACLGroup(parent_tpg, name)`
  unfoldable pub group_init : Tpg → Text → M NodeAclGroup
  unfolding check_group_name
  group_init t name = do lift (check_group_name name); pure (record { tpg = t; name = name })

  -- `_set_name`: the members get the tag; the result is the group with its new name.
  unfoldable pub set_name : NodeAclGroup → Text → M NodeAclGroup
  unfolding check_group_name each_acl
  set_name g name = do
    lift (check_group_name name)
    each_acl g (λ acl. set_acl_tag acl.path (Json.text name))
    pure (record g { name = name })

  -- The mapped LUNs, attributes and parameters of the model; what the ACL has mapped goes first.
  unfoldable pub copy_config : NodeAcl → NodeAcl → M (Unit {0})
  copy_config acl model = do
    for_mapped_luns acl delete_mapped_lun
    for_mapped_luns model (λ m. do
      l ← get_tpg_lun m
      b ← get_write_protect m
      mapped_lun_init acl (Json.number (pos m.mapped_lun)) (some (TpgLun.object l)) (Json.bool b)
          none
      pure tt)
    attributes ← Node.list_attributes model.path (some true) none
    for_each attributes (λ item. do
      value ← Node.get_attribute model.path item
      Node.set_attribute acl.path item value)
    parameters ← Node.list_parameters model.path (some true) none
    for_each parameters (λ item. do
      value ← Node.get_parameter model.path item
      Node.set_parameter acl.path item value)

  -- An ACL that joins a group takes the configuration of the first member.
  unfoldable pub take_config : NodeAclGroup → NodeAcl → M (Unit {0})
  unfolding find_acl copy_config
  take_config g acl = do
    model ← find_acl g (λ a. true)
    elim model [ none ↦ pure tt | some m ↦ copy_config acl m ]

  -- The end of `add_acl` for an ACL that is no member: whatever happens, it gets the tag.
  unfoldable pub join_group : NodeAclGroup → NodeAcl → M (Unit {0})
  unfolding take_config
  join_group g acl = try_finally (take_config g acl) (set_acl_tag acl.path (Json.text g.name))

  -- `add_acl`
  unfoldable pub add_acl : NodeAclGroup → Text → M (Unit {0})
  unfolding find_acl join_group
  add_acl g node_wwn = do
    acl ← node_acl_init g.tpg node_wwn Mode.any
    member ← find_acl g (λ a. path_eq acl.path a.path)
    elim member [ some a ↦ pure tt | none ↦ join_group g acl ]

  -- `remove_acl`
  unfoldable pub remove_acl : NodeAclGroup → Text → M (Unit {0})
  remove_acl g node_wwn = do acl ← node_acl_init g.tpg node_wwn Mode.lookup; delete_node_acl acl

  module _ {A : Type 0} where
    collect_acls : NodeAclGroup → (NodeAcl → M (Option A)) → List Text → M (List A)
    collect_acls g read [] = pure []
    collect_acls g read (n ∷ ns) = do
      acl ← node_acl_init g.tpg (from_fabric_wwn g.tpg.target.fabric n) Mode.lookup
      tag ← get_acl_tag acl
      found ← if is_tag g.name tag then read acl else pure none
      rest ← collect_acls g read ns
      pure (elim found [ none ↦ rest | some a ↦ a ∷ rest ])

    -- `[read(na) for na in self._node_acls]`, less what is None.
    unfoldable pub from_acls : NodeAclGroup → (NodeAcl → M (Option A)) → M (List A)
    unfolding collect_acls
    from_acls g read = do
      Node.check_self g.tpg.path
      if not (tpg_has g.tpg acls)
          then pure []
          else (do names ← listdir (codes "acls" ∷ g.tpg.path); collect_acls g read names)

  -- `wwns`
  unfoldable pub wwns : NodeAclGroup → M (List Text)
  unfolding from_acls
  wwns g = from_acls g (λ acl. pure (some acl.node_wwn))

  -- `sessions`
  unfoldable pub sessions : NodeAclGroup → M (List Session)
  unfolding from_acls
  sessions g = from_acls g get_session

  -- `_get_chap`: the value is None where it cannot be read.
  unfoldable pub get_chap : NodeAclGroup → Text → M (List (Text × Option Text))
  unfolding from_acls
  get_chap g file =
      from_acls g (λ acl. do value ← get_acl_chap acl file; pure (some (acl.node_wwn, value)))

  set_acl_chap : NodeAcl → Text → Text → M (Unit {0})
  set_acl_chap acl file value =
      set_auth_attr (Node.check_self acl.path) acl.path value (auth_path file) false

  -- `_set_chap`: for one WWN the loop ends at the member that has it, and no such member is no error.
  -- An empty WWN is none, as in Python.
  unfoldable pub set_chap : NodeAclGroup → Text → Text → Option Text → M (Unit {0})
  unfolding each_acl find_acl set_acl_chap
  set_chap g file value none = each_acl g (λ acl. set_acl_chap acl file value)
  set_chap g file value (some w) = do
    found ← find_acl g (λ acl. text_eq w acl.node_wwn)
    elim found [ none ↦ pure tt | some acl ↦ set_acl_chap acl file value ]

  -- `tcq_depth` and `authenticate_target`
  unfoldable pub group_tcq_depth : NodeAclGroup → M Text
  unfolding acl_members
  group_tcq_depth g = get_prop (acl_members g) get_tcq_depth

  unfoldable pub set_group_tcq_depth : NodeAclGroup → Json → M (Unit {0})
  unfolding acl_members
  set_group_tcq_depth g depth = set_prop (acl_members g) (λ acl. set_tcq_depth acl.path depth)

  unfoldable pub group_authenticate_target : NodeAclGroup → M Bool
  unfolding acl_members
  group_authenticate_target g = get_prop (acl_members g) acl_authenticate_target
