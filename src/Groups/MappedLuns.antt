-- ===== src/Groups/MappedLuns.antt =====
-- `class MappedLUNGroup` of rtslib/target.py: the mapped LUNs with one index of all the members of a
-- group of node ACLs.
use rtslib_fb.Prelude.{
  ℕ, Bool, true, not, Option, none, some, List, [], ◌∷◌, Text, codes, starts_with, keep, Json, pos,
  ◌==◌, if◌then◌else◌,
}
use rtslib_fb.Fabric.{acls, from_fabric_wwn}
use rtslib_fb.Cfs.{Kernel, M, pure, lift, get_world, ◌>>=◌, ◌>>◌, when, children, listdir, map_m}
use rtslib_fb.Node
use rtslib_fb.Node.{Mode}
use rtslib_fb.Target.Objects.{Lun, NodeAcl, MappedLun, numbered, tpg_has}
use rtslib_fb.Target.Children.{node_acl_init, mapped_lun_lookup, for_mapped_luns}
use rtslib_fb.Target.Create.{TpgLun, mapped_lun_init, set_write_protect}
use rtslib_fb.Target.Getters.{get_acl_tag, get_tpg_lun, get_write_protect}
use rtslib_fb.Groups.{Members, get_prop, set_prop}
use rtslib_fb.Groups.NodeAcls.{NodeAclGroup, is_tag, each_acl, find_acl}

pub record MappedLunGroup : Type 0 where
  pub group : NodeAclGroup
  pub mapped_lun : ℕ

module _ ⦃k : Kernel⦄ where
  -- `_mapped_luns`
  unfoldable pub each_mapped_lun : MappedLunGroup → (MappedLun → M (Unit {0})) → M (Unit {0})
  unfolding each_acl
  each_mapped_lun g body =
      each_acl g.group
        (λ acl. for_mapped_luns acl (λ m. when (m.mapped_lun == g.mapped_lun) (body m)))

  -- The first mapped LUN of an ACL with the group's index.
  first_in_acl : ℕ → NodeAcl → List Text → M (Option MappedLun)
  first_in_acl i acl [] = pure none
  first_in_acl i acl (n ∷ ns) = do
    j ← lift (numbered n)
    m ← mapped_lun_lookup acl (Json.number j)
    if m.mapped_lun == i then pure (some m) else first_in_acl i acl ns

  first_in_acls : MappedLunGroup → List Text → M (Option MappedLun)
  unfolding first_in_acl
  first_in_acls g [] = pure none
  first_in_acls g (n ∷ ns) = do
    acl ← node_acl_init g.group.tpg (from_fabric_wwn g.group.tpg.target.fabric n) Mode.lookup
    tag ← get_acl_tag acl
    found ←
        if is_tag g.group.name tag
        then (do
          Node.check_self acl.path
          w ← get_world
          first_in_acl g.mapped_lun acl
              (keep (starts_with (codes "lun_")) (children acl.path w.fs)))
        else pure none
    elim found [ some m ↦ pure (some m) | none ↦ first_in_acls g ns ]

  unfoldable pub next_mapped_lun : MappedLunGroup → M (Option MappedLun)
  unfolding first_in_acls
  next_mapped_lun g = do
    Node.check_self g.group.tpg.path
    if not (tpg_has g.group.tpg acls)
        then pure none
        else (do names ← listdir (codes "acls" ∷ g.group.tpg.path); first_in_acls g names)

  unfoldable pub mapped_lun_members : MappedLunGroup → Members MappedLun
  unfolding each_mapped_lun next_mapped_lun
  mapped_lun_members g = record { each = each_mapped_lun g; next = next_mapped_lun g }

  -- `__init__`, and `NodeACLGroup.mapped_lun_group`: every member maps the LUN.
  unfoldable pub mapped_lun_group_init : NodeAclGroup → ℕ → Option TpgLun → Json → M MappedLunGroup
  unfolding each_acl
  mapped_lun_group_init g i tpg_lun write_protect = do
    each_acl g
        (λ acl. do mapped_lun_init acl (Json.number (pos i)) tpg_lun write_protect none; pure tt)
    pure (record { group = g; mapped_lun = i })

  -- `NodeACLGroup.mapped_lun_groups`: one group for each mapped LUN of the first member.
  unfoldable pub mapped_lun_groups : NodeAclGroup → M (List MappedLunGroup)
  unfolding find_acl mapped_lun_group_init
  mapped_lun_groups g = do
    first ← find_acl g (λ acl. true)
    elim first [
      | none ↦ pure []
      | some acl ↦ (do
        Node.check_self acl.path
        w ← get_world
        map_m (keep (starts_with (codes "lun_")) (children acl.path w.fs)) (λ n. do
          i ← lift (numbered n)
          m ← mapped_lun_lookup acl (Json.number i)
          mapped_lun_group_init g m.mapped_lun none Json.null))
    ]

  -- `write_protect` and `tpg_lun`
  unfoldable pub group_write_protect : MappedLunGroup → M Bool
  unfolding mapped_lun_members
  group_write_protect g = get_prop (mapped_lun_members g) get_write_protect

  unfoldable pub set_group_write_protect : MappedLunGroup → Bool → M (Unit {0})
  unfolding mapped_lun_members
  set_group_write_protect g b = set_prop (mapped_lun_members g) (λ m. set_write_protect m.path b)

  unfoldable pub group_tpg_lun : MappedLunGroup → M Lun
  unfolding mapped_lun_members
  group_tpg_lun g = get_prop (mapped_lun_members g) get_tpg_lun
