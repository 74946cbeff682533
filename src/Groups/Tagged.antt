-- ===== src/Groups/Tagged.antt =====
-- That the node ACLs with a group's tag (rtslib/target.py) agree on an attribute that was set on the
-- group.
use rtslib_fb.Prelude.{
  ◌≡◌, ◌≢◌, refl, sym, ap, subst, ◌∙◌, Bool, true, not, inl, inr, Bool-cases, Option, any, text_eq,
  text_eq_iff, some, List, [], ◌∷◌, ◌++◌, Text, codes, strip, ok, if◌then◌else◌, arith,
}
use rtslib_fb.Fabric.{acls, from_fabric_wwn}
use rtslib_fb.Cfs.{
  FsPath, content, Fs, Kernel, World, M, pure, ◌>>=◌, when, for_each, is_dir, is_file, fwrite,
  listdir, children,
}
use rtslib_fb.Cfs.Laws.{Stores, Apart, bind_inv, for_each_inv}
use rtslib_fb.Node
use rtslib_fb.Node.{Mode, lookup, check_self, exists, create_in_cfs_ine}
use rtslib_fb.Target.Objects.{NodeAcl, tpg_has}
use rtslib_fb.Target.Children.{node_acl_init, for_node_acls}
use rtslib_fb.Target.Getters.{get_acl_tag}
use rtslib_fb.Groups.{set_attribute}
use rtslib_fb.Groups.Agreement.{attrib, Holds, set_attribute-Holds, get_attribute-Holds, stays_set}
use rtslib_fb.Groups.Lookups.{
  node_acl_init_lem, node_acl_init_same, get_acl_tag_lem, get_acl_tag_same, listdir_lem,
}
use rtslib_fb.Node.Create.{check_self_lem}
use rtslib_fb.Groups.NodeAcls.{NodeAclGroup, is_tag, each_acl, acl_members}

module _ ⦃k : Kernel⦄ (a v : Text) (store : (p : FsPath) → Stores k p (attrib a))
    (apart : (p q : FsPath) → p ≢ q → Apart k p q (attrib a))
    (keeps_tags : (p q : FsPath) (s : Text) (fs fs' : Fs)
      → k.write (attrib a ++ p) s fs ≡ some fs'
      → content (codes "tag" ∷ q) fs' ≡ content (codes "tag" ∷ q) fs) where
  -- No tag is changed, and what holds the value still does.
  abbrev Kept : World → World → Type 0
  Kept w w' =
      ((q : FsPath) → content (codes "tag" ∷ q) w'.fs ≡ content (codes "tag" ∷ q) w.fs)
      × ((q : FsPath) → Holds q a v w → Holds q a v w')

  set-tag :
      (p q : FsPath) (w w' : World)
      → Node.set_attribute p a v w ≡ (ok tt, w')
      → content (codes "tag" ∷ q) w'.fs ≡ content (codes "tag" ∷ q) w.fs
  unfolding Node.set_attribute check_self exists is_dir is_file fwrite
  set-tag p q w w' h = ground (arith, keeps_tags p q v w.fs w'.fs)

  set-Kept : (p : FsPath) (w w' : World) → Node.set_attribute p a v w ≡ (ok tt, w') → Kept w w'
  set-Kept p w w' h = (λ q. set-tag p q w w' h, λ q. stays_set a v store apart p q w w' h)

  abbrev on_tag : NodeAclGroup → NodeAcl → Option Text → M (Unit {0})
  on_tag g acl tag = when (is_tag g.name tag) (Node.set_attribute acl.path a v)

  abbrev on_acl : NodeAclGroup → NodeAcl → M (Unit {0})
  on_acl g acl = get_acl_tag acl >>= on_tag g acl

  abbrev visit : NodeAclGroup → Text → M (Unit {0})
  visit g n = node_acl_init g.tpg (from_fabric_wwn g.tpg.target.fabric n) lookup >>= on_acl g

  visit_inv :
      (g : NodeAclGroup) (n : Text) (w w' : World)
      → visit g n w ≡ (ok tt, w')
      → (acl : NodeAcl) × (tag : Option Text) × (node_acl_init g.tpg
            (from_fabric_wwn g.tpg.target.fabric n)
            lookup
            w
          ≡ (ok acl, w))
        × (get_acl_tag acl w ≡ (ok tag, w))
        × (on_tag g acl tag w ≡ (ok tt, w'))
  visit_inv g n w w' h =
      let x = from_fabric_wwn g.tpg.target.fabric n in
      let (acl, v1, made, rest) = bind_inv (node_acl_init g.tpg x lookup) (on_acl g) w h in
      let (tag, v2, read, end) = bind_inv (get_acl_tag acl) (on_tag g acl) v1 rest in
      let (found, name, it, same) = node_acl_init_lem g.tpg x acl w v1 made in
      let still : v2 ≡ w = get_acl_tag_lem acl tag v1 v2 read ∙ same in
      (
        acl,
        tag,
        subst (λ u. node_acl_init g.tpg x lookup w ≡ (ok acl, u)) same made,
        subst (λ u. get_acl_tag acl u ≡ (ok tag, w)) same
            (subst (λ u. get_acl_tag acl v1 ≡ (ok tag, u)) still read),
        subst (λ u. on_tag g acl tag u ≡ (ok tt, w')) still end,
      )

  on_tag-Kept :
      (g : NodeAclGroup) (acl : NodeAcl) (tag : Option Text) (w w' : World)
      → on_tag g acl tag w ≡ (ok tt, w')
      → Kept w w'
  on_tag-Kept g acl tag w w' h = elim (Bool-cases (is_tag g.name tag)) [
    | inl yes_tag ↦
        set-Kept acl.path w w'
          (sym (ap (λ b. when b (Node.set_attribute acl.path a v) w) yes_tag) ∙ h)
    | inr no_tag ↦
        let same : w ≡ w' =
          ap (λ r. r.1) (sym (ap (λ b. when b (Node.set_attribute acl.path a v) w) no_tag) ∙ h) in
        subst (Kept w) same (λ q. refl, λ q old. old)
  ]

  visits-Kept :
      (g : NodeAclGroup) (ns : List Text) (w w' : World)
      → for_each ns (visit g) w ≡ (ok tt, w')
      → Kept w w'
  visits-Kept g [] w w' h = subst (λ r. Kept w r.1) h (λ q. refl, λ q old. old)
  visits-Kept g (n ∷ ns) w w' h =
      let (w1, here, rest) = for_each_inv n ns (visit g) w h in
      let (acl, tag, made, read, end) = visit_inv g n w w1 here in
      let first = on_tag-Kept g acl tag w w1 end in
      let later = visits-Kept g ns w1 w' rest in
      (λ q. later.0 q ∙ first.0 q, λ q old. later.1 q (first.1 q old))

  -- The ACL of one visited name, as it is looked up behind the loop.
  visited-Holds :
      (g : NodeAclGroup) (n : Text) (acl : NodeAcl) (tag : Option Text) (w w1 w' : World)
      → visit g n w ≡ (ok tt, w1)
      → Kept w w'
      → Kept w1 w'
      → node_acl_init g.tpg (from_fabric_wwn g.tpg.target.fabric n) lookup w' ≡ (ok acl, w')
      → get_acl_tag acl w' ≡ (ok tag, w')
      → is_tag g.name tag ≡ true
      → Holds acl.path a v w'
  visited-Holds g n acl tag w w1 w' here all later made' read' member =
      let (acl0, tag0, made, read, end) = visit_inv g n w w1 here in
      let same =
        node_acl_init_same g.tpg (from_fabric_wwn g.tpg.target.fabric n) acl0 acl w w w' w' made
          made' in
      let read0 = subst (λ x. get_acl_tag x w ≡ (ok tag0, w)) same read in
      let tags = get_acl_tag_same acl tag0 tag w w w' w' read0 read' (sym (all.0 acl.path)) in
      let done = subst (λ x. on_tag g x tag0 w ≡ (ok tt, w1)) same end in
      let was = ap (λ t. is_tag g.name t) tags ∙ member in
      later.1 acl.path (
        set_attribute-Holds acl.path a v w w1 (store acl.path)
          (sym (ap (λ b. when b (Node.set_attribute acl.path a v) w) was) ∙ done))

  visits-Holds :
      (g : NodeAclGroup) (ns : List Text) (n : Text) (acl : NodeAcl) (tag : Option Text)
      (w w' : World)
      → for_each ns (visit g) w ≡ (ok tt, w')
      → any (text_eq n) ns ≡ true
      → node_acl_init g.tpg (from_fabric_wwn g.tpg.target.fabric n) lookup w' ≡ (ok acl, w')
      → get_acl_tag acl w' ≡ (ok tag, w')
      → is_tag g.name tag ≡ true
      → Holds acl.path a v w'
  visits-Holds g [] n acl tag w w' h listed made read member = cc
  visits-Holds g (m ∷ ns) n acl tag w w' h listed made read member =
      let (w1, here, rest) = for_each_inv m ns (visit g) w h in
      elim (Bool-cases (text_eq n m)) [
        | inl same ↦
            visited-Holds g n acl tag w w1 w'
              (subst (λ x. visit g x w ≡ (ok tt, w1)) (sym ((text_eq_iff n m).0 same)) here)
              (visits-Kept g (m ∷ ns) w w' h) (visits-Kept g ns w1 w' rest) made read member
        | inr other ↦ visits-Holds g ns n acl tag w1 w' rest (ground arith) made read member
      ]

  abbrev scan : NodeAclGroup → Bool → M (Unit {0})
  scan g has_acls =
      if not has_acls
      then pure tt
      else (listdir (codes "acls" ∷ g.tpg.path) >>= λ names. for_each names (visit g))

  -- The loop of the group is over the names that the directory of the ACLs lists.
  each_acl_inv :
      (g : NodeAclGroup) (w w' : World)
      → each_acl g (λ acl. Node.set_attribute acl.path a v) w ≡ (ok tt, w')
      → tpg_has g.tpg acls ≡ true
      → for_each (children (codes "acls" ∷ g.tpg.path) w.fs) (visit g) w ≡ (ok tt, w')
  unfolding each_acl for_node_acls
  each_acl_inv g w w' h has_acls =
      let p : FsPath = codes "acls" ∷ g.tpg.path in
      let (u, v1, checked, rest) =
        bind_inv (check_self g.tpg.path) (λ u. scan g (tpg_has g.tpg acls)) w h in
      let looped = sym (ap (λ b. scan g b v1) has_acls) ∙ rest in
      let (names, v2, listed, end) =
        bind_inv (listdir p) (λ names. for_each names (visit g)) v1 looped in
      let (which, still) = listdir_lem p names v1 v2 listed in
      let same : v1 ≡ w = check_self_lem g.tpg.path w v1 checked in
      let over = subst (λ ns. for_each ns (visit g) v2 ≡ (ok tt, w')) which end in
      subst (λ x. for_each (children p x.fs) (visit g) x ≡ (ok tt, w')) same
        (subst (λ x. for_each (children p v1.fs) (visit g) x ≡ (ok tt, w')) still over)

  -- Where a set of an attribute on a group of node ACLs returns, every node ACL that the directory of
  -- the ACLs lists and that has the group's tag behind it has the value, without the white space around
  -- it, for a get. The kernel stores the attribute of each object apart from those of the others and
  -- from the tags.
  pub get-set_acl_group_attribute :
      (g : NodeAclGroup) (n : Text) (acl : NodeAcl) (tag : Option Text) (w w' : World)
      → tpg_has g.tpg acls ≡ true
      → set_attribute (acl_members g) (λ x. x.path) a v w ≡ (ok tt, w')
      → any (text_eq n) (children (codes "acls" ∷ g.tpg.path) w.fs) ≡ true
      → node_acl_init g.tpg (from_fabric_wwn g.tpg.target.fabric n) lookup w' ≡ (ok acl, w')
      → get_acl_tag acl w' ≡ (ok tag, w')
      → is_tag g.name tag ≡ true
      → Node.get_attribute acl.path a w' ≡ (ok (strip v), w')
  unfolding set_attribute acl_members
  get-set_acl_group_attribute g n acl tag w w' has_acls h listed made read member =
      get_attribute-Holds acl.path a v w' (
        visits-Holds g (children (codes "acls" ∷ g.tpg.path) w.fs) n acl tag w w'
          (each_acl_inv g w w' h has_acls) listed made read member)
