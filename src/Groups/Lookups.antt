-- ===== src/Groups/Lookups.antt =====
-- What a look at a node ACL (rtslib/target.py), its tag or a directory gives: nothing is changed, and the
-- result depends on little.
use rtslib_fb.Prelude.{◌≡◌, sym, ap, ◌∙◌, Option, List, ◌∷◌, Text, codes, is_os, ok, arith}
use rtslib_fb.Wwn.{WwnType, normalize_wwn}
use rtslib_fb.Fabric.{wwn_types, to_fabric_wwn}
use rtslib_fb.Cfs.{
  FsPath, content, Kernel, World, M, pure, lift, ◌>>=◌, is_dir, fread, listdir, children,
}
use rtslib_fb.Cfs.Laws.{bind_inv}
use rtslib_fb.Node.Create.{create-lookup_lem}
use rtslib_fb.Node.{lookup, check_self, exists, create_in_cfs_ine}
use rtslib_fb.Target.Objects.{Tpg, NodeAcl}
use rtslib_fb.Target.Children.{node_acl_init}
use rtslib_fb.Target.Getters.{get_acl_tag}

module _ ⦃k : Kernel⦄ where
  -- The ACL of a directory, given its name and the type of the name.
  abbrev acl_at : Tpg → Text × WwnType → NodeAcl
  acl_at t found = record {
    tpg = t;
    node_wwn = found.0;
    wwn_type = found.1;
    path = to_fabric_wwn t.target.fabric found.0 ∷ codes "acls" ∷ t.path;
  }

  abbrev finish_acl : Tpg → Text × WwnType → Unit {0} → M NodeAcl
  finish_acl t found u = pure (acl_at t found)

  abbrev bind_acl : Tpg → Text × WwnType → M NodeAcl
  bind_acl t found = create_in_cfs_ine (acl_at t found).path lookup >>= finish_acl t found

  -- A lookup of an ACL changes nothing, and the ACL does not depend on the world.
  pub node_acl_init_lem :
      (t : Tpg) (x : Text) (acl : NodeAcl) (w w' : World)
      → node_acl_init t x lookup w ≡ (ok acl, w')
      → (found : Text × WwnType) × (normalize_wwn (wwn_types t.target.fabric) x ≡ ok found)
        × (acl ≡ acl_at t found)
        × (w' ≡ w)
  unfolding node_acl_init
  node_acl_init_lem t x acl w w' h =
      let (found, v, named, made) =
        bind_inv (lift (normalize_wwn (wwn_types t.target.fabric) x)) (bind_acl t) w h in
      let (u, v', looked, end) =
        bind_inv (create_in_cfs_ine (acl_at t found).path lookup) (finish_acl t found) v made in
      let name : normalize_wwn (wwn_types t.target.fabric) x ≡ ok found = ap (λ r. r.0) named in
      let same : w ≡ v = ap (λ r. r.1) named in
      let there : v' ≡ v = create-lookup_lem (acl_at t found).path v v' looked in
      let last : v' ≡ w' = ap (λ r. r.1) end in
      let it : acl_at t found ≡ acl = ground arith in
      (found, name, sym it, sym last ∙ there ∙ sym same)

  -- Two lookups of one name give one ACL.
  pub node_acl_init_same :
      (t : Tpg) (x : Text) (a b : NodeAcl) (w w' v v' : World)
      → node_acl_init t x lookup w ≡ (ok a, w')
      → node_acl_init t x lookup v ≡ (ok b, v')
      → a ≡ b
  node_acl_init_same t x a b w w' v v' h h' =
      let (found, name, here, s) = node_acl_init_lem t x a w w' h in
      let (found', name', here', s') = node_acl_init_lem t x b v v' h' in
      let e : found ≡ found' = ground arith in here ∙ ap (acl_at t) e ∙ sym here'

  pub get_acl_tag_lem :
      (acl : NodeAcl) (tag : Option Text) (w w' : World) → get_acl_tag acl w ≡ (ok tag, w') → w' ≡ w
  unfolding get_acl_tag check_self exists is_dir fread is_os
  get_acl_tag_lem acl tag w w' h = ground arith

  -- The tag is what the file holds.
  pub get_acl_tag_same :
      (acl : NodeAcl) (a b : Option Text) (w w' v v' : World)
      → get_acl_tag acl w ≡ (ok a, w')
      → get_acl_tag acl v ≡ (ok b, v')
      → content (codes "tag" ∷ acl.path) w.fs ≡ content (codes "tag" ∷ acl.path) v.fs
      → a ≡ b
  unfolding get_acl_tag check_self exists is_dir fread is_os
  get_acl_tag_same acl a b w w' v v' h h' same = ground arith

  pub listdir_lem :
      (p : FsPath) (names : List Text) (w w' : World)
      → listdir p w ≡ (ok names, w')
      → (names ≡ children p w.fs) × (w' ≡ w)
  unfolding listdir
  listdir_lem p names w w' h = ground arith
