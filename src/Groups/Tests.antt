-- ===== src/Groups/Tests.antt =====
-- A group of two node ACLs, and one of ACLs by their tag (rtslib/target.py).
use rtslib_fb.Prelude.{
  ◌≡◌, ◌≢◌, refl, ap, true, Bool, any, text_eq, Option, none, some, List, [], ◌∷◌, ◌++◌, Text,
  codes, strip, ok, err, index_error, arith,
}
use rtslib_fb.Wwn.{iqn}
use rtslib_fb.Fabric.{iscsi, acls}
use rtslib_fb.Cfs.{FsPath, parent, Fs, Entry, dir, file, content, World, children}
use rtslib_fb.Cfs.Memory.{memory, world, content-write_at, content-write_at_ne, is_dir_in-write_at}
use rtslib_fb.Cfs.Laws.{Stores, Apart}
use rtslib_fb.Node
use rtslib_fb.Node.{lookup}
use rtslib_fb.Target.Objects.{Target, Tpg, NodeAcl, fabric_path}
use rtslib_fb.Target.Children.{node_acl_init}
use rtslib_fb.Target.Getters.{get_acl_tag}
use rtslib_fb.Target.Sessions.{get_session}
use rtslib_fb.Groups.{set_attribute}
use rtslib_fb.Groups.Agreement.{attrib}
use rtslib_fb.Groups.NodeAcls.{NodeAclGroup, acl_members}
use rtslib_fb.Prelude.{◌⊎◌}
use rtslib_fb.Groups.NodeAcls.{join_group}
use rtslib_fb.Groups.Joining.{join_group-Tagged}
use rtslib_fb.Groups.Tagged.{get-set_acl_group_attribute}

abbrev timeout : Text
timeout = codes "dataout_timeout"

memory-Stores : (p : FsPath) → Stores memory p (attrib timeout)
memory-Stores p = record {
  stores = content-write_at (attrib timeout ++ p);
  stays = is_dir_in-write_at (attrib timeout ++ p) p;
}

memory-Apart : (p q : FsPath) → p ≢ q → Apart memory p q (attrib timeout)
memory-Apart p q ne = record {
  keeps = λ s fs fs'.
      content-write_at_ne (attrib timeout ++ p) (attrib timeout ++ q) s fs fs'
        (λ e. ne (ap (λ l. parent (parent l)) e));
  stands = is_dir_in-write_at (attrib timeout ++ p) q;
}

memory_keeps_tags :
    (p q : FsPath) (s : Text) (fs fs' : Fs)
    → memory.write (attrib timeout ++ p) s fs ≡ some fs'
    → content (codes "tag" ∷ q) fs' ≡ content (codes "tag" ∷ q) fs
memory_keeps_tags p q s fs fs' =
    content-write_at_ne (attrib timeout ++ p) (codes "tag" ∷ q) s fs fs' (λ e. cc)

abbrev target : Target
target = record {
  fabric = iscsi;
  wwn = codes "iqn.2003-01.org.example:disk";
  wwn_type = iqn;
  path = codes "iqn.2003-01.org.example:disk" ∷ fabric_path iscsi;
}

abbrev tpg : Tpg
tpg = record { target = target; tag = 1; path = codes "tpgt_1" ∷ target.path }

abbrev acl : Text → NodeAcl
acl n = record { tpg = tpg; node_wwn = n; wwn_type = iqn; path = n ∷ codes "acls" ∷ tpg.path }

abbrev a : Text
a = codes "iqn.2003-01.org.example:a"

abbrev b : Text
b = codes "iqn.2003-01.org.example:b"

-- The ACL a has the tag, and b has another.
abbrev timeouts : Text → World
timeouts ta = world (
    (tpg.path, dir)
    ∷ (codes "acls" ∷ tpg.path, dir)
    ∷ ((acl a).path, dir)
    ∷ (codes "tag" ∷ (acl a).path, file true true (codes "hosts\n"))
    ∷ (attrib timeout ++ (acl a).path, file true true ta)
    ∷ ((acl b).path, dir)
    ∷ (codes "tag" ∷ (acl b).path, file true true (codes "other\n"))
    ∷ (attrib timeout ++ (acl b).path, file true true (codes "3\n"))
    ∷ [])

abbrev group : NodeAclGroup
group = record { tpg = tpg; name = codes "hosts" }

was_set :
    set_attribute (acl_members group) (λ x. x.path) timeout (codes "5") (timeouts (codes "3\n"))
    ≡ (ok tt, timeouts (codes "5"))
unfolding set_attribute acl_members rtslib_fb.Target.Children.for_node_acls Node.check_self
    rtslib_fb.Fabric.has_feature rtslib_fb.Cfs.listdir rtslib_fb.Wwn.normalize_wwn
    rtslib_fb.Fabric.wwn_types rtslib_fb.Fabric.from_fabric_wwn Node.create_in_cfs_ine
    rtslib_fb.Fabric.to_fabric_wwn get_acl_tag rtslib_fb.Cfs.fread Node.set_attribute
    rtslib_fb.Cfs.is_file rtslib_fb.Cfs.fwrite
was_set = refl

looked_up : node_acl_init tpg a lookup (timeouts (codes "5")) ≡ (ok (acl a), timeouts (codes "5"))
unfolding node_acl_init rtslib_fb.Wwn.normalize_wwn rtslib_fb.Fabric.wwn_types
    Node.create_in_cfs_ine rtslib_fb.Fabric.to_fabric_wwn
looked_up = refl

tag_read :
    get_acl_tag (acl a) (timeouts (codes "5")) ≡ (ok (some (codes "hosts")), timeouts (codes "5"))
unfolding get_acl_tag Node.check_self rtslib_fb.Cfs.fread strip
tag_read = refl

get-set_acl_group_attribute_example :
    Node.get_attribute (acl a).path timeout (timeouts (codes "5"))
    ≡ (ok (strip (codes "5")), timeouts (codes "5"))
unfolding rtslib_fb.Fabric.has_feature rtslib_fb.Fabric.from_fabric_wwn
get-set_acl_group_attribute_example =
    get-set_acl_group_attribute timeout (codes "5") memory-Stores memory-Apart memory_keeps_tags
      group a (acl a) (some (codes "hosts")) (timeouts (codes "3\n")) (timeouts (codes "5")) refl
      was_set refl looked_up tag_read refl

-- A session's text that is empty.
empty_session :
    get_session (acl a) (world ((codes "info" ∷ (acl a).path, file true true []) ∷ []))
    ≡ (err index_error, world ((codes "info" ∷ (acl a).path, file true true []) ∷ []))
unfolding get_session rtslib_fb.Cfs.fread
empty_session = refl

-- The ACL b joins the group: it takes the timeout of a, and its tag is written.
abbrev joined : World
joined = world (
    (tpg.path, dir)
    ∷ (codes "acls" ∷ tpg.path, dir)
    ∷ ((acl a).path, dir)
    ∷ (codes "tag" ∷ (acl a).path, file true true (codes "hosts\n"))
    ∷ (attrib timeout ++ (acl a).path, file true true (codes "7\n"))
    ∷ (codes "attrib" ∷ (acl a).path, dir)
    ∷ ((acl b).path, dir)
    ∷ (codes "tag" ∷ (acl b).path, file true true (codes "hosts"))
    ∷ (attrib timeout ++ (acl b).path, file true true (codes "7"))
    ∷ [])

abbrev apart : World
apart = world (
    (tpg.path, dir)
    ∷ (codes "acls" ∷ tpg.path, dir)
    ∷ ((acl a).path, dir)
    ∷ (codes "tag" ∷ (acl a).path, file true true (codes "hosts\n"))
    ∷ (attrib timeout ++ (acl a).path, file true true (codes "7\n"))
    ∷ (codes "attrib" ∷ (acl a).path, dir)
    ∷ ((acl b).path, dir)
    ∷ (codes "tag" ∷ (acl b).path, file true true (codes "other\n"))
    ∷ (attrib timeout ++ (acl b).path, file true true (codes "3\n"))
    ∷ [])

was_joined : join_group group (acl b) apart ≡ (ok tt, joined)
unfolding join_group Node.check_self rtslib_fb.Fabric.has_feature rtslib_fb.Cfs.listdir
    node_acl_init rtslib_fb.Wwn.normalize_wwn rtslib_fb.Fabric.wwn_types
    rtslib_fb.Fabric.from_fabric_wwn Node.create_in_cfs_ine rtslib_fb.Fabric.to_fabric_wwn
    get_acl_tag rtslib_fb.Cfs.fread rtslib_fb.Target.Children.for_mapped_luns Node.list_attributes
    Node.list_parameters Node.get_attribute Node.set_attribute rtslib_fb.Cfs.is_file
    rtslib_fb.Cfs.fwrite rtslib_fb.Setup.set_acl_tag rtslib_fb.Prelude.to_text
    rtslib_fb.Prelude.strip
was_joined = refl

join_group-Tagged_example :
    (content (codes "tag" ∷ (acl b).path) joined.fs ≡ some (codes "hosts"))
    ⊎ (memory.write (codes "tag" ∷ (acl b).path) (codes "hosts") joined.fs ≡ none)
join_group-Tagged_example =
    join_group-Tagged group (acl b) (ok tt) apart joined
      (content-write_at (codes "tag" ∷ (acl b).path) (codes "hosts")) was_joined
