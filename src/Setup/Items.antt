-- ===== src/Setup/Items.antt =====
-- The `setattr` loops of the `setup` methods of rtslib/target.py: what one item of a saved node ACL or
-- TPG sets.
use rtslib_fb.Setup.Saved.{
  Item, tag, tcq_depth, read_only, chap_userid, chap_password, chap_mutual_userid,
  chap_mutual_password,
}
use rtslib_fb.Prelude.{
  Bool, true, false, Option, none, some, [], ◌∷◌, codes, Json, to_text, is_os, attribute_error,
  type_error,
}
use rtslib_fb.Cfs.{FsPath, Kernel, M, pure, raise, ◌>>◌, try_except, fwrite}
use rtslib_fb.Node
use rtslib_fb.Node.{Mode}
use rtslib_fb.Auth.{set_auth_attr}
use rtslib_fb.Target.Objects.{Tpg, NodeAcl}

-- The attribute of an item below `auth`.
abbrev pub auth_file : Item → Option FsPath
auth_file chap_userid = some (codes "userid" ∷ codes "auth" ∷ [])
auth_file chap_password = some (codes "password" ∷ codes "auth" ∷ [])
auth_file chap_mutual_userid = some (codes "userid_mutual" ∷ codes "auth" ∷ [])
auth_file chap_mutual_password = some (codes "password_mutual" ∷ codes "auth" ∷ [])
auth_file i = none

module _ ⦃k : Kernel⦄ where
  -- `value.strip()` of what is no text is an AttributeError.
  unfoldable pub set_chap : FsPath → FsPath → Json → Bool → M (Unit {0})
  set_chap p file (Json.text s) ignore = set_auth_attr (Node.check_self p) p s file ignore
  set_chap p file value ignore = do Node.check_self p; raise attribute_error

  -- `_set_tcq_depth`: its handler indexes the exception, which is a TypeError.
  unfoldable pub set_tcq_depth : FsPath → Json → M (Unit {0})
  set_tcq_depth p depth = do
    Node.check_self p
    try_except (fwrite (codes "cmdsn_depth" ∷ p) (to_text depth)) is_os (λ e. raise type_error)

  -- `NodeACL._set_tag`
  unfoldable pub set_acl_tag : FsPath → Json → M (Unit {0})
  set_acl_tag p Json.null =
      try_except (fwrite (codes "tag" ∷ p) (codes "NULL")) is_os (λ e. pure tt)
  set_acl_tag p value = try_except (fwrite (codes "tag" ∷ p) (to_text value)) is_os (λ e. pure tt)

  -- `setattr(acl_obj, name, value)`
  unfoldable pub set_acl_item : NodeAcl → Item → Json → M (Unit {0})
  unfolding set_tcq_depth set_acl_tag set_chap
  set_acl_item acl tag value = set_acl_tag acl.path value
  set_acl_item acl tcq_depth value = set_tcq_depth acl.path value
  set_acl_item acl read_only value = raise attribute_error
  set_acl_item acl item value = elim (auth_file item) [
    | none ↦ pure tt
    | some file ↦ set_chap acl.path file value false
  ]

  -- `setattr(tpg_obj, name, value)`; the CHAP attributes of a TPG may be missing.
  unfoldable pub set_tpg_item : Tpg → Item → Json → M (Unit {0})
  unfolding set_chap
  set_tpg_item t read_only value = raise attribute_error
  set_tpg_item t item value = elim (auth_file item) [
    | none ↦ pure tt
    | some file ↦ set_chap t.path file value true
  ]
