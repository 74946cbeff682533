-- ===== src/Groups/Joining.antt =====
-- That a node ACL that is added to a group (rtslib/target.py) gets the group's tag, whatever happens.
use rtslib_fb.Prelude.{
  ◌≡◌, ◌⊎◌, ap, sym, subst, ◌∙◌, inl, inr, Option-cases, Option, none, some, ◌∷◌, Text, codes, Json,
  to_text, Exn, Result, ok, err, os_error, is_os,
}
use rtslib_fb.Cfs.{
  FsPath, Fs, content, Kernel, World, M, pure, raise, ◌>>◌, try_except, any_exn, fwrite,
}
use rtslib_fb.Cfs.Laws.{bind_ok, bind_err, try_ok, try_err, outcome}
use rtslib_fb.Target.Objects.{NodeAcl}
use rtslib_fb.Setup.{set_acl_tag}
use rtslib_fb.Groups.NodeAcls.{NodeAclGroup, try_finally, take_config, join_group}

module _ ⦃k : Kernel⦄ where
  -- The last step of a `try` with a `finally` runs in any case, if it does not raise itself.
  try_finally_lem :
      (m last : M (Unit {0})) (P : World → Type 0) (r : Result (Unit {0})) (w w' : World)
      → ((v : World) → (v' : World) × (last v ≡ (ok tt, v')) × P v')
      → try_finally m last w ≡ (r, w')
      → P w'
  try_finally_lem m last P r w w' ends h = elim (outcome (m w)) [
    | inl (u, v, done) ↦
        let (v', ended, holds) = ends v in
        let e = bind_ok guarded (λ u. last) w (try_ok m any_exn handler w done) ∙ ended in
        subst (λ x. P x.1) (sym e ∙ h) holds
    | inr (x, v, failed) ↦
        let (v', ended, holds) = ends v in
        let handled = try_err m any_exn handler w failed ∙ bind_ok last (λ u. raise x) v ended in
        let e = bind_err guarded (λ u. last) w handled in subst (λ y. P y.1) (sym e ∙ h) holds
  ]
    where
      handler : Exn → M (Unit {0})
      handler e = last >> raise e

      guarded : M (Unit {0})
      guarded = try_except m any_exn handler

  -- The file holds the text, or the kernel refuses it.
  abbrev pub Tagged : FsPath → Text → World → Type 0
  Tagged f s w = (content f w.fs ≡ some s) ⊎ (k.write f s w.fs ≡ none)

  set_acl_tag-Tagged :
      (p : FsPath) (s : Text) (v : World)
      → ((fs fs' : Fs)
          → k.write (codes "tag" ∷ p) s fs ≡ some fs'
          → content (codes "tag" ∷ p) fs' ≡ some s)
      → (v' : World) × (set_acl_tag p (Json.text s) v ≡ (ok tt, v')) × Tagged (codes "tag" ∷ p) s v'
  unfolding set_acl_tag fwrite is_os to_text
  set_acl_tag-Tagged p s v law = elim (Option-cases (k.write (codes "tag" ∷ p) s v.fs)) [
    | inl refused ↦ (v, try_err (fwrite f s) is_os (λ e. pure tt) v (ap wrote refused), inr refused)
    | inr (fs', done) ↦ (
      record v { fs = fs' },
      try_ok (fwrite f s) is_os (λ e. pure tt) v (ap wrote done),
      inl (law v.fs fs' done),
    )
  ]
    where
      f : FsPath
      f = codes "tag" ∷ p

      wrote : Option Fs → Result (Unit {0}) × World
      wrote o = elim o [ none ↦ (err os_error, v) | some fs' ↦ (ok tt, record v { fs = fs' }) ]

  -- The end of add_acl for an ACL that is no member yet, whether it returns or raises, on any path
  -- through the copying of the configuration: the ACL's tag is the name of the group, or the kernel
  -- refuses to take this tag. Where the kernel takes a tag the file holds it.
  pub join_group-Tagged :
      (g : NodeAclGroup) (acl : NodeAcl) (r : Result (Unit {0})) (w w' : World)
      → ((fs fs' : Fs)
          → k.write (codes "tag" ∷ acl.path) g.name fs ≡ some fs'
          → content (codes "tag" ∷ acl.path) fs' ≡ some g.name)
      → join_group g acl w ≡ (r, w')
      → (content (codes "tag" ∷ acl.path) w'.fs ≡ some g.name)
        ⊎ (k.write (codes "tag" ∷ acl.path) g.name w'.fs ≡ none)
  unfolding join_group
  join_group-Tagged g acl r w w' law h =
      try_finally_lem (take_config g acl) (set_acl_tag acl.path (Json.text g.name))
        (Tagged (codes "tag" ∷ acl.path) g.name) r w w'
        (λ v. set_acl_tag-Tagged acl.path g.name v law) h
