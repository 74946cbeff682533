-- ===== src/Groups/Agreement.antt =====
-- An attribute of an object of a group (rtslib/target.py): what it holds behind a set, on itself or on
-- another object.
use rtslib_fb.Prelude.{
  ◌≡◌, ◌≢◌, subst, Bool-cases, true, inl, inr, some, [], ◌∷◌, ◌++◌, Text, codes, strip, ok, arith,
}
use rtslib_fb.Cfs.{
  FsPath, path_eq, path_eq_iff, content, is_dir_in, Kernel, World, is_dir, is_file, fread, fwrite,
}
use rtslib_fb.Cfs.Laws.{is_file-content, Stores, Apart}
use rtslib_fb.Node
use rtslib_fb.Node.{check_self, exists}

abbrev pub attrib : Text → FsPath
attrib a = a ∷ codes "attrib" ∷ []

-- The object is there and its attribute holds the text.
abbrev pub Holds : FsPath → Text → Text → World → Type 0
Holds p a v w = (is_dir_in p w.fs ≡ true) × (content (attrib a ++ p) w.fs ≡ some v)

module _ ⦃k : Kernel⦄ where
  pub set_attribute-Holds :
      (p : FsPath) (a v : Text) (w w' : World)
      → Stores k p (attrib a)
      → Node.set_attribute p a v w ≡ (ok tt, w')
      → Holds p a v w'
  unfolding Node.set_attribute check_self exists is_dir is_file fwrite
  set_attribute-Holds p a v w w' law h =
      ground (arith, law.stores v w.fs w'.fs, law.stays v w.fs w'.fs)

  set_attribute-Holds_ne :
      (p q : FsPath) (a v : Text) (w w' : World)
      → Apart k p q (attrib a)
      → Node.set_attribute p a v w ≡ (ok tt, w')
      → Holds q a v w
      → Holds q a v w'
  unfolding Node.set_attribute check_self exists is_dir is_file fwrite
  set_attribute-Holds_ne p q a v w w' law h old =
      ground (arith, law.keeps v w.fs w'.fs, law.stands v w.fs w'.fs)

  pub get_attribute-Holds :
      (p : FsPath) (a v : Text) (w : World)
      → Holds p a v w
      → Node.get_attribute p a w ≡ (ok (strip v), w)
  unfolding Node.get_attribute check_self exists is_dir is_file fread
  get_attribute-Holds p a v w h = ground (arith, is_file-content (attrib a ++ p) w.fs v)

module _ ⦃k : Kernel⦄ (a v : Text) (store : (p : FsPath) → Stores k p (attrib a))
    (apart : (p q : FsPath) → p ≢ q → Apart k p q (attrib a)) where
  -- What an object holds stays through a set on any object.
  pub stays_set :
      (p q : FsPath) (w w' : World)
      → Node.set_attribute p a v w ≡ (ok tt, w')
      → Holds q a v w
      → Holds q a v w'
  stays_set p q w w' h old = elim (Bool-cases (path_eq p q)) [
    | inl same ↦
        subst (λ o. Holds o a v w') ((path_eq_iff p q).0 same)
          (set_attribute-Holds p a v w w' (store p) h)
    | inr other ↦
        set_attribute-Holds_ne p q a v w w'
          (apart p q (λ e. absurd (ground (arith, path_eq_iff p q)))) h old
  ]
