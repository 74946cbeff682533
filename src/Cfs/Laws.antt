-- ===== src/Cfs/Laws.antt =====
-- How a method goes on behind a step whose outcome is known.
use rtslib_fb.Prelude.{
  ◌≡◌, refl, ap, sym, ◌∙◌, ◌⊎◌, inl, inr, Bool, true, false, some, Text, List, [], ◌∷◌, ◌++◌, Exn,
  Result, ok, err, all, if◌then◌else◌, arith,
}
use rtslib_fb.Cfs.{
  FsPath, Fs, content, is_file_in, is_dir_in, Kernel, World, M, pure, ◌>>=◌, ◌>>◌, try_except,
  any_exn, raise, for_until, for_each,
}

module _ {A B : Type 0} where
  -- The rest of a method, given the outcome of its first step.
  abbrev resume : (A → M B) → Result A × World → Result B × World
  resume f (ok a, w) = f a w
  resume f (err e, w) = (err e, w)

  bind_resume : (m : M A) (f : A → M B) (w : World) → (m >>= f) w ≡ resume f (m w)
  bind_resume m f w = from (m w)
    where
      from :
          (r : Result A × World)
          → (let (x, w') = r in elim x [ ok a ↦ f a w' | err e ↦ (err e, w') ]) ≡ resume f r
      from (ok a, w') = refl
      from (err e, w') = refl

  pub bind_ok :
      (m : M A) (f : A → M B) (w : World) {w' : World} {a : A}
      → m w ≡ (ok a, w')
      → (m >>= f) w ≡ f a w'
  bind_ok m f w h = bind_resume m f w ∙ ap (resume f) h

  pub bind_err :
      (m : M A) (f : A → M B) (w : World) {w' : World} {e : Exn}
      → m w ≡ (err e, w')
      → (m >>= f) w ≡ (err e, w')
  bind_err m f w h = bind_resume m f w ∙ ap (resume f) h

  pub bind_cong : (m n : M A) (f : A → M B) (w : World) → m w ≡ n w → (m >>= f) w ≡ (n >>= f) w
  bind_cong m n f w e = bind_resume m f w ∙ ap (resume f) e ∙ sym (bind_resume n f w)

module _ {A : Type 0} where
  abbrev handled : (Exn → Bool) → (Exn → M A) → Result A × World → Result A × World
  handled catches handler (ok a, w) = (ok a, w)
  handled catches handler (err e, w) = if catches e then handler e w else (err e, w)

  try_handled :
      (m : M A) (catches : Exn → Bool) (handler : Exn → M A) (w : World)
      → try_except m catches handler w ≡ handled catches handler (m w)
  try_handled m catches handler w = from (m w)
    where
      from :
          (r : Result A × World)
          → (let (x, w') = r in
              elim x [
                | ok a ↦ (ok a, w')
                | err e ↦ (if catches e then handler e w' else (err e, w'))
              ])
            ≡ handled catches handler r
      from (ok a, w') = refl
      from (err e, w') = refl

  pub try_ok :
      (m : M A) (catches : Exn → Bool) (handler : Exn → M A) (w : World) {w' : World} {a : A}
      → m w ≡ (ok a, w')
      → try_except m catches handler w ≡ (ok a, w')
  try_ok m catches handler w h = try_handled m catches handler w ∙ ap (handled catches handler) h

  pub try_err :
      (m : M A) (catches : Exn → Bool) (handler : Exn → M A) (w : World) {w' : World} {e : Exn}
      → m w ≡ (err e, w')
      → try_except m catches handler w ≡ (if catches e then handler e w' else (err e, w'))
  try_err m catches handler w h = try_handled m catches handler w ∙ ap (handled catches handler) h

  -- A run either returns or raises.
  pub outcome :
      (r : Result A × World)
      → ((a : A) × (w : World) × (r ≡ (ok a, w))) ⊎ ((e : Exn) × (w : World) × (r ≡ (err e, w)))
  outcome (ok a, w) = inl (a, w, refl)
  outcome (err e, w) = inr (e, w, refl)

module _ {A : Type 0} (test : A → Bool) where
  -- A loop whose rounds all do nothing.
  pub for_until_idle :
      (xs : List A) (body : A → M Bool) (w : World)
      → ((x : A) → test x ≡ true → body x w ≡ (ok false, w))
      → all test xs ≡ true
      → for_until xs body w ≡ (ok tt, w)
  for_until_idle [] body w idle h = refl
  for_until_idle (x ∷ xs) body w idle h =
      bind_ok (body x) (λ stop. if stop then pure tt else for_until xs body) w
        (idle x (ground arith))
      ∙ for_until_idle xs body w idle (ground arith)

-- A file that can be read is a file.
pub is_file-content :
    (p : FsPath) (fs : Fs) (s : Text) → content p fs ≡ some s → is_file_in p fs ≡ true
is_file-content p fs s h = ground arith

-- The kernel's side: a readable attribute that takes a write holds the text that was written, and
-- the object stays.
pub record Stores (k : Kernel) (p attribute : FsPath) : Type 0 where
  pub stores :
      (s : Text) (fs fs' : Fs)
      → k.write (attribute ++ p) s fs ≡ some fs'
      → content (attribute ++ p) fs' ≡ some s
  pub stays :
      (s : Text) (fs fs' : Fs)
      → k.write (attribute ++ p) s fs ≡ some fs'
      → is_dir_in p fs ≡ true
      → is_dir_in p fs' ≡ true

module _ {A B : Type 0} where
  -- What has returned has gone through its first step.
  pub bind_inv :
      (m : M A) (f : A → M B) (w : World) {b : B} {w'' : World}
      → (m >>= f) w ≡ (ok b, w'')
      → (a : A) × (w' : World) × (m w ≡ (ok a, w')) × (f a w' ≡ (ok b, w''))
  bind_inv m f w {b} {w''} h = elim (outcome (m w)) [
    | inl (a, w', done) ↦ (a, w', done, sym (bind_ok m f w done) ∙ h)
    | inr (e, w', failed) ↦
        let x : ◌≡◌ {A = Result B × World} (err e, w') (ok b, w'') =
          sym (bind_err m f w failed) ∙ h in
        absurd (ground arith)
  ]

-- The kernel's side: a write to an attribute of one object changes neither that of another nor
-- whether the other is there.
pub record Apart (k : Kernel) (p q attribute : FsPath) : Type 0 where
  pub keeps :
      (s : Text) (fs fs' : Fs)
      → k.write (attribute ++ p) s fs ≡ some fs'
      → content (attribute ++ q) fs' ≡ content (attribute ++ q) fs
  pub stands :
      (s : Text) (fs fs' : Fs)
      → k.write (attribute ++ p) s fs ≡ some fs'
      → is_dir_in q fs ≡ true
      → is_dir_in q fs' ≡ true

module _ {A : Type 0} where
  -- A loop that has returned has gone through its first round.
  pub for_each_inv :
      (x : A) (xs : List A) (body : A → M (Unit {0})) (w : World) {w'' : World}
      → for_each (x ∷ xs) body w ≡ (ok tt, w'')
      → (w' : World) × (body x w ≡ (ok tt, w')) × (for_each xs body w' ≡ (ok tt, w''))
  for_each_inv x xs body w h =
      let r = bind_inv (body x) (λ u. for_each xs body) w h in (r.1, r.2, r.3)

-- The kernel's side: a directory that was removed is not there, and no other appears.
pub record RemovesDirectories (k : Kernel) : Type 0 where
  pub removes : (p : FsPath) (fs fs' : Fs) → k.rmdir p fs ≡ some fs' → is_dir_in p fs' ≡ false
  pub makes_none :
      (p q : FsPath) (fs fs' : Fs)
      → k.rmdir p fs ≡ some fs'
      → is_dir_in q fs ≡ false
      → is_dir_in q fs' ≡ false

-- Where the method returns, the world has the property.
abbrev pub Ends : (World → Type 0) → M (Unit {0}) → Type 0
Ends P m = (w w' : World) → m w ≡ (ok tt, w') → P w'

pub bind-Ends :
    {A : Type 0} (P : World → Type 0) (m : M A) (f : A → M (Unit {0}))
    → ((a : A) → Ends P (f a))
    → Ends P (m >>= f)
bind-Ends P m f last w w' h = let (a, v, first, rest) = bind_inv m f w h in last a v w' rest

-- Steps, and then the last one.
abbrev pub steps : List (M (Unit {0})) → M (Unit {0}) → M (Unit {0})
steps [] last = last
steps (m ∷ ms) last = m >> steps ms last

pub steps-Ends :
    (P : World → Type 0) (ms : List (M (Unit {0}))) (last : M (Unit {0}))
    → Ends P last
    → Ends P (steps ms last)
steps-Ends P [] last ends = ends
steps-Ends P (m ∷ ms) last ends =
    bind-Ends P m (λ u. steps ms last) (λ u. steps-Ends P ms last ends)

-- Where a step raises, a handler that undoes what was done before returns, and raises the same again.
pub undone :
    (m undo : M (Unit {0})) (w : World) {w' w'' : World} {e : Exn}
    → m w ≡ (err e, w')
    → undo w' ≡ (ok tt, w'')
    → try_except m any_exn (λ e. undo >> raise e) w ≡ (err e, w'')
undone m undo w {w'} {w''} {e} failed back =
    try_err m any_exn (λ e. undo >> raise e) w failed ∙ bind_ok undo (λ t. raise e) w' back
