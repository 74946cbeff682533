-- ===== src/Target/AluaRoundTrip.antt =====
-- The ALUA status of a LUN (rtslib/target.py): what is set is what is read.
use rtslib_fb.Prelude.{
  ◌≡◌, ap, sym, subst, Option-cases, Bool-cases, py_int, inl, inr, ◌∙◌, Bool, true, false, not,
  Option, none, some, [], ◌∷◌, Text, codes, ℤ, int_text, strip, py_int-int_text, strip-int_text,
  Result, ok, err, value_error, os_error, is_os, if◌then◌else◌, arith,
}
use rtslib_fb.Cfs.{
  FsPath, Fs, is_file_in, content, Kernel, World, M, pure, lift, ◌>>=◌, ◌>>◌, when, try_except,
  is_file, fread, fwrite,
}
use rtslib_fb.Cfs.Laws.{Stores, bind_inv, bind_ok, bind_err, try_ok, try_err, is_file-content}
use rtslib_fb.Node
use rtslib_fb.Node.Create.{check_self_lem}
use rtslib_fb.Target.Objects.{Lun}
use rtslib_fb.Cfs.Stays.{Stays, bind-Stays}
use rtslib_fb.Tcm.Lookup.{cls, alua_supported}
use rtslib_fb.Tcm.Lookup.Unchanged.{check_self-Stays, alua_supported-Stays}
use rtslib_fb.Target.Create.{get_storage_object}
use rtslib_fb.Target.Create.Linked.{get_storage_object-Stays}
use rtslib_fb.Target.Alua.{
  alua_file, is_status, int_of_text, lun_supports_alua, get_alua_tg_pt, set_alua_tg_pt,
  get_alua_tg_pt_status, set_alua_tg_pt_status,
}

module _ ⦃k : Kernel⦄ where
  -- To ask whether the storage object of a LUN supports ALUA changes nothing.
  lun_supports_alua-Stays : (l : Lun) → Stays (lun_supports_alua l)
  unfolding lun_supports_alua
  lun_supports_alua-Stays l =
      bind-Stays (Node.check_self l.path)
        (λ u. get_storage_object l >>= λ so. alua_supported (cls so) so.path)
        (check_self-Stays l.path)
        (λ u.
          bind-Stays (get_storage_object l) (λ so. alua_supported (cls so) so.path)
            (get_storage_object-Stays l) (λ so. alua_supported-Stays (cls so) so.path))

  abbrev write_file : Text → Text → Lun → M Bool
  write_file name value l =
      try_except
        (do
          there ← is_file (alua_file name l)
          when there (fwrite (alua_file name l) value)
          pure true)
        is_os (λ e. pure false)

  abbrev write_if : Text → Text → Lun → Bool → M Bool
  write_if name value l supported = if not supported then pure false else write_file name value l

  abbrev write_value : FsPath → Text → Bool → M Bool
  write_value f value there =
      try_except (do when there (fwrite f value); pure true) is_os (λ e. pure false)

  write_value-content :
      (f : FsPath) (value : Text) (w w' : World)
      → ((fs' : Fs) → k.write f value w.fs ≡ some fs' → content f fs' ≡ some value)
      → write_value f value true w ≡ (ok true, w')
      → content f w'.fs ≡ some value
  unfolding fwrite is_os
  write_value-content f value w w' law h = elim (Option-cases (k.write f value w.fs)) [
    | inl failed ↦
        let raised = bind_err (fwrite f value) (λ u. pure true) w (ap wrote failed) in
        let x : ◌≡◌ {A = Result Bool × World} (ok false, w) (ok true, w') =
          sym (try_err write_true is_os (λ e. pure false) w raised) ∙ h in
        absurd (ground arith)
    | inr (fs', done) ↦
        let returned = bind_ok (fwrite f value) (λ u. pure true) w (ap wrote done) in
        let x = sym (try_ok write_true is_os (λ e. pure false) w returned) ∙ h in
        subst (λ r. content f r.1.fs ≡ some value) x (law fs' done)
  ]
    where
      write_true : M Bool
      write_true = fwrite f value >> pure true

      wrote : Option Fs → Result (Unit {0}) × World
      wrote o = elim o [ none ↦ (err os_error, w) | some fs' ↦ (ok tt, record w { fs = fs' }) ]

  write_file-content :
      (name value : Text) (l : Lun) (w w' : World)
      → Stores k l.path (name ∷ [])
      → is_file_in (alua_file name l) w.fs ≡ true
      → write_file name value l w ≡ (ok true, w')
      → content (alua_file name l) w'.fs ≡ some value
  unfolding is_file
  write_file-content name value l w w' law here h =
      write_value-content (alua_file name l) value w w' (law.stores value w.fs)
        (sym (ap (λ b. write_value (alua_file name l) value b w) here) ∙ h)

  module _ {A : Type 0} where
    abbrev read_file : Text → (Text → Result A) → Lun → M (Option A)
    read_file name decode l =
        try_except
          (do
            there ← is_file (alua_file name l)
            if there
                then (do s ← fread (alua_file name l); a ← lift (decode s); pure (some a))
                else pure none)
          is_os (λ e. pure none)

    abbrev read_if : Text → (Text → Result A) → Lun → Bool → M (Option A)
    read_if name decode l supported = if not supported then pure none else read_file name decode l

    read_file-content :
        (name value : Text) (decode : Text → Result A) (a : A) (l : Lun) (w : World)
        → content (alua_file name l) w.fs ≡ some value
        → decode (strip value) ≡ ok a
        → read_file name decode l w ≡ (ok (some a), w)
    unfolding is_file fread is_os
    read_file-content name value decode a l w here fine =
        ground (arith, is_file-content (alua_file name l) w.fs value)

  -- Where a write returns 0, the storage object supports ALUA and the file took the text.
  write_if-content :
      (name value : Text) (l : Lun) (supported : Bool) (w w' : World)
      → Stores k l.path (name ∷ [])
      → is_file_in (alua_file name l) w.fs ≡ true
      → write_if name value l supported w ≡ (ok true, w')
      → content (alua_file name l) w'.fs ≡ some value
  write_if-content name value l true w w' law here h =
      write_file-content name value l w w' law here h
  write_if-content name value l false w w' law here h =
      let x : ◌≡◌ {A = Result Bool × World} (ok false, w) (ok true, w') = h in absurd (ground arith)

  -- The set that returns 0 and then the get.
  pub get-set_alua_tg_pt :
      {A : Type 0} (name value : Text) (decode : Text → Result A) (a : A) (l : Lun)
      (w w' w2 : World)
      → Stores k l.path (name ∷ [])
      → is_file_in (alua_file name l) w.fs ≡ true
      → set_alua_tg_pt name value l w ≡ (ok true, w')
      → lun_supports_alua l w' ≡ (ok true, w2)
      → decode (strip value) ≡ ok a
      → get_alua_tg_pt name decode l w' ≡ (ok (some a), w')
  unfolding set_alua_tg_pt get_alua_tg_pt
  get-set_alua_tg_pt name value decode a l w w' w2 law here h after fine =
      let (supported, v, before, wrote) =
        bind_inv (lun_supports_alua l) (write_if name value l) w h in
      let still = lun_supports_alua-Stays l supported w v before in
      let there = ap (λ x. is_file_in (alua_file name l) x.fs) still ∙ here in
      let held = write_if-content name value l supported v w' law there wrote in
      let same = lun_supports_alua-Stays l true w' w2 after in
      bind_ok (lun_supports_alua l) (read_if name decode l) w' (after ∙ ap (λ x. (ok true, x)) same)
      ∙ read_file-content name value decode a l w' held fine

  abbrev set_if : Lun → ℤ → Bool → M Bool
  set_if l n fits =
      if fits then set_alua_tg_pt (codes "alua_tg_pt_status") (int_text n) l else pure false

  int_of_text-int_text : (n : ℤ) → int_of_text (strip (int_text n)) ≡ ok n
  unfolding int_of_text
  int_of_text-int_text n = ap from (ap py_int (strip-int_text n) ∙ py_int-int_text n)
    where
      from : Option ℤ → Result ℤ
      from o = elim o [ none ↦ err value_error | some m ↦ ok m ]

  -- Where the file of a LUN's ALUA status is there and the kernel stores what is written to it, a set
  -- of the status returns 0, and the storage object supports ALUA behind the set: the number is one
  -- of the three statuses, and the get that follows returns it and changes nothing.
  pub get-set_alua_tg_pt_status :
      (l : Lun) (n : ℤ) (w w' w2 : World)
      → Stores k l.path (codes "alua_tg_pt_status" ∷ [])
      → is_file_in (codes "alua_tg_pt_status" ∷ l.path) w.fs ≡ true
      → set_alua_tg_pt_status l n w ≡ (ok true, w')
      → lun_supports_alua l w' ≡ (ok true, w2)
      → (is_status n ≡ true) × (get_alua_tg_pt_status l w' ≡ (ok (some n), w'))
  unfolding set_alua_tg_pt_status get_alua_tg_pt_status
  get-set_alua_tg_pt_status l n w w' w2 law here h after =
      let (u, v, checked, rest) =
        bind_inv (Node.check_self l.path) (λ u. set_if l n (is_status n)) w h in
      let still = check_self_lem l.path w v checked in
      let set = subst (λ x. set_if l n (is_status n) x ≡ (ok true, w')) still rest in
      elim (Bool-cases (is_status n)) [
        | inl fits ↦ (
          fits,
          get-set_alua_tg_pt (codes "alua_tg_pt_status") (int_text n) int_of_text n l w w' w2 law
              here (sym (ap (λ b. set_if l n b w) fits) ∙ set) after (int_of_text-int_text n),
        )
        | inr odd ↦
            let x : ◌≡◌ {A = Result Bool × World} (ok false, w) (ok true, w') =
              sym (ap (λ b. set_if l n b w) odd) ∙ set in
            absurd (ground arith)
      ]
