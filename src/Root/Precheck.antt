-- ===== src/Root/Precheck.antt =====
-- When `restore` (rtslib/root.py) refuses, and what it and `clear_existing` leave alone.
use rtslib_fb.Prelude.{
  Each, ◌≢◌, ◌⊎◌, text_eq, text_eq_iff, Bool-cases, ℕ, ◌≡◌, refl, ◌↔◌, Bool, true, false,
  Option-cases, inl, inr, Option, none, some, List, [], ◌∷◌, Text, all, Result, ok, err, key_error,
  if◌then◌else◌, rtslib_error, String, arith,
}
use rtslib_fb.Cfs.{Kernel, World, for_until}
use rtslib_fb.Cfs.Laws.{for_until_idle}
use rtslib_fb.Devices.{Udev}
use rtslib_fb.Tcm.Backstore.{plugin_name}
use rtslib_fb.Tcm.Lookup.{StorageObject, cls}
use rtslib_fb.Target.Objects.{Target}
use rtslib_fb.Setup.{SavedTarget, ErrFunc}
use rtslib_fb.Root.{
  SavedSo, Config, selected, clear_existing, so_clash, target_clash, check_against, check_all,
  precheck, restore_so, restore_target,
}

-- The saved storage object has a name, and another one than the loaded object or a plugin that is
-- another one.
abbrev pub SoDiffers : SavedSo → StorageObject → Type 0
SoDiffers s l =
    (n : Text) × (s.name ≡ some n)
    × ((n ≢ l.name) ⊎ ((p : Text) × (s.plugin ≡ some p) × (p ≢ plugin_name (cls l))))

-- The saved target has a WWN, and another one than the loaded target.
abbrev pub TargetDiffers : SavedTarget → Target → Type 0
TargetDiffers s t = (w : Text) × (s.wwn ≡ some w) × (w ≢ t.wwn)

-- A key's comparison with a text.
abbrev compared : Option Text → Text → Result Bool
compared o x = elim o [ none ↦ err key_error | some w ↦ ok (text_eq w x) ]

abbrev Other : Option Text → Text → Type 0
Other o x = (w : Text) × (o ≡ some w) × (w ≢ x)

compared_iff : (o : Option Text) (x : Text) → (compared o x ≡ ok false) ↔ Other o x
compared_iff none x = (λ h. absurd (ground arith), λ d. let (w, e, ne) = d in absurd (ground arith))
compared_iff (some v) x = (
  λ h. (v, refl, λ e. absurd (ground (arith, text_eq_iff v x))),
  λ d. let (w, e, ne) = d in ground (arith, text_eq_iff v x),
)

named_iff :
    (o : Option Text) (x : Text) (plugin : Option Text) (y : Text)
    → (elim o [
      | none ↦ err key_error
      | some n ↦ (if text_eq n x then compared plugin y else ok false)
    ]
        ≡ ok false)
      ↔ ((n : Text) × (o ≡ some n) × ((n ≢ x) ⊎ Other plugin y))
named_iff none x plugin y =
    (λ h. absurd (ground arith), λ d. let (n, e, other) = d in absurd (ground arith))
named_iff (some v) x plugin y = elim (Bool-cases (text_eq v x)) [
  | inl same ↦ (
    λ h. (v, refl, inr ((compared_iff plugin y).0 (rw same at h))),
    λ d.
        let (n, e, other) = d in
        elim other [
          | inl ne ↦ absurd (ground (arith, text_eq_iff v x))
          | inr differs ↦ rw same ((compared_iff plugin y).1 differs)
        ],
  )
  | inr unlike ↦
      (λ h. (v, refl, inl (λ e. absurd (ground (arith, text_eq_iff v x)))), λ d. rw unlike refl)
]

so_clash_iff : (s : SavedSo) (l : StorageObject) → (so_clash s l ≡ ok false) ↔ SoDiffers s l
unfolding so_clash
so_clash_iff s l = named_iff s.name l.name s.plugin (plugin_name (cls l))

target_clash_iff :
    (s : SavedTarget) (t : Target) → (target_clash s t ≡ ok false) ↔ TargetDiffers s t
unfolding target_clash
target_clash_iff s t = compared_iff s.wwn t.wwn

-- The loops pass where no pair clashes, whatever that means.
module _ {S L : Type 0} (clash : S → L → Result Bool) (message : String) (Differs : S → L → Type 0)
    (clash_iff : (s : S) (l : L) → (clash s l ≡ ok false) ↔ Differs s l) where
  check_against_iff :
      (s : S) (ls : List L) → (check_against clash message s ls ≡ ok tt) ↔ Each (Differs s) ls
  unfolding check_against
  check_against_iff s [] = ground arith
  check_against_iff s (l ∷ ls) = ground (arith, check_against_iff s ls, clash_iff s l)

  check_all_iff :
      (ss : List S) (ls : List L)
      → (check_all clash message ss ls ≡ ok tt) ↔ Each (λ s. Each (Differs s) ls) ss
  unfolding check_all
  check_all_iff [] ls = ground arith
  check_all_iff (s ∷ ss) ls = ground (arith, check_all_iff ss ls, check_against_iff s ls)

-- The check before a restore that does not clear passes exactly where, for each storage object of the
-- configuration and each loaded one, the former has a name, and it is another name or the former has
-- a plugin that is another one; and where, for each target of the configuration and each loaded one,
-- the former has a WWN, and it is another one. Where nothing is loaded nothing is asked for.
pub precheck_iff :
    (c : Config) (sos : List StorageObject) (ts : List Target)
    → (precheck c sos ts ≡ ok tt) ↔ (
        Each (λ s. Each (SoDiffers s) sos) c.storage_objects
        × Each (λ s. Each (TargetDiffers s) ts) c.targets)
unfolding precheck
precheck_iff c sos ts = ground (
  arith,
  check_all_iff so_clash "storageobject exist not restoring" SoDiffers so_clash_iff
      c.storage_objects sos,
  check_all_iff target_clash "target with wwn exist, not restoring" TargetDiffers target_clash_iff
      c.targets ts,
)

-- The storage objects of a configuration all have names, and the targets WWNs.
abbrev pub is_named : SavedSo → Bool
is_named s = elim s.name [ none ↦ false | some n ↦ true ]

abbrev pub has_wwn : SavedTarget → Bool
has_wwn s = elim s.wwn [ none ↦ false | some n ↦ true ]

module _ ⦃k : Kernel⦄ where
  -- Without the confirmation nothing is cleared, whatever is selected.
  pub clear_existing_unconfirmed :
      (target storage_object : Option Text) (w : World)
      → clear_existing target storage_object false w
        ≡ (err (rtslib_error "As a precaution, confirm=True needs to be set"), w)
  unfolding clear_existing
  clear_existing_unconfirmed target storage_object w = refl

  restore_so_other :
      (u : Udev) (page : ℕ) (f : ErrFunc) (t : Text) (s : SavedSo) (w : World)
      → is_named s ≡ true
      → restore_so u page f (some t) none s w ≡ (ok false, w)
  unfolding restore_so selected
  restore_so_other u page f t s w h = elim (Option-cases s.name) [
    | inl absent ↦ absurd (ground arith)
    | inr (n, found) ↦ rw found
  ]

  -- In a restore of one target alone the loop over the storage objects, which all have names,
  -- returns and changes nothing.
  pub restore_so_for_target :
      (u : Udev) (page : ℕ) (f : ErrFunc) (t : Text) (ss : List SavedSo) (w : World)
      → all is_named ss ≡ true
      → for_until ss (restore_so u page f (some t) none) w ≡ (ok tt, w)
  restore_so_for_target u page f t ss w h =
      for_until_idle is_named ss (restore_so u page f (some t) none) w
        (λ s named. restore_so_other u page f t s w named) h

  restore_target_other :
      (u : Udev) (page : ℕ) (f : ErrFunc) (o : Text) (s : SavedTarget) (w : World)
      → has_wwn s ≡ true
      → restore_target u page f none (some o) s w ≡ (ok false, w)
  unfolding restore_target selected
  restore_target_other u page f o s w h = elim (Option-cases s.wwn) [
    | inl absent ↦ absurd (ground arith)
    | inr (n, found) ↦ rw found
  ]

  -- In a restore of one storage object alone the loop over the targets, which all have WWNs,
  -- returns and changes nothing.
  pub restore_target_for_so :
      (u : Udev) (page : ℕ) (f : ErrFunc) (o : Text) (ss : List SavedTarget) (w : World)
      → all has_wwn ss ≡ true
      → for_until ss (restore_target u page f none (some o)) w ≡ (ok tt, w)
  restore_target_for_so u page f o ss w h =
      for_until_idle has_wwn ss (restore_target u page f none (some o)) w
        (λ s named. restore_target_other u page f o s w named) h
