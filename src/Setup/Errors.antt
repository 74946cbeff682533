-- ===== src/Setup/Errors.antt =====
-- Errors while a saved configuration is restored (the `setup` methods of rtslib/target.py): which
-- are collected, and which end the restore.
use rtslib_fb.Prelude.{
  ◌≡◌, refl, ap, ◌∙◌, true, inl, inr, List, [], ◌∷◌, Text, codes, to_text, Json, Exn, ok, err,
  is_rtslib, is_os, os_error, type_error, if◌then◌else◌, arith,
}
use rtslib_fb.Cfs.{
  FsPath, Kernel, World, M, raise, try_except, is_file, is_dir, fwrite, collect_error,
}
use rtslib_fb.Cfs.Laws.{bind_ok, try_ok, try_err, outcome}
use rtslib_fb.Node.{check_self, exists, set_attribute}
use rtslib_fb.Setup.{set_attributes, set_tcq_depth}

module _ ⦃k : Kernel⦄ where
  -- Whatever goes wrong in `set_attribute` is an RTSLibError.
  set_attribute_error :
      (p : FsPath) (a v : Text) (e : Exn) (w w' : World)
      → set_attribute p a v w ≡ (err e, w')
      → is_rtslib e ≡ true
  unfolding set_attribute check_self exists is_file is_dir fwrite is_rtslib
  set_attribute_error p a v e w w' h = ground arith

  attribute_round :
      (p : FsPath) (a v : Text) (w : World)
      → (w' : World) × (try_except
            (set_attribute p a v)
            is_rtslib
            (λ e. collect_error "Cannot set attribute")
            w
          ≡ (ok tt, w'))
  attribute_round p a v w = elim (outcome (set_attribute p a v w)) [
    | inl (u, w', done) ↦ (w', try_ok (set_attribute p a v) is_rtslib report w done)
    | inr (e, w', failed) ↦ (
      (report e w').1,
      try_err (set_attribute p a v) is_rtslib report w failed
          ∙ ap (λ b. if b then report e w' else (err e, w'))
              (set_attribute_error p a v e w w' failed),
    )
  ]
    where
      report : Exn → M (Unit {0})
      report e = collect_error "Cannot set attribute"

  -- Restoring attributes with the collecting `err_func` never raises.
  pub set_attributes-collect_error :
      (p : FsPath) (attrs : List (Text × Json)) (w : World)
      → (w' : World) × (set_attributes p attrs collect_error w ≡ (ok tt, w'))
  unfolding set_attributes
  set_attributes-collect_error p [] w = (w, refl)
  set_attributes-collect_error p ((a, v) ∷ attrs) w =
      let first = attribute_round p a (to_text v) w in
      let rest = set_attributes-collect_error p attrs first.0 in
      (
        rest.0,
        bind_ok
              (try_except (set_attribute p a (to_text v)) is_rtslib
                (λ e. collect_error "Cannot set attribute"))
              (λ u. set_attributes p attrs collect_error) w first.1
            ∙ rest.1,
      )

  -- A queue depth that the kernel refuses, for an ACL that is there, raises a TypeError instead
  -- of the RTSLibError that the handler builds.
  pub set_tcq_depth_refused :
      (p : FsPath) (depth : Json) (w : World)
      → check_self p w ≡ (ok tt, w)
      → fwrite (codes "cmdsn_depth" ∷ p) (to_text depth) w ≡ (err os_error, w)
      → set_tcq_depth p depth w ≡ (err type_error, w)
  unfolding set_tcq_depth is_os
  set_tcq_depth_refused p depth w there refused =
      bind_ok (check_self p) (λ u. try_except put_depth is_os (λ e. raise type_error)) w there
      ∙ try_err put_depth is_os (λ e. raise type_error) w refused
    where
      put_depth : M (Unit {0})
      put_depth = fwrite (codes "cmdsn_depth" ∷ p) (to_text depth)
