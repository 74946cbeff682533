-- ===== src/Tcm/Backstore/Deletion.antt =====
-- What a deleted backstore (rtslib/tcm.py) leaves in `bs_cache` and in configFS.
use rtslib_fb.Prelude.{
  ◌≡◌, sym, ap, subst, ◌∙◌, inl, inr, none, false, Text, Result, ok, err, arith,
}
use rtslib_fb.Cfs.{FsPath, is_dir_in, Kernel, World, is_dir, rmdir}
use rtslib_fb.Cfs.Laws.{RemovesDirectories, bind_ok, bind_err, bind_inv, outcome}
use rtslib_fb.Node
use rtslib_fb.Node.{exists}
use rtslib_fb.Node.Create.{delete-is_dir_in, delete-is_dir_in_ne}
use rtslib_fb.Tcm.Cache.{Cache, get, remove, IsInjective, remove-IsInjective, get-remove}
use rtslib_fb.Tcm.Backstore.{Backstore, delete, forget}

-- The cache loses the key, unless the directory could not be removed.
abbrev pub Left : Text → Cache → Result (Unit {0}) → Cache → Type 0
Left key c (ok u) c' = c' ≡ remove key c
Left key c (err e) c' = c' ≡ c

module _ ⦃k : Kernel⦄ where
  delete-bs_cache :
      (p : FsPath) (r : Result (Unit {0})) (w w' : World)
      → Node.delete p w ≡ (r, w')
      → w'.bs_cache ≡ w.bs_cache
  unfolding Node.delete exists is_dir rmdir
  delete-bs_cache p r w w' h = ground arith

  pub delete-Left :
      (b : Backstore) (r : Result (Unit {0})) (w w' : World)
      → delete b w ≡ (r, w')
      → Left b.key w.bs_cache r w'.bs_cache
  unfolding delete forget
  delete-Left b r w w' h = elim (outcome (Node.delete b.path w)) [
    | inl (u, v, gone) ↦
        subst (λ x. Left b.key w.bs_cache x.0 x.1.bs_cache)
          (sym (bind_ok (Node.delete b.path) (λ u. forget b.key) w gone) ∙ h)
          (ap (remove b.key) (delete-bs_cache b.path (ok u) w v gone))
    | inr (e, v, failed) ↦
        subst (λ x. Left b.key w.bs_cache x.0 x.1.bs_cache)
          (sym (bind_err (Node.delete b.path) (λ u. forget b.key) w failed) ∙ h)
          (delete-bs_cache b.path (err e) w v failed)
  ]

  -- Where the deletion of a backstore returns, an injective cache does not hold the backstore
  -- any more and stays injective.
  pub delete_forgets :
      (b : Backstore) (w w' : World)
      → IsInjective w.bs_cache
      → delete b w ≡ (ok tt, w')
      → (get b.key w'.bs_cache ≡ none) × IsInjective w'.bs_cache
  delete_forgets b w w' inj h =
      let gone = sym (delete-Left b (ok tt) w w' h) in
      (
        subst (λ c. get b.key c ≡ none) gone (get-remove b.key w.bs_cache inj),
        subst IsInjective gone (remove-IsInjective b.key w.bs_cache inj),
      )

module _ ⦃k : Kernel⦄ (law : RemovesDirectories k) (b : Backstore) (w w' : World) where
  -- A deletion that returns goes on from the one of the directory and leaves the file system.
  through_node :
      delete b w ≡ (ok tt, w') → (v : World) × (Node.delete b.path w ≡ (ok tt, v)) × (w'.fs ≡ v.fs)
  unfolding delete forget
  through_node h =
      let (u, v, first, rest) = bind_inv (Node.delete b.path) (λ u. forget b.key) w h in
      (v, first, ap (λ r. r.1.fs) (sym rest))

  pub delete-is_dir_in_backstore : delete b w ≡ (ok tt, w') → is_dir_in b.path w'.fs ≡ false
  delete-is_dir_in_backstore h =
      let (v, first, same) = through_node h in
      ap (is_dir_in b.path) same ∙ delete-is_dir_in law b.path w v first

  pub delete-is_dir_in_kept :
      (q : FsPath) → delete b w ≡ (ok tt, w') → is_dir_in q w.fs ≡ false → is_dir_in q w'.fs ≡ false
  delete-is_dir_in_kept q h absent =
      let (v, first, same) = through_node h in
      ap (is_dir_in q) same ∙ delete-is_dir_in_ne law b.path q w v first absent
