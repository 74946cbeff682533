-- ===== src/Tcm/Delete/Gone.antt =====
-- That a storage object (rtslib/tcm.py) whose `delete` returns is gone from configFS with its
-- backstore, and so an object whose configuration failed.
use rtslib_fb.Prelude.{
  ℕ, ◌≡◌, ap, ◌∙◌, Bool, true, false, none, List, [], ◌∷◌, codes, Text, text_eq, Exn, Result, ok,
  err, if◌then◌else◌,
}
use rtslib_fb.Cfs.{
  FsPath, is_dir_in, Kernel, World, M, pure, raise, ◌>>=◌, ◌>>◌, when, try_except, any_exn, is_dir,
  listdir,
}
use rtslib_fb.Cfs.Laws.{
  undone, RemovesDirectories, Ends, bind-Ends, steps-Ends, bind_inv, bind_ok, bind_err,
}
use rtslib_fb.Node
use rtslib_fb.Node.{Mode, exists, check_self}
use rtslib_fb.Node.Create.{delete-is_dir_in}
use rtslib_fb.Devices.{Udev}
use rtslib_fb.Tcm.Backstore
use rtslib_fb.Tcm.Backstore.{Plugin}
use rtslib_fb.Tcm.Backstore.Deletion.{delete-is_dir_in_backstore, delete-is_dir_in_kept}
use rtslib_fb.Tcm.Lookup.{StorageObject, so_init, is_configured}
use rtslib_fb.Tcm.Delete.{delete, delete_groups, for_attached_luns, get_status}
use rtslib_fb.Target.Delete.{delete_lun}
use rtslib_fb.Tcm.Create.{create_so}

module _ ⦃k : Kernel⦄ where
  -- Neither the object nor its backstore is there.
  abbrev Gone : StorageObject → World → Type 0
  Gone so w = (is_dir_in so.path w.fs ≡ false) × (is_dir_in so.backstore.path w.fs ≡ false)

  module _ (law : RemovesDirectories k) (so : StorageObject) where
    last : M (Unit {0})
    last = do Node.delete so.path; Backstore.delete so.backstore

    last-Gone : Ends (Gone so) last
    unfolding last
    last-Gone w w' h =
        let b = so.backstore in
        let (u, v, first, rest) = bind_inv (Node.delete so.path) (λ u. Backstore.delete b) w h in
        (
          delete-is_dir_in_kept law b v w' so.path rest (delete-is_dir_in law so.path w v first),
          delete-is_dir_in_backstore law b v w' rest,
        )

    -- What stands between the groups and the end.
    unmap : Bool → M (Unit {0})
    unmap configured = when configured (do
      for_attached_luns so.path (λ l. do
        status ← get_status so.path
        if text_eq status (codes "activated") then (do delete_lun l; pure false) else pure true)
      pure tt)

    behind_groups : List Text → M (Unit {0})
    behind_groups groups = do
      delete_groups so groups
      configured ← is_configured so.path
      unmap configured
      last

    delete-Gone : Ends (Gone so) (delete so)
    unfolding delete behind_groups unmap last
    delete-Gone =
        steps-Ends (Gone so) (check_self so.path ∷ check_self so.path ∷ [])
          (listdir (codes "alua" ∷ so.path) >>= behind_groups)
          (bind-Ends (Gone so) (listdir (codes "alua" ∷ so.path)) behind_groups (λ groups.
            steps-Ends (Gone so) (delete_groups so groups ∷ [])
              (is_configured so.path >>= (λ c. unmap c >> last))
              (bind-Ends (Gone so) (is_configured so.path) (λ c. unmap c >> last)
                (λ c. steps-Ends (Gone so) (unmap c ∷ []) last last-Gone))))

    -- With a kernel whose rmdir removes the directory: where the deletion of a storage object returns,
    -- whatever it deleted before, neither the object nor its backstore is in configFS.
    pub exists-delete :
        (w w' : World)
        → delete so w ≡ (ok tt, w')
        → (exists so.path w' ≡ (ok false, w')) × (exists so.backstore.path w' ≡ (ok false, w'))
    unfolding exists is_dir
    exists-delete w w' h =
        let gone = delete-Gone w w' h in (ap with_world gone.0, ap with_world gone.1)
      where
        with_world : Bool → Result Bool × World
        with_world b = (ok b, w')

module _ ⦃k : Kernel⦄ (u : Udev) (page : ℕ) where
  -- With a kernel whose rmdir removes the directory: where a new storage object was made but its
  -- configuration raises and the deletion that follows returns, the constructor raises what the
  -- configuration raised, and neither the object nor its backstore is in configFS.
  pub create_so_undone :
      (c : Plugin) (name : Text) (configure : FsPath → M (Unit {0})) (so : StorageObject) (e : Exn)
      (w w1 w2 w3 : World)
      → RemovesDirectories k
      → so_init name c Mode.create none w ≡ (ok so, w1)
      → configure so.path w1 ≡ (err e, w2)
      → delete so w2 ≡ (ok tt, w3)
      → (create_so u page c name configure w ≡ (err e, w3))
        × (exists so.path w3 ≡ (ok false, w3))
        × (exists so.backstore.path w3 ≡ (ok false, w3))
  unfolding create_so
  create_so_undone c name configure so e w w1 w2 w3 law made failed deleted =
      let handled = undone (configure so.path) (delete so) w1 failed deleted in
      let gone = exists-delete law so w2 w3 deleted in
      (
        bind_ok (so_init name c Mode.create none) configured w made
            ∙ bind_err (try_except (configure so.path) any_exn (λ e. delete so >> raise e))
                (λ t. pure so) w1 handled,
        gone.0,
        gone.1,
      )
    where
      configured : StorageObject → M StorageObject
      configured so = do
        try_except (configure so.path) any_exn (λ e. do delete so; raise e)
        pure so
