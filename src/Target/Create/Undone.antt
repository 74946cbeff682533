-- ===== src/Target/Create/Undone.antt =====
-- What the constructor of class LUN of rtslib/target.py leaves where it fails.
use rtslib_fb.Prelude.{ℕ, ◌≡◌, ◌∙◌, Option, some, Text, Json, Exn, ok, err, false}
use rtslib_fb.Cfs.{Kernel, World, M, pure, raise, ◌>>◌, try_except, any_exn}
use rtslib_fb.Cfs.Laws.{RemovesDirectories, bind_ok, bind_err, undone}
use rtslib_fb.Node.{create, exists, create_in_cfs_ine}
use rtslib_fb.Tcm.Lookup.{StorageObject}
use rtslib_fb.Target.Objects.{Tpg, Lun}
use rtslib_fb.Target.Children.{lun_path}
use rtslib_fb.Target.Delete.{delete_lun}
use rtslib_fb.Target.Deleted.{delete_object, of_lun, exists-delete_object}
use rtslib_fb.Target.Create.{choose_lun, configure_lun, lun_init}

module _ ⦃k : Kernel⦄ (t : Tpg) (lun : Option Json) (so : StorageObject) (alias : Option Text) where
  abbrev made : ℕ → Lun
  made n = record { tpg = t; lun = n; path = lun_path t n }

  configured : Lun → M Lun
  configured l = do
    try_except (configure_lun l so alias) any_exn (λ e. do delete_lun l; raise e)
    pure l

  in_configfs : ℕ → M Lun
  unfolding configured
  in_configfs n = do create_in_cfs_ine (lun_path t n) create; configured (made n)

  -- With a kernel whose rmdir removes the directory: where the directory of a new LUN was made but
  -- its configuration raises and the deletion that follows returns, the constructor raises what the
  -- configuration raised, and the LUN is not in configFS.
  pub lun_init_undone :
      (n : ℕ) (e : Exn) (w w0 w1 w2 w3 : World)
      → RemovesDirectories k
      → choose_lun t lun w ≡ (ok n, w0)
      → create_in_cfs_ine (lun_path t n) create w0 ≡ (ok tt, w1)
      → configure_lun (made n) so alias w1 ≡ (err e, w2)
      → delete_lun (made n) w2 ≡ (ok tt, w3)
      → (lun_init t lun (some so) alias w ≡ (err e, w3))
        × (exists (lun_path t n) w3 ≡ (ok false, w3))
  unfolding lun_init delete_object in_configfs configured
  lun_init_undone n e w w0 w1 w2 w3 law chosen there failed deleted = (
    bind_ok (choose_lun t lun) in_configfs w chosen
        ∙ bind_ok (create_in_cfs_ine (lun_path t n) create) (λ u. configured (made n)) w0 there
        ∙ bind_err
            (try_except (configure_lun (made n) so alias) any_exn
              (λ e. delete_lun (made n) >> raise e))
            (λ u. pure (made n)) w1
            (undone (configure_lun (made n) so alias) (delete_lun (made n)) w1 failed deleted),
    exists-delete_object (of_lun (made n)) w2 w3 law deleted,
  )
