-- ===== src/Dbroot/Mount.antt =====
-- The database root that `_set_dbroot` of rtslib/root.py settles on.
use rtslib_fb.Prelude.{
  ◌≡◌, refl, false, none, some, [], ◌∷◌, ◌++◌, Text, text_eq, text_eq_iff, strip, ok, err,
  rtslib_error, if◌then◌else◌, arith,
}
use rtslib_fb.Cfs.{Fs, Kernel, World, content, fread, fwrite, is_dir, is_dir_in}
use rtslib_fb.Dbroot.{preferred_dbroot, preferred_dir, dbroot_path, path_exists, set_dbroot}

strip-preferred : strip (preferred_dbroot ++ 10 ∷ []) ≡ preferred_dbroot
unfolding strip
strip-preferred = refl

module _ ⦃k : Kernel⦄ where
  -- Where the kernel takes the preferred root and shows what it took, that root is the result,
  -- whatever root was set before.
  pub set_dbroot_preferred :
      (old : Text) (w : World) (fs' : Fs)
      → content dbroot_path w.fs ≡ some old
      → k.write dbroot_path (preferred_dbroot ++ 10 ∷ []) w.fs ≡ some fs'
      → content dbroot_path fs' ≡ some (preferred_dbroot ++ 10 ∷ [])
      → (set_dbroot w).0 ≡ ok preferred_dbroot
  unfolding set_dbroot path_exists fread fwrite
  set_dbroot_preferred old w fs' shown taken shows =
      ground (arith, text_eq_iff (strip old) preferred_dbroot, strip-preferred)

  -- Where the kernel refuses the preferred root and another one is set, that one is the result
  -- if the preferred directory is there, and an RTSLibError is raised if not; nothing is
  -- changed.
  pub set_dbroot_refused :
      (old : Text) (w : World)
      → content dbroot_path w.fs ≡ some old
      → text_eq (strip old) preferred_dbroot ≡ false
      → k.write dbroot_path (preferred_dbroot ++ 10 ∷ []) w.fs ≡ none
      → set_dbroot w ≡ (
        if is_dir_in preferred_dir w.fs
            then ok (strip old)
            else err (rtslib_error "Cannot set dbroot"),
        w,
      )
  unfolding set_dbroot path_exists fread fwrite is_dir
  set_dbroot_refused old w shown other refused = ground arith
