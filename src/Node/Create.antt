-- ===== src/Node/Create.antt =====
-- `CFSNode._create_in_cfs_ine` of rtslib/node.py in each of its modes.
use rtslib_fb.Prelude.{
  ◌≡◌, true, false, Option-cases, inl, inr, Option, none, some, Result, ok, err, rtslib_error,
  not_in_cfs, if◌then◌else◌, arith,
}
use rtslib_fb.Cfs.{
  FsPath, path_eq, parent, Fs, is_dir_in, Kernel, World, is_dir, listdir, mkdir, rmdir,
}
use rtslib_fb.Cfs.Laws.{RemovesDirectories}
use rtslib_fb.Node
use rtslib_fb.Node.{
  Mode, any, lookup, create, invalid, core_dir, exists, create_in_cfs_ine, check_self,
}

module _ ⦃k : Kernel⦄ where
  pub check_self_there :
      (p : FsPath) (w : World) → is_dir_in p w.fs ≡ true → check_self p w ≡ (ok tt, w)
  unfolding check_self exists is_dir
  check_self_there p w h = ground arith

  -- What each mode makes of an object that is there, and of one that is not.
  abbrev pub of_present : Mode → Result (Unit {0})
  of_present any = ok tt
  of_present lookup = ok tt
  of_present create = err (rtslib_error "This object already exists in configFS")
  of_present invalid = err (rtslib_error "Invalid mode")

  abbrev pub of_mkdir : World → Option Fs → Result (Unit {0}) × World
  of_mkdir w none = (err (rtslib_error "Could not create object in configFS"), w)
  of_mkdir w (some fs') = (ok tt, record w { fs = fs' })

  abbrev pub of_absent : Mode → FsPath → World → Result (Unit {0}) × World
  of_absent any p w = of_mkdir w (k.mkdir p w.fs)
  of_absent create p w = of_mkdir w (k.mkdir p w.fs)
  of_absent lookup p w = (err not_in_cfs, w)
  of_absent invalid p w = (err (rtslib_error "Invalid mode"), w)

  -- For an object that does not stand directly below `core`, which is there: `any` and `lookup` take
  -- one that is there and `create` refuses it, and nothing changes; where there is none `any` and
  -- `create` make it or report that they cannot, and `lookup` raises; any other mode is refused.
  pub create_in_cfs_ine_lem :
      (p : FsPath) (m : Mode) (w : World)
      → is_dir_in core_dir w.fs ≡ true
      → path_eq (parent p) core_dir ≡ false
      → create_in_cfs_ine p m w ≡ (if is_dir_in p w.fs then (of_present m, w) else of_absent m p w)
  unfolding create_in_cfs_ine exists is_dir mkdir
  create_in_cfs_ine_lem p any w core other = ground arith
  create_in_cfs_ine_lem p lookup w core other = ground arith
  create_in_cfs_ine_lem p invalid w core other = ground arith
  create_in_cfs_ine_lem p create w core other = ground arith

  -- In no mode does the call touch anything but the file system.
  pub create_in_cfs_ine-bs_cache :
      (p : FsPath) (m : Mode) (r : Result (Unit {0})) (w w' : World)
      → create_in_cfs_ine p m w ≡ (r, w')
      → w'.bs_cache ≡ w.bs_cache
  unfolding create_in_cfs_ine exists is_dir listdir mkdir rmdir
  create_in_cfs_ine-bs_cache p any r w w' h = ground arith
  create_in_cfs_ine-bs_cache p lookup r w w' h = ground arith
  create_in_cfs_ine-bs_cache p invalid r w w' h = ground arith
  create_in_cfs_ine-bs_cache p create r w w' h = ground arith

-- A directory that `mkdir` makes is there.
abbrev pub MakesDirectories : Kernel → Type 0
MakesDirectories k = (p : FsPath) (fs fs' : Fs) → k.mkdir p fs ≡ some fs' → is_dir_in p fs' ≡ true

module _ ⦃k : Kernel⦄ where
  -- With a kernel whose mkdir makes the directory: after a call that does not raise, whatever
  -- its mode, the object is in configFS.
  pub exists-create_in_cfs_ine :
      (p : FsPath) (m : Mode) (w w' : World)
      → MakesDirectories k
      → create_in_cfs_ine p m w ≡ (ok tt, w')
      → exists p w' ≡ (ok true, w')
  unfolding create_in_cfs_ine exists is_dir listdir mkdir rmdir
  exists-create_in_cfs_ine p any w w' law h = ground (arith, law p w.fs w'.fs)
  exists-create_in_cfs_ine p lookup w w' law h = ground (arith)
  exists-create_in_cfs_ine p invalid w w' law h = ground (arith)
  exists-create_in_cfs_ine p create w w' law h = elim (Option-cases (k.rmdir p w.fs)) [
    | inl fails ↦ ground (arith, law p w.fs w'.fs)
    | inr (fs, removed) ↦ ground (arith, law p w.fs w'.fs, law p fs w'.fs)
  ]

  -- A check and a lookup change nothing.
  pub check_self_lem : (p : FsPath) (w w' : World) → check_self p w ≡ (ok tt, w') → w' ≡ w
  unfolding check_self exists is_dir
  check_self_lem p w w' h = ground arith

  pub create-lookup_lem :
      (p : FsPath) (w w' : World) → create_in_cfs_ine p lookup w ≡ (ok tt, w') → w' ≡ w
  unfolding create_in_cfs_ine exists is_dir
  create-lookup_lem p w w' h = ground arith

  -- What a deletion leaves.
  pub delete-is_dir_in :
      RemovesDirectories k
      → (p : FsPath) (w w' : World) → Node.delete p w ≡ (ok tt, w')
      → is_dir_in p w'.fs ≡ false
  unfolding Node.delete exists is_dir rmdir
  delete-is_dir_in law p w w' h = ground (arith, law.removes p w.fs w'.fs)

  pub delete-is_dir_in_ne :
      RemovesDirectories k
      → (p q : FsPath) (w w' : World) → Node.delete p w ≡ (ok tt, w')
      → is_dir_in q w.fs ≡ false
      → is_dir_in q w'.fs ≡ false
  unfolding Node.delete exists is_dir rmdir
  delete-is_dir_in_ne law p q w w' h gone = ground (arith, law.makes_none p q w.fs w'.fs)
