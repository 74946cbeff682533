-- ===== src/Dbroot.antt =====
-- `RTSRoot.__init__` of rtslib/root.py and what it calls: `mount_configfs`, `modprobe` and
-- `list_loaded_kernel_modules` of rtslib/utils.py, and `_set_dbroot`.
pub mod Mount
mod Tests
use rtslib_fb.Prelude.{
  ℕ, Bool, true, false, not, ◌&&◌, Option, none, some, List, [], ◌∷◌, ◌++◌, any as any_of, keep,
  is_empty, map, Text, codes, text_eq, before, split, Exn, rtslib_error, is_rtslib, os_error, ok,
  err, if◌then◌else◌,
}
use rtslib_fb.Cfs.{
  FsPath, Fs, Kernel, World, M, pure, raise, ◌>>=◌, ◌>>◌, raise_if, when, try_except, any_exn,
  is_dir, entry, fread, fwrite,
}
use rtslib_fb.Node.{configfs_dir, any, create_in_cfs_ine}

abbrev pub config_dir : FsPath
config_dir = codes "config" ∷ codes "kernel" ∷ codes "sys" ∷ []

abbrev pub proc_modules : FsPath
proc_modules = codes "modules" ∷ codes "proc" ∷ []

-- The command line is no f-string, so its last word is the text in braces.
abbrev pub mount_command : Text
mount_command = codes "mount -t configfs none {config_dir}"

abbrev pub default_dbroot : Text
default_dbroot = codes "/var/target"

abbrev pub preferred_dbroot : Text
preferred_dbroot = codes "/etc/target"

abbrev pub preferred_dir : FsPath
preferred_dir = codes "target" ∷ codes "etc" ∷ []

abbrev pub dbroot_path : FsPath
dbroot_path = codes "dbroot" ∷ configfs_dir

module _ ⦃k : Kernel⦄ where
  is_mount : FsPath → M Bool
  is_mount p w = (ok (k.is_mount p w.fs), w)

  run_shell : Text → M Bool
  run_shell command w = let (done, fs') = k.shell command w.fs in (ok done, record w { fs = fs' })

  unfoldable pub mount_configfs : M (Unit {0})
  unfolding is_mount run_shell
  mount_configfs = do
    mounted ← is_mount config_dir
    when (not mounted) (do
      done ← run_shell mount_command
      now ← is_mount config_dir
      raise_if (not done && not now) (rtslib_error "Cannot mount configfs"))

  unfoldable pub list_loaded_kernel_modules : M (List Text)
  list_loaded_kernel_modules = do
    s ← fread proc_modules
    pure (map (before 32) (keep (λ line. not (is_empty line)) (split 10 s)))

  load : Text → M (Unit {0})
  load name w = elim (k.modprobe name w.fs) [
    | none ↦ (err (rtslib_error "Could not load module"), w)
    | some fs' ↦ (ok tt, record w { fs = fs' })
  ]

  -- By kmod or by the modprobe command; either way a failure is an RTSLibError.
  unfoldable pub modprobe : Text → M (Unit {0})
  unfolding list_loaded_kernel_modules load
  modprobe name = do
    loaded ← list_loaded_kernel_modules
    if any_of (text_eq name) loaded then pure tt else load name

  path_exists : FsPath → M Bool
  path_exists p w = (ok (elim (entry p w.fs) [ none ↦ false | some e ↦ true ]), w)

  -- The warning where the directory exists is not modelled. The result is `self._dbroot`.
  unfoldable pub set_dbroot : M Text
  unfolding path_exists
  set_dbroot = do
    there ← path_exists dbroot_path
    if not there then pure default_dbroot else do
      dbroot ← fread dbroot_path
      if text_eq dbroot preferred_dbroot then pure dbroot else (do
        written ←
            try_except (do fwrite dbroot_path (preferred_dbroot ++ 10 ∷ []); pure true) any_exn
              (λ e. do
                there ← is_dir preferred_dir
                if there then pure false else raise (rtslib_error "Cannot set dbroot"))
        if written then fread dbroot_path else pure dbroot)

  -- `RTSRoot()`; the result is its `dbroot`.
  unfoldable pub rtsroot_init : M Text
  unfolding mount_configfs modprobe set_dbroot
  rtsroot_init = do
    try_except mount_configfs is_rtslib (λ e. do modprobe (codes "configfs"); mount_configfs)
    try_except (create_in_cfs_ine configfs_dir any) is_rtslib
        (λ e. do modprobe (codes "target_core_mod"); create_in_cfs_ine configfs_dir any)
    set_dbroot
