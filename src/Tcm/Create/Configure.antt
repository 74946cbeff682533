-- ===== src/Tcm/Create/Configure.antt =====
-- The `_configure` methods of the storage object classes of rtslib/tcm.py.
use rtslib_fb.Tcm.Create.Args.{wanted_wwn, pages, path_of}
use rtslib_fb.Tcm.Create.Reservations.{reservations, join_commas}
use rtslib_fb.Prelude.{
  ℕ, Bool, false, not, Option, none, some, ◌∷◌, ◌++◌, has, Text, codes, words, strip, decimal, ℤ,
  pos, negsuc, int_text, to_text, Json, ok, err, rtslib_error, ◌==◌, if◌then◌else◌,
}
use rtslib_fb.Wwn.{unit_serial}
use rtslib_fb.Cfs.{
  FsPath, Kernel, M, pure, raise, lift, get_world, ◌>>=◌, ◌>>◌, raise_if, when, try_except, any_exn,
  for_each, entry, is_file_in, fread, fwrite, generate_wwn,
}
use rtslib_fb.Node
use rtslib_fb.Node.{Mode, check_self}
use rtslib_fb.Dbroot.{rtsroot_init}
use rtslib_fb.Devices.{
  Udev, Hctl, hctl_of_text, is_dev_in_use, get_blockdev_type, convert_scsi_path_to_hctl,
  convert_scsi_hctl_to_path,
}
use rtslib_fb.Tcm.Backstore.{Plugin, pscsi, ramdisk, fileio, block, user}
use rtslib_fb.Tcm.Lookup.{get_wwn, set_wwn, set_udev_path, enable, control}

module _ ⦃k : Kernel⦄ (u : Udev) (page : ℕ) where
  -- `_config_pr_aptpl`: any exception in the reading ends it without an error.
  unfoldable pub config_pr_aptpl : FsPath → M (Unit {0})
  unfolding reservations join_commas words
  config_pr_aptpl p = do
    dbroot ← rtsroot_init
    found ←
        try_except
          (do
            w ← get_wwn p
            s ← fread ((codes "aptpl_" ++ w) ∷ codes "pr" ∷ path_of dbroot)
            pure (some (words s)))
          any_exn (λ e. pure none)
    elim found [
      | none ↦ pure tt
      | some lines ↦ (do
        groups ← lift (reservations lines)
        for_each groups (λ g. fwrite (codes "res_aptpl_metadata" ∷ codes "pr" ∷ p) (join_commas g)))
    ]

  -- `StorageObject._configure`
  unfoldable pub configure_wwn : Plugin → FsPath → Option Text → M (Unit {0})
  unfolding config_pr_aptpl
  configure_wwn c p wwn = do
    w ← elim (wanted_wwn wwn) [ none ↦ generate_wwn unit_serial | some w ↦ pure w ]
    set_wwn c p w
    config_pr_aptpl p

  -- The path and the numbers of a device that is named by either.
  find_scsi : Text → M (Hctl × Text)
  find_scsi dev = elim (convert_scsi_path_to_hctl u dev) [
    | ok h ↦ pure (h, strip dev)
    | err e ↦ elim (hctl_of_text dev) [
      | none ↦
          raise (
            rtslib_error "Cannot find SCSI device by path, and dev parameter not in H:C:T:L format")
      | some h ↦ (do path ← lift (convert_scsi_hctl_to_path u h); pure (h, path))
    ]
  ]

  -- `PSCSIStorageObject._configure`
  unfoldable pub configure_pscsi : FsPath → Text → M (Unit {0})
  unfolding find_scsi configure_wwn
  configure_pscsi p dev = do
    check_self p
    found ← find_scsi dev
    busy ← lift (is_dev_in_use u found.1)
    raise_if busy (rtslib_error "Cannot configure StorageObject because device is already in use")
    let h = found.0
    control p (
        codes "scsi_host_id="
        ++ int_text h.host
        ++ codes ",scsi_channel_id="
        ++ int_text h.channel
        ++ codes ",scsi_target_id="
        ++ int_text h.target
        ++ codes ",scsi_lun_id="
        ++ int_text h.lun)
    set_udev_path p found.1
    enable p
    configure_wwn pscsi p none

  -- `RDMCPStorageObject._configure`
  unfoldable pub configure_ramdisk : FsPath → ℕ → Option Text → Bool → M (Unit {0})
  unfolding configure_wwn pages
  configure_ramdisk p size wwn nullio = do
    check_self p
    n ← lift (pages size page)
    control p (codes "rd_pages=" ++ decimal n)
    when nullio (control p (codes "rd_nullio=1"))
    enable p
    configure_wwn ramdisk p wwn

  -- The part of `FileIOStorageObject._configure` about the device or file.
  fileio_source : FsPath → Text → Option ℕ → M (Unit {0})
  fileio_source p dev size = elim (get_blockdev_type u dev) [
    | none ↦ (do
      w ← get_world
      raise_if
          (elim (entry (path_of dev) w.fs) [
            | none ↦ false
            | some e ↦ not (is_file_in (path_of dev) w.fs)
          ])
          (rtslib_error "FsPath not to a file or block device")
      elim size [
        | none ↦ raise (rtslib_error "FsPath is to a file, size needed")
        | some n ↦ control p (codes "fd_dev_name=" ++ dev ++ codes ",fd_dev_size=" ++ decimal n)
      ])
    | some t ↦ (do
      raise_if (not (is_disk t)) (rtslib_error "Device is not a TYPE_DISK block device")
      busy ← lift (is_dev_in_use u dev)
      raise_if busy (rtslib_error "Device is already in use")
      control p (codes "fd_dev_name=" ++ dev))
  ]
    where
      is_disk : ℤ → Bool
      is_disk (pos n) = n == 0
      is_disk (negsuc n) = false

  -- `FileIOStorageObject._configure`
  unfoldable pub configure_fileio :
      FsPath → Text → Option ℕ → Option Text → Bool → Bool → M (Unit {0})
  unfolding fileio_source configure_wwn
  configure_fileio p dev size wwn write_back aio = do
    check_self p
    fileio_source p dev size
    when write_back (do
      Node.set_attribute p (codes "emulate_write_cache") (codes "1")
      control p (codes "fd_buffered_io=1"))
    when aio (control p (codes "fd_async_io=1"))
    set_udev_path p dev
    enable p
    configure_wwn fileio p wwn

  -- `BlockStorageObject._configure`
  unfoldable pub configure_block : FsPath → Text → Option Text → Bool → M (Unit {0})
  unfolding configure_wwn
  configure_block p dev wwn readonly = do
    check_self p
    raise_if (not (is_disk (get_blockdev_type u dev)))
        (rtslib_error "Device is not a TYPE_DISK block device")
    busy ← lift (is_dev_in_use u dev)
    raise_if busy (rtslib_error "Cannot configure StorageObject because device is already in use")
    set_udev_path p dev
    control p (codes "udev_path=" ++ dev)
    control p (codes "readonly=" ++ (if readonly then codes "1" else codes "0"))
    enable p
    configure_wwn block p wwn
    where
      is_disk : Option ℤ → Bool
      is_disk (some (pos n)) = n == 0
      is_disk t = false

  -- `UserBackedStorageObject._configure`
  unfoldable pub configure_user :
      FsPath → Text → ℕ → Option Text → Option Json → Option Text → M (Unit {0})
  unfolding configure_wwn
  configure_user p config size wwn hw_max_sectors controls = do
    check_self p
    raise_if (has b':' config) (rtslib_error "':' not allowed in config string")
    control p (codes "dev_config=" ++ config)
    control p (codes "dev_size=" ++ decimal size)
    elim hw_max_sectors [
      | none ↦ pure tt
      | some n ↦ control p (codes "hw_max_sectors=" ++ to_text n)
    ]
    elim controls [ none ↦ pure tt | some c ↦ control p c ]
    enable p
    configure_wwn user p wwn
