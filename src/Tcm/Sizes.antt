-- ===== src/Tcm/Sizes.antt =====
-- The sizes of the storage objects of rtslib/tcm.py that stand on files, devices and user programs,
-- with the other properties of these objects.
use rtslib_fb.Prelude.{
  Bool, false, Option, none, some, List, [], ◌∷◌, ◌++◌, Text, codes, text_eq, words, ℤ, ◌*ℤ◌,
  attribute_error, if◌then◌else◌,
}
use rtslib_fb.Cfs.{FsPath, Kernel, M, pure, raise, lift, ◌>>=◌, ◌>>◌, fread}
use rtslib_fb.Node
use rtslib_fb.Node.{check_self}
use rtslib_fb.Devices.{Udev, get_blockdev_type}
use rtslib_fb.Devices.Size.{get_size_for_blk_dev, get_size_for_disk_name}
use rtslib_fb.Tcm.Lookup.{StorageObject, int_flag}
use rtslib_fb.Tcm.Delete.{parse_info, search_info, join_words}
use rtslib_fb.Tcm.Create.{given}
use rtslib_fb.Tcm.Info.{int_found, int_info, get_udev_path}

-- `str` of what `_parse_info` gives.
abbrev pub shown : Option Text → Text
shown none = codes "None"
shown (some s) = s

-- What is not the text NULL.
abbrev pub not_null : Text → Text → List Text
not_null name s = if text_eq s (codes "NULL") then [] else (name ++ b'=' ∷ s) ∷ []

abbrev join_with_comma : List Text → Text
join_with_comma [] = []
join_with_comma (s ∷ []) = s
join_with_comma (s ∷ t ∷ ss) = s ++ b',' ∷ join_with_comma (t ∷ ss)

module _ ⦃k : Kernel⦄ where
  -- `_aio`: an old kernel does not tell.
  unfoldable pub get_aio : FsPath → M Bool
  unfolding search_info words int_flag
  get_aio p = do
    check_self p
    info ← fread (codes "info" ∷ p)
    elim (search_info (codes "Async") (join_words (words info))) [
      | none ↦ pure false
      | some s ↦ lift (int_flag s)
    ]

  -- The numbers of a block device.
  unfoldable pub get_major : FsPath → M ℤ
  unfolding int_info
  get_major p = int_info p (codes "Major")

  unfoldable pub get_minor : FsPath → M ℤ
  unfolding int_info
  get_minor p = int_info p (codes "Minor")

  -- `_get_size` and `_get_hw_max_sectors` of a UserBackedStorageObject.
  unfoldable pub user_size : FsPath → M ℤ
  unfolding int_info
  user_size p = int_info p (codes "Size")

  unfoldable pub get_hw_max_sectors : FsPath → M ℤ
  unfolding int_info
  get_hw_max_sectors p = int_info p (codes "HwMaxSectors")

  -- `_get_control_tuples`
  unfoldable pub get_control_tuples : FsPath → M Text
  unfolding parse_info
  get_control_tuples p = do
    check_self p
    area ← parse_info p (codes "MaxDataAreaMB")
    size ← Node.get_attribute p (codes "hw_block_size")
    pages ← parse_info p (codes "DataPagesPerBlk")
    pure (
        join_with_comma (
          not_null (codes "max_data_area_mb") (shown area)
          ++ not_null (codes "hw_block_size") size
          ++ not_null (codes "data_pages_per_blk") (shown pages)))

  -- `_get_config`: no text, and the text NULL, are None.
  unfoldable pub get_config : FsPath → M (Option Text)
  unfolding parse_info
  get_config p = do
    check_self p
    found ← parse_info p (codes "Config")
    pure (elim found [ none ↦ none | some s ↦ (if text_eq s (codes "NULL") then none else some s) ])

  module _ (u : Udev) where
    -- `_is_block`
    unfoldable pub is_block : StorageObject → M Bool
    unfolding get_udev_path
    is_block so = do path ← get_udev_path so; pure (given (get_blockdev_type u path))

    -- `FileIOStorageObject._get_size`
    unfoldable pub fileio_size : StorageObject → M ℤ
    unfolding is_block int_info parse_info int_found
    fileio_size so = do
      check_self so.path
      on_block ← is_block so
      if on_block
          then (do
            file ← parse_info so.path (codes "File")
            n ← lift (get_size_for_blk_dev u (shown file))
            found ← parse_info so.path (codes "SectorSize")
            size ← lift (int_found found)
            pure (n *ℤ size))
          else (do found ← parse_info so.path (codes "Size"); lift (int_found found))

    -- `BlockStorageObject._get_size`
    unfoldable pub block_size : FsPath → M ℤ
    unfolding parse_info int_found
    block_size p = do
      device ← parse_info p (codes "device")
      elim device [
        | none ↦ raise attribute_error
        | some name ↦ (do
          n ← lift (get_size_for_disk_name u name)
          found ← parse_info p (codes "SectorSize")
          size ← lift (int_found found)
          pure (n *ℤ size))
      ]
