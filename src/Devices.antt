-- ===== src/Devices.antt =====
-- The functions of rtslib/utils.py that ask udev about a device. udev (the package pyudev) and the
-- opening of device nodes are a parameter.
pub mod Size
pub mod Numbers
pub mod Partition
mod Tests
use rtslib_fb.Prelude.{
  Bool, true, not, Option, none, some, List, [], ◌∷◌, ◌++◌, Text, codes, text_eq, split, ℤ, pos,
  py_int, int_text, Result, ok, err, rtslib_error, os_error, if◌then◌else◌,
}

-- `device.attributes` gives texts; an absent one is a KeyError.
pub record Device : Type 0 where
  pub subsystem : Text
  pub attributes : Text → Option Text
  -- The property DEVTYPE, and the attributes of the parent; none where there is no such thing.
  pub dev_type : Option Text
  pub parent_attributes : Option (Text → Option Text)

pub record Udev : Type 0 where
  -- `Device.from_device_file`: OSError, ValueError or DeviceNotFoundError where it fails.
  pub device_file : Text → Result Device
  -- `Device.from_name` for a block device.
  pub block_device : Text → Result Device
  -- Whether `os.open` with O_EXCL succeeds, for reading or for reading and writing.
  pub opens : Text → Bool → Bool
  -- The name of the SCSI parent of a block device.
  pub scsi_parent : Text → Option Text
  -- The block devices below a SCSI device, by their nodes; none where there is no such device.
  pub block_nodes : Text → Option (List (Option Text))

pub record Hctl : Type 0 where
  pub host : ℤ
  pub channel : ℤ
  pub target : ℤ
  pub lun : ℤ

-- The four integers of a text in H:C:T:L form.
abbrev pub four_ints : List Text → Option Hctl
four_ints (a ∷ b ∷ c ∷ d ∷ []) = elim (py_int a) [
  | none ↦ none
  | some h ↦ elim (py_int b) [
    | none ↦ none
    | some ch ↦ elim (py_int c) [
      | none ↦ none
      | some t ↦ elim (py_int d) [
        | none ↦ none
        | some l ↦ some (record { host = h; channel = ch; target = t; lun = l })
      ]
    ]
  ]
]
four_ints parts = none

unfoldable pub hctl_of_text : Text → Option Hctl
unfolding split
hctl_of_text s = four_ints (split b':' s)

-- The colon form of the four numbers.
unfoldable pub hctl_text : Hctl → Text
hctl_text h =
    int_text h.host
    ++ b':' ∷ int_text h.channel
    ++ b':' ∷ int_text h.target
    ++ b':' ∷ int_text h.lun

module _ (u : Udev) where
  -- `is_dev_in_use`
  unfoldable pub is_dev_in_use : Text → Result Bool
  is_dev_in_use path = elim (u.device_file path) [
    | ok d ↦ ok (not (u.opens path (text_eq d.subsystem (codes "scsi_generic"))))
    | err e ↦ elim e [ os_error ↦ ok true | other ↦ err other ]
  ]

  -- `get_blockdev_type`; 0 is TYPE_DISK.
  unfoldable pub get_blockdev_type : Text → Option ℤ
  unfolding py_int
  get_blockdev_type path = elim (u.device_file path) [
    | err e ↦ none
    | ok d ↦
        (if text_eq d.subsystem (codes "block")
          then some (elim (d.attributes (codes "device/type")) [
            | none ↦ pos 0
            | some s ↦ elim (py_int s) [ none ↦ pos 0 | some n ↦ n ]
          ])
          else none)
  ]

  -- `convert_scsi_path_to_hctl`, and the unpacking of its list by the caller.
  unfoldable pub convert_scsi_path_to_hctl : Text → Result Hctl
  unfolding hctl_of_text
  convert_scsi_path_to_hctl path = elim (u.scsi_parent path) [
    | none ↦ err (rtslib_error "Could not convert scsi path to hctl")
    | some name ↦ elim (hctl_of_text name) [
      | none ↦ err (rtslib_error "Could not convert scsi path to hctl")
      | some h ↦ ok h
    ]
  ]

  -- `convert_scsi_hctl_to_path`
  unfoldable pub convert_scsi_hctl_to_path : Hctl → Result Text
  unfolding hctl_text
  convert_scsi_hctl_to_path h = elim (u.block_nodes (hctl_text h)) [
    | none ↦ err (rtslib_error "Could not find path for SCSI hctl")
    | some nodes ↦ elim nodes [
      | [] ↦ ok []
      | n ∷ rest ↦ elim n [
        | none ↦ err (rtslib_error "Could not find path for SCSI hctl")
        | some path ↦ ok path
      ]
    ]
  ]
