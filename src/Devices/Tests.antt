-- ===== src/Devices/Tests.antt =====
-- A partition whose size is asked for by its name (rtslib/utils.py).
use rtslib_fb.Prelude.{
  ◌≡◌, refl, ◌⊎◌, false, none, some, codes, text_eq, pos, ok, err, device_not_found, index_error,
  if◌then◌else◌,
}
use rtslib_fb.Devices.{Device, Udev}
use rtslib_fb.Devices.Size.{kernel_name, get_size_for_disk_name}
use rtslib_fb.Devices.{Hctl, hctl_text, hctl_of_text}
use rtslib_fb.Devices.Numbers.{hctl_of_text-hctl_text}
use rtslib_fb.Devices.Partition.{get_size_for_disk_name_missing}

-- A disk of 8 sectors, in logical blocks of 4096 bytes.
abbrev disk : Device
disk = record {
  subsystem = codes "block";
  attributes = λ n.
      if text_eq n (codes "size")
      then some (codes "8\n")
      else if text_eq n (codes "queue/logical_block_size")
      then some (codes "4096\n")
      else none;
  dev_type = some (codes "disk");
  parent_attributes = none;
}

abbrev udev : Udev
udev = record {
  device_file = λ p. err device_not_found;
  block_device = λ n. if text_eq n (codes "sda") then ok disk else err device_not_found;
  opens = λ p b. false;
  scsi_parent = λ p. none;
  block_nodes = λ p. none;
}

disk_size : get_size_for_disk_name udev (codes "sda") ≡ ok (pos 1)
unfolding get_size_for_disk_name
disk_size = refl

unknown : udev.block_device (kernel_name (codes "sda1")) ≡ err device_not_found
unfolding kernel_name
unknown = refl

get_size_for_disk_name_missing_example :
    (get_size_for_disk_name udev (codes "sda1") ≡ err device_not_found)
    ⊎ (get_size_for_disk_name udev (codes "sda1") ≡ err index_error)
get_size_for_disk_name_missing_example =
    get_size_for_disk_name_missing udev (codes "sda1") refl unknown

abbrev numbers : Hctl
numbers = record { host = pos 2; channel = pos 0; target = pos 1; lun = pos 15 }

hctl_of_text-hctl_text_example : hctl_of_text (hctl_text numbers) ≡ some numbers
hctl_of_text-hctl_text_example = hctl_of_text-hctl_text numbers
