-- ===== src/Devices/Size.antt =====
-- The sizes of block devices, in logical blocks (rtslib/utils.py).
use rtslib_fb.Prelude.{
  ℕ, Bool, false, ◌&&◌, ◌||◌, Option, none, some, [], ◌∷◌, all, Text, codes, text_eq, leb, ◌==◌, ℤ,
  pos, ◌*ℤ◌, floor_div, py_int, Result, ok, err, key_error, attribute_error, zero_division,
  device_not_found, index_error, if◌then◌else◌,
}
use rtslib_fb.Devices.{Device, Udev}

-- `attributes.asint(name)`; none is the KeyError or the ValueError.
abbrev as_int : (Text → Option Text) → Text → Option ℤ
as_int attributes name = elim (attributes name) [ none ↦ none | some s ↦ py_int s ]

-- A partition has no queue; its disk has.
unfoldable pub queue_attributes : Device → Result (Text → Option Text)
queue_attributes d = elim d.dev_type [
  | none ↦ err key_error
  | some t ↦
      (if text_eq t (codes "partition")
        then elim d.parent_attributes [ none ↦ err attribute_error | some a ↦ ok a ]
        else ok d.attributes)
]

-- `(sect_size * 512) // logical_block_size`
abbrev blocks : ℤ → ℤ → Result ℤ
blocks sectors size = elim (floor_div (sectors *ℤ pos 512) size) [
  | none ↦ err zero_division
  | some n ↦ ok n
]

-- `_get_size_for_dev`
unfoldable pub get_size_for_dev : Device → Result ℤ
unfolding queue_attributes floor_div py_int
get_size_for_dev d = elim (as_int d.attributes (codes "size")) [
  | none ↦ ok (pos 0)
  | some sectors ↦ elim (queue_attributes d) [
    | err e ↦ err e
    | ok a ↦ elim (as_int a (codes "queue/logical_block_size")) [
      | none ↦ ok (pos 0)
      | some size ↦ blocks sectors size
    ]
  ]
]

abbrev digit : ℕ → Bool
digit c = leb b'0' c && leb c b'9'

-- `[a-z0-9_\-!]`
abbrev disk_char : ℕ → Bool
disk_char c = (leb b'a' c && leb c b'z') || digit c || c == b'_' || c == b'-' || c == b'!'

-- A `$` also stands before a line break at the end.
unfoldable pub chomp : Text → Text
chomp [] = []
chomp (c ∷ []) = if c == 10 then [] else c ∷ []
chomp (c ∷ d ∷ s) = c ∷ chomp (d ∷ s)

-- The text behind the first character: as short a disk as leaves digits alone.
unfoldable pub disk_rest : Text → Option Text
disk_rest [] = none
disk_rest (c ∷ s) =
    let rest = disk_rest s in
    if all digit (c ∷ s)
    then some []
    else if disk_char c
    then elim rest [ none ↦ none | some d ↦ some (c ∷ d) ]
    else none

-- The first group of `^([a-z0-9_\-!]+?)(\d+)$`, of the ASCII digits.
unfoldable pub disk_name : Text → Option Text
unfolding disk_rest
disk_name [] = none
disk_name (c ∷ s) =
    if disk_char c then elim (disk_rest s) [ none ↦ none | some d ↦ some (c ∷ d) ] else none

-- `disk[-1] == 'p' and disk[-2].isdigit()`; the disk "p" has no second last character.
unfoldable pub ends_in_digit_p : Text → Result Bool
ends_in_digit_p [] = err index_error
ends_in_digit_p (c ∷ []) = if c == b'p' then err index_error else ok false
ends_in_digit_p (c ∷ d ∷ []) = ok (d == b'p' && digit c)
ends_in_digit_p (c ∷ d ∷ e ∷ s) = ends_in_digit_p (d ∷ e ∷ s)

-- `name.replace("/", "!")`
unfoldable pub kernel_name : Text → Text
kernel_name [] = []
kernel_name (c ∷ s) = (if c == b'/' then b'!' else c) ∷ kernel_name s

module _ (u : Udev) where
  -- `get_size_for_blk_dev`; following the links of the path is udev's.
  unfoldable pub get_size_for_blk_dev : Text → Result ℤ
  unfolding get_size_for_dev
  get_size_for_blk_dev path = elim (u.device_file path) [
    | err e ↦ err e
    | ok d ↦ get_size_for_dev d
  ]

  -- `get_size` inside `get_size_for_disk_name`.
  unfoldable pub get_size : Text → Result ℤ
  unfolding get_size_for_dev
  get_size name = elim (u.block_device name) [ err e ↦ err e | ok d ↦ get_size_for_dev d ]

  -- The handler: the name of the disk is found and then not used.
  unfoldable pub retry_size : Text → Result ℤ
  unfolding disk_name ends_in_digit_p get_size chomp
  retry_size name = elim (disk_name (chomp name)) [
    | none ↦ err device_not_found
    | some disk ↦ elim (ends_in_digit_p disk) [ err e ↦ err e | ok b ↦ get_size (chomp name) ]
  ]

  -- `get_size_for_disk_name`
  unfoldable pub get_size_for_disk_name : Text → Result ℤ
  unfolding get_size retry_size kernel_name
  get_size_for_disk_name name = elim (get_size (kernel_name name)) [
    | ok n ↦ ok n
    | err e ↦ elim e [ device_not_found ↦ retry_size (kernel_name name) | other ↦ err other ]
  ]
