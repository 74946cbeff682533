-- ===== src/Devices/Partition.antt =====
-- That the fallback of get_size_for_disk_name (rtslib/utils.py) finds no size.
use rtslib_fb.Prelude.{
  ◌≡◌, refl, false, ◌⊎◌, inl, inr, Option-cases, [], ◌∷◌, Text, has, Exn, Result, ok, err,
  device_not_found, index_error, arith,
}
use rtslib_fb.Devices.{Udev}
use rtslib_fb.Devices.Size.{
  chomp, kernel_name, disk_name, ends_in_digit_p, get_size, retry_size, get_size_for_disk_name,
}

chomp-not_has : (s : Text) → has 10 s ≡ false → chomp s ≡ s
unfolding chomp
chomp-not_has [] h = refl
chomp-not_has (c ∷ []) h = ground arith
chomp-not_has (c ∷ d ∷ s) h = ground (arith, chomp-not_has (d ∷ s))

has-kernel_name : (s : Text) → has 10 s ≡ false → has 10 (kernel_name s) ≡ false
unfolding kernel_name
has-kernel_name [] h = refl
has-kernel_name (c ∷ s) h = ground (arith, has-kernel_name s)

ends_in_digit_p_err : (s : Text) (e : Exn) → ends_in_digit_p s ≡ err e → e ≡ index_error
unfolding ends_in_digit_p
ends_in_digit_p_err [] e h = ground arith
ends_in_digit_p_err (c ∷ []) e h = ground arith
ends_in_digit_p_err (c ∷ d ∷ []) e h = ground arith
ends_in_digit_p_err (c ∷ d ∷ f ∷ s) e h = ends_in_digit_p_err (d ∷ f ∷ s) e h

Result-cases : {A : Type 0} (r : Result A) → ((a : A) × (r ≡ ok a)) ⊎ ((e : Exn) × (r ≡ err e))
Result-cases (ok a) = inl (a, refl)
Result-cases (err e) = inr (e, refl)

retry_size_missing :
    (u : Udev) (name : Text)
    → chomp name ≡ name
    → u.block_device name ≡ err device_not_found
    → (retry_size u name ≡ err device_not_found) ⊎ (retry_size u name ≡ err index_error)
unfolding retry_size get_size
retry_size_missing u name same missing = elim (Option-cases (disk_name (chomp name))) [
  | inl absent ↦ inl (ground arith)
  | inr (disk, found) ↦ elim (Result-cases (ends_in_digit_p disk)) [
    | inl (b, fine) ↦ inl (ground arith)
    | inr (e, bad) ↦ inr (ground (arith, ends_in_digit_p_err disk e))
  ]
]

-- Where udev knows no block device of the name, and the name has no line break, the size is never
-- found: the fallback to a partition's disk looks for the same name again, so the result is the same
-- DeviceNotFoundError, or an IndexError for a name such as "p1".
pub get_size_for_disk_name_missing :
    (u : Udev) (name : Text)
    → has 10 name ≡ false
    → u.block_device (kernel_name name) ≡ err device_not_found
    → (get_size_for_disk_name u name ≡ err device_not_found)
      ⊎ (get_size_for_disk_name u name ≡ err index_error)
unfolding get_size_for_disk_name get_size
get_size_for_disk_name_missing u name plain missing =
    let same = chomp-not_has (kernel_name name) (has-kernel_name name plain) in
    let again = retry_size_missing u (kernel_name name) same missing in ground arith
