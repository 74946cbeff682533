-- ===== src/Devices/Numbers.antt =====
-- The four numbers of a SCSI device (rtslib/utils.py): what is printed is what is read.
use rtslib_fb.Prelude.{
  ◌≡◌, refl, ap, ◌∙◌, Option, none, some, [], ◌∷◌, ◌++◌, Text, split, ℤ, py_int, int_text,
  py_int-int_text, has-int_text, append_assoc,
}
use rtslib_fb.Prelude.Split.{split_found, split_absent}
use rtslib_fb.Devices.{Hctl, four_ints, hctl_text, hctl_of_text}

-- The four numbers as one list of texts, put together from the right.
joined : Text → Text → Text → Text → Text
joined a b c d = a ++ b':' ∷ (b ++ b':' ∷ (c ++ b':' ∷ d))

hctl_text-joined :
    (h : Hctl)
    → hctl_text h
      ≡ joined (int_text h.host) (int_text h.channel) (int_text h.target) (int_text h.lun)
unfolding hctl_text joined
hctl_text-joined h =
    append_assoc (int_text h.host ++ b':' ∷ int_text h.channel) (b':' ∷ int_text h.target)
      (b':' ∷ int_text h.lun)
    ∙ append_assoc (int_text h.host) (b':' ∷ int_text h.channel)
        (b':' ∷ (int_text h.target ++ b':' ∷ int_text h.lun))

split-joined :
    (a b c d : ℤ)
    → split b':' (joined (int_text a) (int_text b) (int_text c) (int_text d))
      ≡ int_text a ∷ int_text b ∷ int_text c ∷ int_text d ∷ []
unfolding joined
split-joined a b c d =
    split_found b':' (int_text a) (int_text b ++ b':' ∷ (int_text c ++ b':' ∷ int_text d))
      (has-int_text b':' a refl refl)
    ∙ ap (λ r. int_text a ∷ r)
        (split_found b':' (int_text b) (int_text c ++ b':' ∷ int_text d)
            (has-int_text b':' b refl refl)
          ∙ ap (λ r. int_text b ∷ r)
              (split_found b':' (int_text c) (int_text d) (has-int_text b':' c refl refl)
                ∙ ap (λ r. int_text c ∷ r)
                    (split_absent b':' (int_text d) (has-int_text b':' d refl refl))))

-- The text in H:C:T:L form by which a device is looked up gives back the four numbers.
pub hctl_of_text-hctl_text : (h : Hctl) → hctl_of_text (hctl_text h) ≡ some h
unfolding hctl_of_text
hctl_of_text-hctl_text h =
    ap (λ s. four_ints (split b':' s)) (hctl_text-joined h)
    ∙ ap four_ints (split-joined h.host h.channel h.target h.lun)
    ∙ ap
        (λ o.
          read o (py_int (int_text h.channel)) (py_int (int_text h.target))
            (py_int (int_text h.lun)))
        (py_int-int_text h.host)
    ∙ ap (λ o. read (some h.host) o (py_int (int_text h.target)) (py_int (int_text h.lun)))
        (py_int-int_text h.channel)
    ∙ ap (λ o. read (some h.host) (some h.channel) o (py_int (int_text h.lun)))
        (py_int-int_text h.target)
    ∙ ap (read (some h.host) (some h.channel) (some h.target)) (py_int-int_text h.lun)
  where
    read : Option ℤ → Option ℤ → Option ℤ → Option ℤ → Option Hctl
    read a b c d = elim a [
      | none ↦ none
      | some i ↦ elim b [
        | none ↦ none
        | some ch ↦ elim c [
          | none ↦ none
          | some t ↦ elim d [
            | none ↦ none
            | some l ↦ some (record { host = i; channel = ch; target = t; lun = l })
          ]
        ]
      ]
    ]
