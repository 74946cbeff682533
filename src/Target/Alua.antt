-- ===== src/Target/Alua.antt =====
-- The ALUA attributes of a LUN beside its group's name (rtslib/target.py): the offline flag, the
-- status and the flag for the writing of metadata. An attribute that is missing or cannot be read is
-- None.
use rtslib_fb.Prelude.{
  Bool, true, false, not, Option, none, some, ◌∷◌, Text, codes, ℤ, pos, negsuc, int_text, py_int,
  Result, ok, err, value_error, is_os, ltb, if◌then◌else◌,
}
use rtslib_fb.Cfs.{
  FsPath, Kernel, M, pure, lift, ◌>>=◌, ◌>>◌, when, try_except, is_file, fread, fwrite,
}
use rtslib_fb.Node
use rtslib_fb.Tcm.Lookup.{cls, alua_supported, int_flag}
use rtslib_fb.Target.Objects.{Lun}
use rtslib_fb.Target.Delete.{flag_text}
use rtslib_fb.Target.Create.{get_storage_object}

abbrev pub alua_file : Text → Lun → FsPath
alua_file name l = name ∷ l.path

-- `ALUA_STATUS_NONE` and the two below it: 0, 1 and 2.
unfoldable pub is_status : ℤ → Bool
is_status (pos n) = ltb n 3
is_status (negsuc n) = false

-- `int(text)`
unfoldable pub int_of_text : Text → Result ℤ
unfolding py_int
int_of_text s = elim (py_int s) [ none ↦ err value_error | some n ↦ ok n ]

module _ ⦃k : Kernel⦄ where
  -- `self._get_storage_object().alua_supported`
  unfoldable pub lun_supports_alua : Lun → M Bool
  lun_supports_alua l = do
    Node.check_self l.path
    so ← get_storage_object l
    alua_supported (cls so) so.path

  module _ {A : Type 0} where
    -- The three getters, which differ in the file and in what they make of its text.
    unfoldable pub get_alua_tg_pt : Text → (Text → Result A) → Lun → M (Option A)
    unfolding lun_supports_alua
    get_alua_tg_pt name decode l = do
      supported ← lun_supports_alua l
      if not supported
          then pure none
          else try_except
              (do
                there ← is_file (alua_file name l)
                if there
                    then (do s ← fread (alua_file name l); a ← lift (decode s); pure (some a))
                    else pure none)
              is_os (λ e. pure none)

  -- The writing that the three setters share; the result tells whether they return 0.
  unfoldable pub set_alua_tg_pt : Text → Text → Lun → M Bool
  unfolding lun_supports_alua
  set_alua_tg_pt name value l = do
    supported ← lun_supports_alua l
    if not supported
        then pure false
        else try_except
            (do
              there ← is_file (alua_file name l)
              when there (fwrite (alua_file name l) value)
              pure true)
            is_os (λ e. pure false)

  unfoldable pub get_alua_tg_pt_offline : Lun → M (Option Bool)
  unfolding get_alua_tg_pt
  get_alua_tg_pt_offline l = get_alua_tg_pt (codes "alua_tg_pt_offline") int_flag l

  unfoldable pub set_alua_tg_pt_offline : Lun → Bool → M Bool
  unfolding set_alua_tg_pt
  set_alua_tg_pt_offline l b = set_alua_tg_pt (codes "alua_tg_pt_offline") (flag_text b) l

  unfoldable pub get_alua_tg_pt_status : Lun → M (Option ℤ)
  unfolding get_alua_tg_pt int_of_text
  get_alua_tg_pt_status l = get_alua_tg_pt (codes "alua_tg_pt_status") int_of_text l

  -- Only one of the three values is written.
  unfoldable pub set_alua_tg_pt_status : Lun → ℤ → M Bool
  unfolding set_alua_tg_pt is_status
  set_alua_tg_pt_status l n = do
    Node.check_self l.path
    if is_status n then set_alua_tg_pt (codes "alua_tg_pt_status") (int_text n) l else pure false

  unfoldable pub get_alua_tg_pt_write_md : Lun → M (Option Bool)
  unfolding get_alua_tg_pt
  get_alua_tg_pt_write_md l = get_alua_tg_pt (codes "alua_tg_pt_write_md") int_flag l

  unfoldable pub set_alua_tg_pt_write_md : Lun → Bool → M Bool
  unfolding set_alua_tg_pt
  set_alua_tg_pt_write_md l b = set_alua_tg_pt (codes "alua_tg_pt_write_md") (flag_text b) l
