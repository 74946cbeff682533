-- ===== src/Alua/Groups.antt =====
-- What the ALUA target port groups of rtslib/alua.py refuse, and what a setter leaves for the getter.
use rtslib_fb.Prelude.{
  ◌≡◌, refl, ap, ◌∙◌, ◌≢◌, Bool, true, ◌||◌, Option, none, some, [], ◌∷◌, Text, ℤ, Json, to_int,
  int_text, py_int-int_text, strip-int_text, Result, ok, err, rtslib_error, value_error, arith,
}
use rtslib_fb.Cfs.{FsPath, Kernel, World, M, ◌>>◌, raise_if, is_dir_in, fread, fwrite, is_dir}
use rtslib_fb.Cfs.Laws.{bind_ok, Stores}
use rtslib_fb.Node
use rtslib_fb.Node.{check_self, exists}
use rtslib_fb.Node.Create.{check_self_there}
use rtslib_fb.Alua.{
  Param, alua_access_status, alua_access_type, alua_access_state, alua_write_metadata, preferred,
  nonop_delay_msecs, trans_delay_msecs, implicit_trans_secs, alua_support_offline,
  alua_support_standby, alua_support_transitioning, alua_support_active_nonoptimized,
  alua_support_unavailable, alua_support_active_optimized, file_name, decode, int_value,
  default_group, below_one, above, get_param, set_param, delete, init, init_new,
}

int_value-int_text : (n : ℤ) → int_value (int_text n) ≡ ok n
unfolding int_value
int_value-int_text n = ap of_parsed (py_int-int_text n)
  where
    of_parsed : Option ℤ → Result ℤ
    of_parsed o = elim o [ none ↦ err value_error | some m ↦ ok m ]

decode_number :
    (q : Param) (n : ℤ)
    → q ≢ alua_access_status
    → q ≢ alua_access_type
    → decode q (int_text n) ≡ ok n
unfolding decode
decode_number alua_access_status n status type = absurd (status refl)
decode_number alua_access_type n status type = absurd (type refl)
decode_number alua_access_state n status type = int_value-int_text n
decode_number alua_write_metadata n status type = int_value-int_text n
decode_number preferred n status type = int_value-int_text n
decode_number nonop_delay_msecs n status type = int_value-int_text n
decode_number trans_delay_msecs n status type = int_value-int_text n
decode_number implicit_trans_secs n status type = int_value-int_text n
decode_number alua_support_offline n status type = int_value-int_text n
decode_number alua_support_standby n status type = int_value-int_text n
decode_number alua_support_transitioning n status type = int_value-int_text n
decode_number alua_support_active_nonoptimized n status type = int_value-int_text n
decode_number alua_support_unavailable n status type = int_value-int_text n
decode_number alua_support_active_optimized n status type = int_value-int_text n

module _ ⦃k : Kernel⦄ where
  -- The default group is never deleted: the call raises and changes nothing.
  pub delete_default :
      (p : FsPath) (w : World)
      → is_dir_in p w.fs ≡ true
      → delete p default_group w ≡ (err (rtslib_error "Can not delete default_tg_pt_gp"), w)
  unfolding delete check_self exists is_dir
  delete_default p w h =
      bind_ok (check_self p) (λ u. refuse >> Node.delete p) w (check_self_there p w h)
    where
      refuse : M (Unit {0})
      refuse = raise_if true (rtslib_error "Can not delete default_tg_pt_gp")

  -- A new group's tag outside of 1 to 65535 is refused before anything is made.
  pub init_tag_refused :
      (supported : M Bool) (so_path : FsPath) (name : Text) (tag : ℤ) (w w' : World)
      → supported w ≡ (ok true, w')
      → (above 65535 tag || below_one tag) ≡ true
      → init supported so_path name (some tag) w
        ≡ (err (rtslib_error "The TPG Tag must be between 1 and 65535"), w')
  unfolding init init_new
  init_tag_refused supported so_path name tag w w' yes_alua out =
      bind_ok supported (init_new so_path name tag) w yes_alua ∙ rw out

  -- Where a set of a property that the kernel stores, other than the access status and type,
  -- succeeds with a number, the get that follows returns the number and changes nothing.
  pub get-set_param :
      (p : FsPath) (q : Param) (n : ℤ) (w w' : World)
      → Stores k p (file_name q ∷ [])
      → q ≢ alua_access_status
      → q ≢ alua_access_type
      → set_param p q (Json.number n) w ≡ (ok tt, w')
      → get_param p q w' ≡ (ok n, w')
  unfolding set_param get_param fread fwrite check_self exists is_dir to_int
  get-set_param p q n w w' law status type h = ground (
    arith,
    law.stores (int_text n) w.fs w'.fs,
    law.stays (int_text n) w.fs w'.fs,
    strip-int_text n,
    decode_number q n status type,
  )
