-- ===== src/Target/Enable.antt =====
-- The enable flag of a TPG (rtslib/target.py): what is set is what is read.
use rtslib_fb.Prelude.{
  ◌≡◌, refl, Bool, true, false, [], ◌∷◌, codes, strip, int_of, py_int, ok, arith,
}
use rtslib_fb.Cfs.{Kernel, World, is_file_in, is_file, is_dir, fread, fwrite}
use rtslib_fb.Cfs.Laws.{is_file-content, Stores}
use rtslib_fb.Node.{check_self, exists}
use rtslib_fb.Target.Objects.{Tpg}
use rtslib_fb.Target.Delete.{flag_text, get_enable, set_enable}
use rtslib_fb.Tcm.Lookup.{int_flag}

module _ ⦃k : Kernel⦄ where
  int_flag-strip : (b : Bool) → int_flag (strip (flag_text b)) ≡ ok b
  unfolding int_flag py_int strip int_of
  int_flag-strip true = refl
  int_flag-strip false = refl

  -- Where the TPG has an enable file that the kernel stores and a set succeeds, the get that
  -- follows returns what was set and changes nothing.
  pub get-set_enable :
      (t : Tpg) (b : Bool) (w w' : World)
      → Stores k t.path (codes "enable" ∷ [])
      → is_file_in (codes "enable" ∷ t.path) w.fs ≡ true
      → set_enable t b w ≡ (ok tt, w')
      → get_enable t w' ≡ (ok b, w')
  unfolding set_enable get_enable check_self exists is_file is_dir fread fwrite
  get-set_enable t b w w' law there h = ground (
    arith,
    law.stores (flag_text b) w.fs w'.fs,
    law.stays (flag_text b) w.fs w'.fs,
    is_file-content (codes "enable" ∷ t.path) w'.fs (flag_text b),
    int_flag-strip b,
  )
