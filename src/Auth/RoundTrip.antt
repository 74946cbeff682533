-- ===== src/Auth/RoundTrip.antt =====
-- What is set is what is read.
use rtslib_fb.Prelude.{
  ◌≡◌, refl, ◌≢◌, ◌<◌, false, some, [], length, Text, text_eq_iff, strip, strip-strip, ok, arith,
}
use rtslib_fb.Cfs.{FsPath, Kernel, World, fread, fwrite}
use rtslib_fb.Cfs.Laws.{Stores}
use rtslib_fb.Node.{check_self}
use rtslib_fb.Auth.{null_text, get_auth_attr, set_auth_attr}

strip-null_text : strip null_text ≡ null_text
unfolding strip
strip-null_text = refl

module _ ⦃k : Kernel⦄ where
  -- Where a set succeeds, the get that follows returns the stripped value and changes nothing, and
  -- that value is neither "NULL" nor longer than 255; for an attribute of an object, as a NodeACL's
  -- userid, that the kernel stores.
  pub get-set_auth_attr :
      (p attribute : FsPath) (value : Text) (w w' : World)
      → Stores k p attribute
      → set_auth_attr (check_self p) p value attribute false w ≡ (ok tt, w')
      → (get_auth_attr (check_self p) p attribute false w' ≡ (ok (some (strip value)), w'))
        × (strip value ≢ null_text)
        × (length (strip value) < 256)
  unfolding set_auth_attr get_auth_attr fwrite fread check_self
  get-set_auth_attr p attribute value w w' law h = ground (
    arith,
    law.stores null_text w.fs w'.fs,
    law.stores (strip value) w.fs w'.fs,
    law.stays null_text w.fs w'.fs,
    law.stays (strip value) w.fs w'.fs,
    strip-strip value,
    strip-null_text,
    text_eq_iff (strip value) null_text,
    text_eq_iff (strip value) [],
  )
