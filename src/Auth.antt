-- ===== src/Auth.antt =====
-- The authentication attributes of rtslib/utils.py: `_get_auth_attr` and `_set_auth_attr`. The
-- attribute is a path below the object's directory, such as auth/userid; "NULL" stands for unset.
pub mod RoundTrip
mod Tests
use rtslib_fb.Prelude.{
  ℕ, Bool, true, false, Option, none, some, List, [], ◌∷◌, ◌++◌, length, Text, codes, text_eq,
  strip, ltb, Exn, rtslib_error, if◌then◌else◌,
}
use rtslib_fb.Cfs.{
  FsPath, Kernel, M, pure, raise, ◌>>=◌, ◌>>◌, raise_if, try_except, any_exn, fread, fwrite,
}

abbrev pub null_text : Text
null_text = codes "NULL"

module _ ⦃k : Kernel⦄ where
  -- `None` comes back where the attribute cannot be read and `ignore` is set. `check` is the
  -- object's `_check_self`.
  unfoldable pub get_auth_attr : M (Unit {0}) → FsPath → FsPath → Bool → M (Option Text)
  get_auth_attr check p attribute ignore = do
    check
    value ←
        try_except (do s ← fread (attribute ++ p); pure (some s)) any_exn
          (λ e. if ignore then pure none else raise e)
    pure (elim value [ none ↦ none | some s ↦ (if text_eq s null_text then some [] else some s) ])

  unfoldable pub set_auth_attr : M (Unit {0}) → FsPath → Text → FsPath → Bool → M (Unit {0})
  set_auth_attr check p value attribute ignore = do
    check
    let stripped = strip value
    raise_if (text_eq stripped null_text) (rtslib_error "'NULL' is not a permitted value")
    raise_if (ltb 255 (length stripped)) (rtslib_error "Value longer than maximum length")
    try_except (fwrite (attribute ++ p) (if text_eq stripped [] then null_text else stripped))
        any_exn (λ e. if ignore then pure tt else raise e)
