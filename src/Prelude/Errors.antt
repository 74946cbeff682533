-- ===== src/Prelude/Errors.antt =====
-- Python's exceptions: the program's own classes (rtslib/utils.py, lines 33-54) and those of Python
-- that its code can raise or handles. A message is the constant part of the text.
use Prim.Native.String.{String}
use mathlib.Core.Bool.{Bool, true, false}

pub data Exn : Type 0 where
  rtslib_error : String → Exn
  alua_not_supported broken_link not_in_cfs : Exn
  os_error value_error key_error type_error index_error attribute_error unbound_local zero_division
        overflow_error device_not_found :
      Exn
  runtime_error : String → Exn

-- `except RTSLibError`: the class and its three subclasses.
unfoldable pub is_rtslib : Exn → Bool
is_rtslib (rtslib_error m) = true
is_rtslib alua_not_supported = true
is_rtslib broken_link = true
is_rtslib not_in_cfs = true
is_rtslib e = false

-- `except OSError` (IOError is the same class).
unfoldable pub is_os : Exn → Bool
is_os os_error = true
is_os e = false

-- `except (RTSLibError, KeyError)`
unfoldable pub is_rtslib_or_key : Exn → Bool
unfolding is_rtslib
is_rtslib_or_key key_error = true
is_rtslib_or_key e = is_rtslib e

pub data Result {ℓ} (A : Type ℓ) : Type ℓ where
  ok : A → Result A
  err : Exn → Result A
