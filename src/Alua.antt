-- ===== src/Alua.antt =====
-- `class ALUATargetPortGroup` of rtslib/alua.py: the ALUA target port groups of a storage object.
pub mod Groups
pub mod Members
pub mod Printed
mod Tests
use rtslib_fb.Prelude.{
  ℕ, zero, suc, ◌+◌, Bool, true, false, not, ◌&&◌, ◌||◌, Option, none, some, List, [], ◌∷◌, ◌++◌,
  Text, codes, text_eq, String, ltb, ◌==◌, ℤ, pos, negsuc, py_int, Json, to_int, int_text, Exn,
  Result, ok, err, rtslib_error, alua_not_supported, os_error, value_error, type_error, is_os,
  if◌then◌else◌,
}
use rtslib_fb.Cfs.{
  FsPath, Kernel, M, pure, raise, lift, ◌>>=◌, ◌>>◌, raise_if, when, try_except, any_exn, for_each,
  map_m, fread, fwrite,
}
use rtslib_fb.Node
use rtslib_fb.Node.{NodeDump, create_in_cfs_ine, check_self}

-- `alua_rw_params`, in its order: the properties with a setter.
pub data Param : Type 0 where
  alua_access_state alua_access_status alua_write_metadata alua_access_type preferred : Param
  nonop_delay_msecs trans_delay_msecs implicit_trans_secs : Param
  alua_support_offline alua_support_standby alua_support_transitioning : Param
  alua_support_active_nonoptimized alua_support_unavailable alua_support_active_optimized : Param

abbrev pub alua_rw_params : List Param
alua_rw_params =
    alua_access_state ∷ alua_access_status ∷ alua_write_metadata ∷ alua_access_type ∷ preferred
    ∷ nonop_delay_msecs ∷ trans_delay_msecs ∷ implicit_trans_secs ∷ alua_support_offline
    ∷ alua_support_standby ∷ alua_support_transitioning ∷ alua_support_active_nonoptimized
    ∷ alua_support_unavailable ∷ alua_support_active_optimized ∷ []

-- The attribute's file, which has the property's name.
abbrev pub file_name : Param → Text
file_name alua_access_state = codes "alua_access_state"
file_name alua_access_status = codes "alua_access_status"
file_name alua_write_metadata = codes "alua_write_metadata"
file_name alua_access_type = codes "alua_access_type"
file_name preferred = codes "preferred"
file_name nonop_delay_msecs = codes "nonop_delay_msecs"
file_name trans_delay_msecs = codes "trans_delay_msecs"
file_name implicit_trans_secs = codes "implicit_trans_secs"
file_name alua_support_offline = codes "alua_support_offline"
file_name alua_support_standby = codes "alua_support_standby"
file_name alua_support_transitioning = codes "alua_support_transitioning"
file_name alua_support_active_nonoptimized = codes "alua_support_active_nonoptimized"
file_name alua_support_unavailable = codes "alua_support_unavailable"
file_name alua_support_active_optimized = codes "alua_support_active_optimized"

abbrev pub alua_types : List Text
alua_types = codes "None" ∷ codes "Implicit" ∷ codes "Explicit" ∷ codes "Implicit and Explicit" ∷ []

abbrev pub alua_statuses : List Text
alua_statuses =
    codes "None" ∷ codes "Altered by Explicit STPG" ∷ codes "Altered by Implicit ALUA" ∷ []

-- `list.index(value)`
unfoldable pub index_from : ℕ → Text → List Text → Result ℤ
index_from i s [] = err value_error
index_from i s (t ∷ ts) =
    let rest = index_from (suc i) s ts in if text_eq s t then ok (pos i) else rest

unfoldable pub int_value : Text → Result ℤ
unfolding py_int
int_value s = elim (py_int s) [ none ↦ err value_error | some n ↦ ok n ]

-- What a getter makes of the file's text: the type and the status are words, all else is a number.
unfoldable pub decode : Param → Text → Result ℤ
unfolding index_from int_value
decode alua_access_status s = index_from 0 s alua_statuses
decode alua_access_type s = index_from 0 s alua_types
decode q s = int_value s

abbrev pub default_group : Text
default_group = codes "default_tg_pt_gp"

abbrev pub below_one : ℤ → Bool
below_one (pos n) = n == 0
below_one (negsuc n) = true

abbrev pub above : ℕ → ℤ → Bool
above m (pos n) = ltb m n
above m (negsuc n) = false

-- An entry of a saved group, other than its name and its id: a property with a setter, a property
-- without one, or any other name, which Python sets on the object alone.
pub data Setting : Type 0 where
  rw : Param → Setting
  ro other : Setting

pub record SavedGroup : Type 0 where
  pub name : Text
  pub tg_pt_gp_id : ℤ
  pub items : List (Setting × Json)

pub record GroupDump : Type 0 where
  pub node : NodeDump
  pub name : Text
  pub tg_pt_gp_id : ℤ
  pub params : List (Param × ℤ)

module _ ⦃k : Kernel⦄ where
  -- The fourteen getters of `alua_rw_params`.
  unfoldable pub get_param : FsPath → Param → M ℤ
  unfolding decode
  get_param p q = do check_self p; s ← fread (file_name q ∷ p); lift (decode q s)

  -- The fourteen setters.
  unfoldable pub set_param : FsPath → Param → Json → M (Unit {0})
  unfolding to_int
  set_param p q value = do
    check_self p
    try_except (do n ← lift (to_int value); fwrite (file_name q ∷ p) (int_text n)) is_os
        (λ e. raise (rtslib_error "Cannot set ALUA attribute"))

  unfoldable pub get_tg_pt_gp_id : FsPath → M ℤ
  unfolding int_value
  get_tg_pt_gp_id p = do check_self p; s ← fread (codes "tg_pt_gp_id" ∷ p); lift (int_value s)

  -- `delete` of a group with this name.
  unfoldable pub delete : FsPath → Text → M (Unit {0})
  delete p name = do
    check_self p
    raise_if (text_eq name default_group) (rtslib_error "Can not delete default_tg_pt_gp")
    Node.delete p

  -- `__init__` with a tag, behind the test of the support.
  init_new : FsPath → Text → ℤ → Bool → M FsPath
  unfolding delete
  init_new so_path name tag yes_alua = do
    raise_if (not yes_alua) alua_not_supported
    raise_if (above 65535 tag || below_one tag)
        (rtslib_error "The TPG Tag must be between 1 and 65535")
    let p = name ∷ codes "alua" ∷ so_path
    try_except (create_in_cfs_ine p Node.create) is_os (λ e. raise (rtslib_error "OSError"))
    try_except (fwrite (codes "tg_pt_gp_id" ∷ p) (int_text tag)) is_os
        (λ e. do delete p name; raise (rtslib_error "Cannot set id"))
    pure p

  -- `__init__`: the object is its path and its name. `supported` is the storage object's
  -- `alua_supported`, and `so_path` its path.
  unfoldable pub init : M Bool → FsPath → Text → Option ℤ → M FsPath
  unfolding init_new
  init supported so_path name none = do
    yes_alua ← supported
    raise_if (not yes_alua) alua_not_supported
    let p = name ∷ codes "alua" ∷ so_path
    try_except (create_in_cfs_ine p Node.lookup) is_os (λ e. raise (rtslib_error "OSError"))
    pure p
  init supported so_path name (some tag) = do
    yes_alua ← supported
    init_new so_path name tag yes_alua

  unfoldable pub set_setting : FsPath → Setting × Json → M (Unit {0})
  unfolding set_param
  set_setting p (rw q, value) = set_param p q value
  set_setting p (ro, value) = raise Exn.attribute_error
  set_setting p (other, value) = pure tt

  -- `setup`
  unfoldable pub setup : M Bool → FsPath → SavedGroup → M (Unit {0})
  unfolding init set_setting
  setup supported so_path g = if text_eq g.name default_group then pure tt else do
    p ← init supported so_path g.name (some g.tg_pt_gp_id)
    for_each g.items (λ item.
        try_except (set_setting p item) any_exn
          (λ e. raise (rtslib_error "Could not set attribute for alua tpg")))

  -- `dump`
  unfoldable pub dump : FsPath → Text → M GroupDump
  unfolding get_tg_pt_gp_id get_param
  dump p name = do
    node ← Node.dump p
    id ← get_tg_pt_gp_id p
    params ← map_m alua_rw_params (λ q. do n ← get_param p q; pure (q, n))
    pure (record { node = node; name = name; tg_pt_gp_id = id; params = params })
