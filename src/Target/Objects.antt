-- ===== src/Target/Objects.antt =====
-- The objects of rtslib/target.py and the constructors of Target and TPG, with `_check_self` of a
-- fabric module (rtslib/fabric.py) and the nexus of a TPG.
use rtslib_fb.Prelude.{
  ℕ, Bool, not, ◌&&◌, Option, none, some, List, [], ◌∷◌, ◌++◌, is_empty, keep, Text, codes, text_eq,
  starts_with, split, decimal, drop, ℤ, pos, negsuc, Json, to_int, py_int, Result, ok, err,
  rtslib_error, is_rtslib, is_os, value_error, index_error, if◌then◌else◌, any as any_of,
}
use rtslib_fb.Prelude.Free.{first_free}
use rtslib_fb.Wwn.{WwnType}
use rtslib_fb.Fabric.{
  Fabric, Feature, tpgts, nexus, has_feature, needs_wwn, wwn_types, cfs_dir, kernel_module,
  to_normalized_wwn, to_fabric_wwn,
}
use rtslib_fb.Cfs.{
  FsPath, Fs, Kernel, M, pure, raise, lift, get_world, ◌>>=◌, ◌>>◌, raise_if, when, try_except,
  for_each, map_m, is_dir_in, is_dir, fread, fwrite, listdir, generate_wwn, children,
}
use rtslib_fb.Node
use rtslib_fb.Node.{Mode, any, lookup, configfs_dir, create_in_cfs_ine, exists}
use rtslib_fb.Dbroot.{modprobe}

abbrev pub fabric_path : Fabric → FsPath
fabric_path f = cfs_dir f ∷ configfs_dir

pub record Target : Type 0 where
  pub fabric : Fabric
  pub wwn : Text
  pub wwn_type : WwnType
  pub path : FsPath

pub record Tpg : Type 0 where
  pub target : Target
  pub tag : ℕ
  pub path : FsPath

pub record Lun : Type 0 where
  pub tpg : Tpg
  pub lun : ℕ
  pub path : FsPath

pub record NetworkPortal : Type 0 where
  pub tpg : Tpg
  pub ip_address : Text
  pub port : ℤ
  pub path : FsPath

pub record NodeAcl : Type 0 where
  pub tpg : Tpg
  pub node_wwn : Text
  pub wwn_type : WwnType
  pub path : FsPath

pub record MappedLun : Type 0 where
  pub acl : NodeAcl
  pub mapped_lun : ℕ
  pub path : FsPath

-- The names that `%d` makes.
abbrev pub tpgt_name : ℕ → Text
tpgt_name tag = codes "tpgt_" ++ decimal tag

abbrev pub lun_name : ℕ → Text
lun_name n = codes "lun_" ++ decimal n

-- `name.split('_')[1]`
abbrev second : List Text → Result Text
second (a ∷ b ∷ rest) = ok b
second parts = err index_error

unfoldable pub number_part : Text → Result Text
unfolding split
number_part name = second (split b'_' name)

-- `int(name.split('_')[1])`
unfoldable pub numbered : Text → Result ℤ
unfolding number_part py_int
numbered name = elim (number_part name) [
  | err e ↦ err e
  | ok s ↦ elim (py_int s) [ none ↦ err value_error | some n ↦ ok n ]
]

abbrev pub tpg_has : Tpg → Feature → Bool
tpg_has t x = has_feature t.target.fabric x

-- Old versions used a wrong NAA prefix.
unfoldable pub fix_naa : Text → Text
fix_naa w = if starts_with (codes "naa.6") w then codes "naa.5" ++ drop 5 w else w

module _ ⦃k : Kernel⦄ where
  -- `_BaseFabricModule._check_self`: a missing directory is made, after the kernel module is loaded
  -- if that is what it takes.
  unfoldable pub fabric_check_self : Fabric → M (Unit {0})
  fabric_check_self f = do
    there ← exists (fabric_path f)
    when (not there) (
        try_except (create_in_cfs_ine (fabric_path f) any) is_rtslib
          (λ e. do modprobe (kernel_module f); create_in_cfs_ine (fabric_path f) any))
    Node.check_self (fabric_path f)

  -- The WWN that is given, normalised, or a new one of the fabric's first type.
  unfoldable pub target_wwn : Fabric → Option Text → M (Text × WwnType)
  unfolding fix_naa
  target_wwn f (some w) = lift (to_normalized_wwn f (fix_naa w))
  target_wwn f none =
      if needs_wwn f
      then raise (rtslib_error "Fabric cannot generate WWN but it was not given")
      else from_types (wwn_types f)
    where
      from_types : List WwnType → M (Text × WwnType)
      from_types [] = raise index_error
      from_types (t ∷ ts) = do w ← generate_wwn t; pure (w, t)

  -- `Target.__init__`
  unfoldable pub target_init : Fabric → Option Text → Mode → M Target
  unfolding target_wwn
  target_init f wwn mode = do
    fabric_check_self f
    found ← target_wwn f wwn
    let p = to_fabric_wwn f found.0 ∷ fabric_path f
    create_in_cfs_ine p mode
    pure (record { fabric = f; wwn = found.0; wwn_type = found.1; path = p })

  -- `_get_nexus`; None, and an unreadable nexus, are the empty text.
  unfoldable pub get_nexus : Tpg → M Text
  get_nexus t = do
    Node.check_self t.path
    if tpg_has t nexus
        then try_except (fread (codes "nexus" ∷ t.path)) is_os (λ e. pure [])
        else pure []

  -- `_set_nexus` with no WWN given: one of the target's type.
  unfoldable pub set_nexus : Tpg → M (Unit {0})
  unfolding get_nexus
  set_nexus t = do
    Node.check_self t.path
    raise_if (not (tpg_has t nexus)) (rtslib_error "The TPG does not use a nexus")
    old ← get_nexus t
    raise_if (not (is_empty old)) (rtslib_error "The TPG's nexus initiator WWN is already set")
    w ← generate_wwn t.target.wwn_type
    fwrite (codes "nexus" ∷ t.path) (to_fabric_wwn t.target.fabric w)

  -- A directory of another TPG in the target's.
  abbrev other_tpg : Target → ℕ → Fs → Text → Bool
  other_tpg t tag fs n =
      starts_with (codes "tpgt_") n && is_dir_in (n ∷ t.path) fs && not (text_eq n (tpgt_name tag))

  -- A fabric without tags has one TPG for each target.
  unfoldable pub refuse_second : Target → ℕ → FsPath → M (Unit {0})
  refuse_second t tag p = do
    there ← is_dir p
    when (not (has_feature t.fabric tpgts) && not there) (do
      names ← listdir t.path
      w ← get_world
      raise_if (any_of (other_tpg t tag w.fs) names)
          (rtslib_error "Target cannot have multiple TPGs"))

  unfoldable pub ensure_nexus : Tpg → M (Unit {0})
  unfolding get_nexus set_nexus
  ensure_nexus tpg =
      when (tpg_has tpg nexus) (do old ← get_nexus tpg; when (is_empty old) (set_nexus tpg))

  abbrev pub tpg_of : Target → ℕ → Tpg
  tpg_of t tag = record { target = t; tag = tag; path = tpgt_name tag ∷ t.path }

  -- The constructor behind the choice of the tag.
  unfoldable pub tpg_bind : Target → ℕ → Mode → M Tpg
  unfolding refuse_second ensure_nexus
  tpg_bind t tag mode = do
    refuse_second t tag (tpg_of t tag).path
    create_in_cfs_ine (tpg_of t tag).path mode
    ensure_nexus (tpg_of t tag)
    pure (tpg_of t tag)

  -- `TPG(parent_target, tag, mode)` with a tag.
  unfoldable pub tpg_at : Target → ℤ → Mode → M Tpg
  unfolding tpg_bind
  tpg_at t (pos tag) mode = tpg_bind t tag mode
  tpg_at t (negsuc n) mode = raise (rtslib_error "The TPG Tag must be >=0")

  -- `_list_tpgs`
  unfoldable pub list_tpgs : Target → M (List Tpg)
  list_tpgs t = do
    Node.check_self t.path
    w ← get_world
    map_m (keep (starts_with (codes "tpgt")) (children t.path w.fs))
        (λ n. do tag ← lift (numbered n); tpg_at t tag lookup)

  -- `for tpg in target.tpgs: body(tpg)`
  unfoldable pub for_tpgs : Target → (Tpg → M (Unit {0})) → M (Unit {0})
  for_tpgs t body = do
    Node.check_self t.path
    w ← get_world
    for_each (keep (starts_with (codes "tpgt")) (children t.path w.fs))
        (λ n. do tag ← lift (numbered n); tpg ← tpg_at t tag lookup; body tpg)

  unfoldable pub tags : List Tpg → List ℕ
  tags [] = []
  tags (t ∷ ts) = t.tag ∷ tags ts

  -- `range(1048576)` without 0.
  abbrev pub max_tags : ℕ
  max_tags = 1048575

  unfoldable pub tpg_or_full : Target → Mode → Option ℕ → M Tpg
  unfolding tpg_bind
  tpg_or_full t mode none = raise (rtslib_error "Cannot find an available TPG Tag")
  tpg_or_full t mode (some tag) = tpg_bind t tag mode

  -- `TPG.__init__`: with no tag, the first positive one that the target has not.
  unfoldable pub free_tpg : Target → Mode → List Tpg → M Tpg
  unfolding tpg_or_full tags
  free_tpg t mode tpgs = tpg_or_full t mode (first_free max_tags 1 (tags tpgs))

  unfoldable pub tpg_init : Target → Option Json → Mode → M Tpg
  unfolding free_tpg tpg_at list_tpgs to_int
  tpg_init t (some tag) mode = do n ← lift (to_int tag); tpg_at t n mode
  tpg_init t none mode = do tpgs ← list_tpgs t; free_tpg t mode tpgs
