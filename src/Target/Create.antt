-- ===== src/Target/Create.antt =====
-- The constructors of LUN and MappedLUN that make an object (rtslib/target.py), and the ALUA group
-- of a LUN.
pub mod Undone
pub mod Linked
mod Tests
use rtslib_fb.Prelude.{
  ℕ, suc, Bool, true, false, not, Option, none, some, List, [], ◌∷◌, is_empty, has, Text, codes,
  strip, split, lines_of, ℤ, pos, negsuc, Json, to_int, to_text, Result, ok, err, rtslib_error,
  is_os, index_error, value_error, ◌==◌, if◌then◌else◌,
}
use rtslib_fb.Prelude.Free.{first_free}
use rtslib_fb.Cfs.{
  FsPath, Kernel, M, pure, raise, lift, get_world, ◌>>=◌, ◌>>◌, raise_if, try_except, any_exn,
  link_target, fread, fwrite, symlink, random_alias,
}
use rtslib_fb.Node
use rtslib_fb.Node.{create, create_in_cfs_ine, exists}
use rtslib_fb.Tcm.Lookup.{StorageObject, cls, so_from_path, alua_supported}
use rtslib_fb.Target.Objects.{Tpg, Lun, NodeAcl, MappedLun, lun_name}
use rtslib_fb.Target.Children.{
  max_target_lun, lun_path, lun_index, list_luns, find_lun, mapped_lun_index, get_alias,
}
use rtslib_fb.Target.Delete.{delete_lun, delete_mapped_lun, flag_text}

-- The argument `tpg_lun` of a MappedLUN: an index, or a LUN object.
pub data TpgLun : Type 0 where
  index : Json → TpgLun
  object : Lun → TpgLun

unfoldable pub lun_numbers : List Lun → List ℕ
lun_numbers [] = []
lun_numbers (l ∷ ls) = l.lun ∷ lun_numbers ls

-- `int(write_protect) > 0`; what raises there is False.
unfoldable pub protect_flag : Json → Bool
unfolding to_int
protect_flag j = elim (to_int j) [
  | err e ↦ false
  | ok n ↦ elim n [ pos m ↦ not (m == 0) | negsuc m ↦ false ]
]

-- `info.splitlines()[0].split(':')[1].strip()`
unfoldable pub group_of_info : Text → Result Text
unfolding lines_of split strip
group_of_info info = elim (lines_of info) [
  | [] ↦ err index_error
  | line ∷ rest ↦ elim (split b':' line) [
    | [] ↦ err index_error
    | a ∷ more ↦ elim more [ [] ↦ err index_error | b ∷ more' ↦ ok (strip b) ]
  ]
]

module _ ⦃k : Kernel⦄ where
  -- The name of the link: a random one, or the one that is given, without a slash.
  link_alias : Option Text → M Text
  link_alias none = random_alias
  link_alias (some a) = do
    raise_if (has b'/' (strip a)) (rtslib_error "Invalid alias")
    pure (strip a)

  -- `LUN._configure`
  unfoldable pub configure_lun : Lun → StorageObject → Option Text → M (Unit {0})
  unfolding link_alias
  configure_lun l so alias = do
    Node.check_self l.path
    name ← link_alias alias
    there ← exists so.path
    raise_if (not there) (rtslib_error "storage_object does not exist in configFS")
    symlink so.path (name ∷ l.path)

  unfoldable pub lun_or_full : Option ℕ → M ℕ
  lun_or_full none = raise (rtslib_error "All LUNs 0-65535 in use")
  lun_or_full (some n) = pure n

  unfoldable pub free_lun : List Lun → M ℕ
  unfolding lun_or_full lun_numbers
  free_lun luns = lun_or_full (first_free (suc max_target_lun) 0 (lun_numbers luns))

  -- The index of a LUN: the first that the TPG has not, or the given one in range.
  unfoldable pub choose_lun : Tpg → Option Json → M ℕ
  unfolding list_luns free_lun lun_index to_int
  choose_lun t (some j) = do i ← lift (to_int j); lift (lun_index i)
  choose_lun t none = do luns ← list_luns t; free_lun luns

  -- `LUN.__init__`
  unfoldable pub lun_init : Tpg → Option Json → Option StorageObject → Option Text → M Lun
  unfolding choose_lun configure_lun
  lun_init t lun none (some alias) = do
    n ← choose_lun t lun
    raise (rtslib_error "The alias parameter has no meaning without the storage_object parameter")
  lun_init t lun none none = do
    n ← choose_lun t lun
    create_in_cfs_ine (lun_path t n) Node.lookup
    pure (record { tpg = t; lun = n; path = lun_path t n })
  lun_init t lun (some so) alias = do
    n ← choose_lun t lun
    let l : Lun = record { tpg = t; lun = n; path = lun_path t n }
    create_in_cfs_ine l.path create
    try_except (configure_lun l so alias) any_exn (λ e. do delete_lun l; raise e)
    pure l

  -- `_set_write_protect`
  unfoldable pub set_write_protect : FsPath → Bool → M (Unit {0})
  set_write_protect p b = do Node.check_self p; fwrite (codes "write_protect" ∷ p) (flag_text b)

  -- The index that the argument stands for.
  wanted_index : TpgLun → M ℤ
  wanted_index (object l) = pure (pos l.lun)
  wanted_index (index j) = elim (to_int j) [
    | ok i ↦ pure i
    | err e ↦ elim e [
      | value_error ↦ raise (rtslib_error "The tpg_lun must be either an integer or a LUN object")
      | other ↦ raise other
    ]
  ]

  -- The name of a mapped LUN's link; an empty one is none.
  mapped_alias : Option Text → M Text
  mapped_alias none = random_alias
  mapped_alias (some []) = random_alias
  mapped_alias (some a) = pure a

  -- `MappedLUN._configure`
  unfoldable pub configure_mapped_lun : MappedLun → TpgLun → Json → Option Text → M (Unit {0})
  unfolding wanted_index mapped_alias protect_flag set_write_protect
  configure_mapped_lun m tpg_lun write_protect alias = do
    Node.check_self m.path
    i ← wanted_index tpg_lun
    found ← find_lun m.acl.tpg i
    elim found [
      | none ↦ raise (rtslib_error "LUN does not exist in this TPG")
      | some l ↦ (do
        name ← mapped_alias alias
        symlink l.path (name ∷ m.path)
        try_except (set_write_protect m.path (protect_flag write_protect)) any_exn
            (λ e. set_write_protect m.path false))
    ]

  -- `MappedLUN.__init__`
  unfoldable pub mapped_lun_init : NodeAcl → Json → Option TpgLun → Json → Option Text → M MappedLun
  unfolding configure_mapped_lun
  mapped_lun_init acl i tpg_lun write_protect alias = do
    there ← exists acl.path
    raise_if (not there) (rtslib_error "The parent_nodeacl does not exist")
    n ← lift (mapped_lun_index i)
    let m : MappedLun = record { acl = acl; mapped_lun = n; path = lun_name n ∷ acl.path }
    with_lun m tpg_lun
    pure m
    where
      given : Json → Bool
      given Json.null = false
      given j = true

      with_lun : MappedLun → Option TpgLun → M (Unit {0})
      with_lun m none = do
        raise_if (given write_protect) (
            rtslib_error "The write_protect parameter has no meaning without the tpg_lun parameter")
        create_in_cfs_ine m.path Node.lookup
      with_lun m (some l) = do
        create_in_cfs_ine m.path create
        try_except (configure_mapped_lun m l write_protect alias) any_exn
            (λ e. do delete_mapped_lun m; raise e)

  -- `LUN._get_storage_object`: the last two components of the link's target.
  unfoldable pub get_storage_object : Lun → M StorageObject
  get_storage_object l = do
    alias ← get_alias l.path
    w ← get_world
    elim (link_target (alias ∷ l.path) w.fs) [ none ↦ raise index_error | some q ↦ from_target q ]
    where
      from_target : FsPath → M StorageObject
      from_target (name ∷ hba ∷ rest) = so_from_path hba name
      from_target q = raise index_error

  -- `_get_alua_tg_pt_gp_name`; None is the empty text, which the callers treat alike.
  unfoldable pub get_alua_tg_pt_gp_name : Lun → M Text
  unfolding get_storage_object
  get_alua_tg_pt_gp_name l = do
    Node.check_self l.path
    so ← get_storage_object l
    supported ← alua_supported (cls so) so.path
    if not supported
        then pure []
        else try_except
            (do
              info ← fread (codes "alua_tg_pt_gp" ∷ l.path)
              if is_empty info then pure [] else lift (group_of_info info))
            is_os (λ e. pure [])

  -- `_set_alua_tg_pt_gp_name`; the result tells whether it returned 0.
  unfoldable pub set_alua_tg_pt_gp_name : Lun → Json → M Bool
  unfolding get_alua_tg_pt_gp_name
  set_alua_tg_pt_gp_name l name = do
    Node.check_self l.path
    old ← get_alua_tg_pt_gp_name l
    if is_empty old
        then pure false
        else try_except (do fwrite (codes "alua_tg_pt_gp" ∷ l.path) (to_text name); pure true) is_os
            (λ e. pure false)
