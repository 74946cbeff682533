-- ===== src/Tcm/Delete.antt =====
-- `StorageObject.delete` of rtslib/tcm.py and the scan for the LUNs that use the object.
pub mod Gone
mod Tests
use rtslib_fb.Prelude.{
  ℕ, ◌+◌, Bool, true, false, not, ◌&&◌, Option, none, some, List, [], ◌∷◌, ◌++◌, is_empty, to_int,
  Text, codes, text_eq, starts_with, drop, length, split, words, lower, Json, Result, ok, err,
  index_error, attribute_error, ◌==◌, if◌then◌else◌,
}
use rtslib_fb.Fabric.{Fabric, fabric_modules, is_target_name}
use rtslib_fb.Cfs.{
  FsPath, path_eq, Kernel, M, pure, raise, lift, get_world, ◌>>=◌, ◌>>◌, when, is_dir_in,
  link_target, fread, listdir,
}
use rtslib_fb.Node
use rtslib_fb.Node.{Mode, check_self, exists}
use rtslib_fb.Dbroot.{rtsroot_init}
use rtslib_fb.Alua
use rtslib_fb.Tcm.Backstore
use rtslib_fb.Tcm.Lookup.{StorageObject, cls, is_configured, alua_supported}
use rtslib_fb.Target.Objects.{Lun, fabric_path, target_init, tpg_init}
use rtslib_fb.Target.Children.{lun_lookup}
use rtslib_fb.Target.Delete.{delete_lun}

-- `[^: ]+` from here, if there is any.
abbrev pub is_value_char : ℕ → Bool
is_value_char c = not (c == b':') && not (c == 32)

unfoldable pub value_here : Text → Text
value_here [] = []
value_here (c ∷ s) = let rest = value_here s in if is_value_char c then c ∷ rest else []

-- `re.search(".*KEY: ([^: ]+).*", s)`: the last place where the pattern fits.
unfoldable pub search_info : Text → Text → Option Text
unfolding value_here
search_info key [] = none
search_info key (c ∷ s) = elim (search_info key s) [
  | some v ↦ some v
  | none ↦
      (if starts_with (key ++ codes ": ") (c ∷ s)
          && not (is_empty (value_here (drop (length key + 2) (c ∷ s))))
        then some (value_here (drop (length key + 2) (c ∷ s)))
        else none)
]

abbrev pub join_words : List Text → Text
join_words [] = []
join_words (w ∷ []) = w
join_words (w ∷ v ∷ ws) = w ++ 32 ∷ join_words (v ∷ ws)

-- `(tpgt_dir + "_" + lun_dir).split('_')`, its elements 1 and 3.
abbrev tag_and_lun : List Text → Result (Text × Text)
tag_and_lun (a ∷ b ∷ c ∷ d ∷ rest) = ok (b, d)
tag_and_lun parts = err index_error

module _ ⦃k : Kernel⦄ where
  -- `_parse_info`
  unfoldable pub parse_info : FsPath → Text → M (Option Text)
  unfolding search_info words
  parse_info p key = do
    check_self p
    info ← fread (codes "info" ∷ p)
    pure (search_info key (join_words (words info)))

  -- `_get_status`
  unfoldable pub get_status : FsPath → M Text
  unfolding parse_info lower
  get_status p = do
    check_self p
    found ← parse_info p (codes "Status")
    elim found [ none ↦ raise attribute_error | some s ↦ pure (lower s) ]

  -- `LUN(TPG(target, val[1]), val[3])` in `_gen_attached_luns`.
  attached_lun : Fabric → Text → Text → Text → M Lun
  unfolding split
  attached_lun f tgt_dir tpgt_dir lun_dir = do
    val ← lift (tag_and_lun (split b'_' (tpgt_dir ++ b'_' ∷ lun_dir)))
    target ← target_init f (some tgt_dir) Mode.any
    tpg ← tpg_init target (some (Json.text val.0)) Mode.any
    i ← lift (to_int (Json.text val.1))
    lun_lookup tpg i

  -- The four inner loops of `_gen_attached_luns`; `body` tells whether to stop, and then all stop.
  in_lun : FsPath → FsPath → List Text → M Lun → (Lun → M Bool) → M Bool
  in_lun so links [] build body = pure false
  in_lun so links (n ∷ ns) build body = do
    w ← get_world
    stop ← elim (link_target (n ∷ links) w.fs) [
      | none ↦ pure false
      | some q ↦ (if path_eq q so then (do l ← build; body l) else pure false)
    ]
    if stop then pure true else in_lun so links ns build body

  in_luns : FsPath → Fabric → Text → Text → List Text → (Lun → M Bool) → M Bool
  unfolding in_lun attached_lun
  in_luns so f tgt tpgt [] body = pure false
  in_luns so f tgt tpgt (n ∷ ns) body = do
    let links = n ∷ codes "lun" ∷ tpgt ∷ tgt ∷ fabric_path f
    files ← listdir links
    stop ← in_lun so links files (attached_lun f tgt tpgt n) body
    if stop then pure true else in_luns so f tgt tpgt ns body

  in_tpgs : FsPath → Fabric → Text → List Text → (Lun → M Bool) → M Bool
  unfolding in_luns
  in_tpgs so f tgt [] body = pure false
  in_tpgs so f tgt (n ∷ ns) body = do
    w ← get_world
    stop ←
        if is_dir_in (codes "lun" ∷ n ∷ tgt ∷ fabric_path f) w.fs
        then (do
          luns ← listdir (codes "lun" ∷ n ∷ tgt ∷ fabric_path f)
          in_luns so f tgt n luns body)
        else pure false
    if stop then pure true else in_tpgs so f tgt ns body

  in_targets : FsPath → Fabric → List Text → (Lun → M Bool) → M Bool
  unfolding in_tpgs
  in_targets so f [] body = pure false
  in_targets so f (n ∷ ns) body = do
    stop ←
        if is_target_name n
        then (do tpgs ← listdir (n ∷ fabric_path f); in_tpgs so f n tpgs body)
        else pure false
    if stop then pure true else in_targets so f ns body

  in_fabrics : FsPath → List Fabric → (Lun → M Bool) → M Bool
  unfolding in_targets
  in_fabrics so [] body = pure false
  in_fabrics so (f ∷ fs) body = do
    there ← exists (fabric_path f)
    stop ←
        if there
        then (do targets ← listdir (fabric_path f); in_targets so f targets body)
        else pure false
    if stop then pure true else in_fabrics so fs body

  -- `for lun in self._gen_attached_luns(): body(lun)`
  unfoldable pub for_attached_luns : FsPath → (Lun → M Bool) → M Bool
  unfolding in_fabrics
  for_attached_luns so body = do rtsroot_init; in_fabrics so fabric_modules body

  -- The loop over `_list_alua_tpgs` that deletes all groups but the kernel's.
  delete_groups : StorageObject → List Text → M (Unit {0})
  delete_groups so [] = pure tt
  delete_groups so (n ∷ ns) = do
    supported ← alua_supported (cls so) so.path
    when supported (do
      p ← Alua.init (alua_supported (cls so) so.path) so.path n none
      when (not (text_eq n Alua.default_group)) (Alua.delete p n))
    delete_groups so ns

  -- `delete`, without `save`.
  unfoldable pub delete : StorageObject → M (Unit {0})
  unfolding for_attached_luns delete_groups get_status
  delete so = do
    check_self so.path
    check_self so.path
    groups ← listdir (codes "alua" ∷ so.path)
    delete_groups so groups
    configured ← is_configured so.path
    when configured (do
      for_attached_luns so.path (λ l. do
        status ← get_status so.path
        if text_eq status (codes "activated") then (do delete_lun l; pure false) else pure true)
      pure tt)
    Node.delete so.path
    Backstore.delete so.backstore
