-- ===== src/Tcm/Info.antt =====
-- What the storage object classes of rtslib/tcm.py read of an object.
use rtslib_fb.Prelude.{
  Bool, not, Option, none, some, List, [], ◌∷◌, ◌++◌, is_empty, Text, codes, text_eq, starts_with,
  drop, length, split, words, strip, ℤ, ◌*ℤ◌, py_int, decimal, Result, ok, err, value_error,
  type_error, attribute_error, index_error, if◌then◌else◌,
}
use rtslib_fb.Cfs.{FsPath, Kernel, M, pure, raise, lift, ◌>>=◌, ◌>>◌, listdir, fread}
use rtslib_fb.Node
use rtslib_fb.Node.{check_self}
use rtslib_fb.Alua
use rtslib_fb.Alua.{GroupDump}
use rtslib_fb.Tcm.Backstore.{Backstore, Plugin, plugin_name}
use rtslib_fb.Tcm.Lookup.{StorageObject, cls, int_flag, alua_supported}
use rtslib_fb.Tcm.Delete.{parse_info, search_info, join_words, for_attached_luns}
use rtslib_fb.Target.Objects.{Lun}

-- `int` of what `_parse_info` gives; `int(None)` is a TypeError.
unfoldable pub int_found : Option Text → Result ℤ
unfolding py_int
int_found none = err type_error
int_found (some s) = elim (py_int s) [ none ↦ err value_error | some n ↦ ok n ]

-- The part of a text before the last place of a word.
unfoldable pub before_last : Text → Text → Option Text
before_last word [] = none
before_last word (c ∷ s) =
    let rest = before_last word s in
    elim rest [
      | some t ↦ some (c ∷ t)
      | none ↦ (if starts_with word (c ∷ s) then some [] else none)
    ]

-- `re.search(".*FIRST(.*)LAST", s).group(1)`: what stands behind the last FIRST that has a LAST.
unfoldable pub between : Text → Text → Text → Option Text
unfolding before_last
between first last [] = none
between first last (c ∷ s) =
    let rest = between first last s in
    elim rest [
      | some t ↦ some t
      | none ↦
          (if starts_with first (c ∷ s)
            then before_last last (drop (length first) (c ∷ s))
            else none)
    ]

-- The two numbers of "pages*size".
unfoldable pub pages_part : Option Text → Result Text
unfolding split
pages_part none = err attribute_error
pages_part (some s) = elim (split b'*' s) [ [] ↦ err index_error | a ∷ parts ↦ ok a ]

unfoldable pub page_size_part : Option Text → Result Text
unfolding split
page_size_part none = err attribute_error
page_size_part (some s) = second (split b'*' s)
  where
    second : List Text → Result Text
    second (a ∷ b ∷ parts) = ok b
    second parts = err index_error

module _ ⦃k : Kernel⦄ where
  -- `int(self._parse_info(key))`, behind `_check_self`.
  unfoldable pub int_info : FsPath → Text → M ℤ
  unfolding parse_info int_found
  int_info p key = do check_self p; found ← parse_info p key; lift (int_found found)

  -- `_Backstore._parse_info`: None where the key is not there.
  unfoldable pub parse_hba_info : Backstore → Text → M (Option Text)
  unfolding search_info words
  parse_hba_info b key = do
    check_self b.path
    info ← fread (codes "hba_info" ∷ b.path)
    pure (search_info key (join_words (words info)))

  -- `_get_plugin` and `_get_name` of a backstore.
  unfoldable pub backstore_plugin : Backstore → M Plugin
  backstore_plugin b = do check_self b.path; pure b.cls

  unfoldable pub backstore_name : Backstore → M Text
  unfolding backstore_plugin
  backstore_name b = do
    check_self b.path
    c ← backstore_plugin b
    pure (plugin_name c ++ decimal b.index)

  -- `_get_version`
  unfoldable pub get_version : Backstore → M (Option Text)
  unfolding parse_hba_info
  get_version b = do check_self b.path; parse_hba_info b (codes "version")

  -- `_get_udev_path`: an empty one of a fileio object is read from the object's state.
  unfoldable pub get_udev_path : StorageObject → M Text
  unfolding backstore_plugin parse_info
  get_udev_path so = do
    check_self so.path
    udev_path ← fread (codes "udev_path" ∷ so.path)
    if not (is_empty udev_path) then pure udev_path else (do
      c ← backstore_plugin so.backstore
      if not (text_eq (plugin_name c) (codes "fileio")) then pure udev_path else (do
        found ← parse_info so.path (codes "File")
        elim found [ none ↦ raise attribute_error | some s ↦ pure (strip s) ]))

  module _ {A : Type 0} where
    collect_groups : StorageObject → (FsPath → Text → M A) → List Text → M (List A)
    collect_groups so read [] = pure []
    collect_groups so read (n ∷ ns) = do
      supported ← alua_supported (cls so) so.path
      if not supported then collect_groups so read ns else (do
        p ← Alua.init (alua_supported (cls so) so.path) so.path n none
        a ← read p n
        rest ← collect_groups so read ns
        pure (a ∷ rest))

    -- `[read(tpg) for tpg in self._list_alua_tpgs()]`
    unfoldable pub from_alua_tpgs : StorageObject → (FsPath → Text → M A) → M (List A)
    unfolding collect_groups
    from_alua_tpgs so read = do
      check_self so.path
      names ← listdir (codes "alua" ∷ so.path)
      collect_groups so read names

  -- `for lun in self._list_attached_luns(): body(lun)`
  unfoldable pub list_attached_luns : FsPath → (Lun → M Bool) → M Bool
  list_attached_luns p body = do check_self p; for_attached_luns p body

  -- The texts of `_get_model` and `_get_vendor`.
  unfoldable pub info_between : FsPath → Text → Text → M Text
  unfolding between words
  info_between p first last = do
    check_self p
    info ← fread (codes "info" ∷ p)
    elim (between first last (join_words (words info))) [
      | none ↦ raise attribute_error
      | some s ↦ pure (strip s)
    ]

  unfoldable pub get_model : FsPath → M Text
  unfolding info_between
  get_model p = info_between p (codes "Model:") (codes "Rev:")

  unfoldable pub get_vendor : FsPath → M Text
  unfolding info_between
  get_vendor p = info_between p (codes "Vendor:") (codes "Model:")

  unfoldable pub get_revision : FsPath → M (Option Text)
  unfolding parse_info
  get_revision p = do check_self p; parse_info p (codes "Rev")

  unfoldable pub get_channel_id : FsPath → M ℤ
  unfolding int_info
  get_channel_id p = int_info p (codes "Channel ID")

  unfoldable pub get_target_id : FsPath → M ℤ
  unfolding int_info
  get_target_id p = int_info p (codes "Target ID")

  unfoldable pub get_lun : FsPath → M ℤ
  unfolding int_info
  get_lun p = int_info p (codes "LUN")

  unfoldable pub get_host_id : FsPath → M ℤ
  unfolding int_info
  get_host_id p = int_info p (codes "Host ID")

  unfoldable pub get_page_size : FsPath → M ℤ
  unfolding parse_info page_size_part int_found
  get_page_size p = do
    check_self p
    found ← parse_info p (codes "PAGES/PAGE_SIZE")
    s ← lift (page_size_part found)
    lift (int_found (some s))

  unfoldable pub get_pages : FsPath → M ℤ
  unfolding parse_info pages_part int_found
  get_pages p = do
    check_self p
    found ← parse_info p (codes "PAGES/PAGE_SIZE")
    s ← lift (pages_part found)
    lift (int_found (some s))

  -- `RDMCPStorageObject._get_size`
  unfoldable pub ramdisk_size : FsPath → M ℤ
  unfolding get_page_size get_pages
  ramdisk_size p = do
    check_self p
    page_size ← get_page_size p
    pages ← get_pages p
    pure (page_size *ℤ pages)

  -- `_get_nullio` and `_get_readonly`: the AttributeError that they handle is not what a state without
  -- the key raises.
  unfoldable pub get_flag_info : FsPath → Text → M Bool
  unfolding parse_info int_flag
  get_flag_info p key = do
    check_self p
    found ← parse_info p key
    elim found [ none ↦ raise type_error | some s ↦ lift (int_flag s) ]

  unfoldable pub get_nullio : FsPath → M Bool
  unfolding get_flag_info
  get_nullio p = get_flag_info p (codes "nullio")

  unfoldable pub get_readonly : FsPath → M Bool
  unfolding get_flag_info
  get_readonly p = get_flag_info p (codes "readonly")

  -- `_get_wb_enabled`
  unfoldable pub get_wb_enabled : FsPath → M Bool
  unfolding int_flag
  get_wb_enabled p = do
    check_self p
    s ← Node.get_attribute p (codes "emulate_write_cache")
    lift (int_flag s)
