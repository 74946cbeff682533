-- ===== src/Tcm/Backstore/Unchanged.antt =====
-- That the lookup of a backstore by its index (rtslib/tcm.py) changes nothing where it returns.
use rtslib_fb.Prelude.{ℕ, some, Text, Exn}
use rtslib_fb.Cfs.{Kernel, M, pure, raise, ◌>>◌, try_except, any_exn}
use rtslib_fb.Cfs.Stays.{Stays, pure-Stays, bind-Stays, undo-Raises, try-Stays}
use rtslib_fb.Node.{lookup, create_in_cfs_ine}
use rtslib_fb.Node.Create.{create-lookup_lem}
use rtslib_fb.Tcm.Backstore.{
  Plugin, Backstore, lookup_key, backstore_path, init, init_with, init_at, known_index,
  choose_index, forget,
}

module _ ⦃k : Kernel⦄ (name : Text) (c : Plugin) (i : ℕ) where
  abbrev found : Backstore
  found = record { cls = c; index = i; key = lookup_key c name; path = backstore_path c i }

  undo : Exn → M (Unit {0})
  undo e = do forget (lookup_key c name); raise e

  pub init-Stays : Stays (init name c lookup (some i))
  unfolding init init_with init_at known_index choose_index undo
  init-Stays =
      bind-Stays (try_except (create_in_cfs_ine (backstore_path c i) lookup) any_exn undo)
        (λ u. pure found)
        (try-Stays (create_in_cfs_ine (backstore_path c i) lookup) any_exn undo
          (λ u w w' h. create-lookup_lem (backstore_path c i) w w' h)
          (λ e. undo-Raises (forget (lookup_key c name)) e))
        (λ u. pure-Stays found)
