-- ===== src/Tcm/Lookup/Unchanged.antt =====
-- That the lookup of a storage object (rtslib/tcm.py) changes nothing where it returns.
use rtslib_fb.Prelude.{
  ◌≡◌, ℕ, true, Option, none, some, ◌∷◌, Text, Exn, ok, value_error, key_error, rtslib_error,
  is_rtslib, rsplit_once, int_of, arith,
}
use rtslib_fb.Cfs.{
  FsPath, Kernel, World, M, pure, raise, ◌>>=◌, ◌>>◌, raise_if, try_except, any_exn, is_dir,
  is_file, fread,
}
use rtslib_fb.Cfs.Stays.{
  Stays, raise-Stays, pure-Stays, bind-Stays, undo-Raises, try-Stays, raise_if-Stays,
}
use rtslib_fb.Node
use rtslib_fb.Node.{lookup, check_self, exists, create_in_cfs_ine}
use rtslib_fb.Node.Create.{check_self_lem, create-lookup_lem}
use rtslib_fb.Tcm.Backstore
use rtslib_fb.Tcm.Backstore.{Backstore, Plugin, pscsi, ramdisk, fileio, block, user, so_mapping}
use rtslib_fb.Tcm.Backstore.Unchanged.{init-Stays}
use rtslib_fb.Tcm.Lookup.{
  StorageObject, has_bad_char, so_init, so_from_path, alua_supported, alua_support_attr,
}

module _ ⦃k : Kernel⦄ where
  pub check_self-Stays : (p : FsPath) → Stays (check_self p)
  check_self-Stays p u w w' h = check_self_lem p w w' h

  lookup-Stays : (p : FsPath) → Stays (create_in_cfs_ine p lookup)
  lookup-Stays p u w w' h = create-lookup_lem p w w' h

  abbrev object_of : Text → Backstore → StorageObject
  object_of name b = record { name = name; backstore = b; path = name ∷ b.path }

  in_configfs : Text → Backstore → M StorageObject
  in_configfs name b = do
    try_except (create_in_cfs_ine (name ∷ b.path) lookup) any_exn
        (λ e. do Backstore.delete b; raise e)
    pure (object_of name b)

  so_init-Stays : (name : Text) (c : Plugin) (i : ℕ) → Stays (so_init name c lookup (some i))
  unfolding so_init in_configfs
  so_init-Stays name c i =
      bind-Stays (raise_if (has_bad_char name) bad_name)
        (λ u.
          Backstore.init name c lookup (some i) >>= λ b. check_self b.path >> in_configfs name b)
        (raise_if-Stays (has_bad_char name) bad_name)
        (λ u.
          bind-Stays (Backstore.init name c lookup (some i))
            (λ b. check_self b.path >> in_configfs name b) (init-Stays name c i)
            (λ b.
              bind-Stays (check_self b.path) (λ u. in_configfs name b) (check_self-Stays b.path)
                (λ u. in_configfs-Stays b)))
    where
      bad_name : Exn
      bad_name = rtslib_error "A storage object's name cannot contain  /, newline or spaces/tabs"

      in_configfs-Stays : (b : Backstore) → Stays (in_configfs name b)
      in_configfs-Stays b =
          bind-Stays
            (try_except (create_in_cfs_ine (name ∷ b.path) lookup) any_exn
              (λ e. Backstore.delete b >> raise e))
            (λ u. pure (object_of name b))
            (try-Stays (create_in_cfs_ine (name ∷ b.path) lookup) any_exn
              (λ e. Backstore.delete b >> raise e) (lookup-Stays (name ∷ b.path))
              (λ e. undo-Raises (Backstore.delete b) e))
            (λ u. pure-Stays (object_of name b))

  pub so_from_path-Stays : (hba name : Text) → Stays (so_from_path hba name)
  unfolding so_from_path
  so_from_path-Stays hba name = from_parts (rsplit_once b'_' hba)
    where
      at : Plugin → Option ℕ → M StorageObject
      at c o = elim o [ none ↦ raise value_error | some i ↦ so_init name c lookup (some i) ]

      of_class : Option Plugin → Text → M StorageObject
      of_class o index = elim o [ none ↦ raise key_error | some c ↦ at c (int_of index) ]

      at-Stays : (c : Plugin) (o : Option ℕ) → Stays (at c o)
      at-Stays c none = raise-Stays value_error
      at-Stays c (some i) = so_init-Stays name c i

      of_class-Stays : (o : Option Plugin) (index : Text) → Stays (of_class o index)
      of_class-Stays none index = raise-Stays key_error
      of_class-Stays (some c) index = at-Stays c (int_of index)

      from_parts :
          (o : Option (Text × Text))
          → Stays {A = StorageObject} (elim o [
            | none ↦ raise value_error
            | some (so_type, so_index) ↦ of_class (so_mapping so_type) so_index
          ])
      from_parts none = raise-Stays value_error
      from_parts (some (so_type, so_index)) = of_class-Stays (so_mapping so_type) so_index

  -- Where the lookup of a storage object by the names of its HBA directory and of itself returns, it
  -- has changed nothing: neither configFS nor `bs_cache`, nor what else the world holds.
  pub so_from_path_unchanged :
      (hba name : Text) (so : StorageObject) (w w' : World)
      → so_from_path hba name w ≡ (ok so, w')
      → w' ≡ w
  so_from_path_unchanged hba name so w w' h = so_from_path-Stays hba name so w w' h

  alua_support_attr-Stays : (p : FsPath) → Stays (alua_support_attr p)
  unfolding alua_support_attr Node.get_attribute check_self exists is_dir is_file fread is_rtslib
  alua_support_attr-Stays p b w w' h = ground arith

  passed_through : (p : FsPath) → Stays (check_self p >> alua_support_attr p)
  passed_through p =
      bind-Stays (check_self p) (λ u. alua_support_attr p) (check_self-Stays p)
        (λ u. alua_support_attr-Stays p)

  checked : (p : FsPath) → Stays (check_self p >> pure true)
  checked p = bind-Stays (check_self p) (λ u. pure true) (check_self-Stays p) (λ u. pure-Stays true)

  pub alua_supported-Stays : (c : Plugin) (p : FsPath) → Stays (alua_supported c p)
  unfolding alua_supported
  alua_supported-Stays pscsi p = passed_through p
  alua_supported-Stays user p = passed_through p
  alua_supported-Stays ramdisk p = checked p
  alua_supported-Stays fileio p = checked p
  alua_supported-Stays block p = checked p
