-- ===== src/Target/Create/Linked.antt =====
-- That to read the storage object of a LUN (rtslib/target.py) changes nothing where it returns.
use rtslib_fb.Prelude.{[], ◌∷◌, Option, none, some, Text, index_error, arith}
use rtslib_fb.Cfs.{FsPath, Kernel, M, raise, link_target, is_dir, listdir}
use rtslib_fb.Cfs.Stays.{Stays, raise-Stays, bind-Stays}
use rtslib_fb.Node.{check_self, exists}
use rtslib_fb.Tcm.Lookup.{StorageObject, so_from_path}
use rtslib_fb.Tcm.Lookup.Unchanged.{so_from_path-Stays}
use rtslib_fb.Target.Objects.{Lun}
use rtslib_fb.Target.Children.{get_alias}
use rtslib_fb.Target.Create.{get_storage_object}

module _ ⦃k : Kernel⦄ where
  get_alias-Stays : (p : FsPath) → Stays (get_alias p)
  unfolding get_alias check_self exists is_dir listdir
  get_alias-Stays p a w w' h = ground arith

  pub get_storage_object-Stays : (l : Lun) → Stays (get_storage_object l)
  unfolding get_storage_object
  get_storage_object-Stays l so w w' h =
      bind-Stays (get_alias l.path) linked (get_alias-Stays l.path) linked-Stays so w w' h
    where
      from_target : FsPath → M StorageObject
      from_target (name ∷ hba ∷ rest) = so_from_path hba name
      from_target q = raise index_error

      at : Option FsPath → M StorageObject
      at o = elim o [ none ↦ raise index_error | some q ↦ from_target q ]

      linked : Text → M StorageObject
      linked alias w = at (link_target (alias ∷ l.path) w.fs) w

      from_target-Stays : (q : FsPath) → Stays (from_target q)
      from_target-Stays (name ∷ hba ∷ rest) = so_from_path-Stays hba name
      from_target-Stays (name ∷ []) = raise-Stays index_error
      from_target-Stays [] = raise-Stays index_error

      at-Stays : (o : Option FsPath) → Stays (at o)
      at-Stays none = raise-Stays index_error
      at-Stays (some q) = from_target-Stays q

      linked-Stays : (alias : Text) → Stays (linked alias)
      linked-Stays alias so w w' h = at-Stays (link_target (alias ∷ l.path) w.fs) so w w' h
