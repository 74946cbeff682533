-- ===== src/Tcm/Backstore/Liveness.antt =====
-- That a full `bs_cache` (rtslib/tcm.py) takes a new backstore once another has been deleted.
use rtslib_fb.Prelude.{ℕ, ◌≤◌, ◌<◌, ◌≡◌, sym, subst, some, [], ◌∷◌, Text, ok, length, arith}
use rtslib_fb.Cfs.{Kernel, World}
use rtslib_fb.Tcm.Cache.{Cache, get, remove, indexes}
use rtslib_fb.Tcm.Backstore.{Plugin, Backstore, max_backstores, allocate_index, delete}
use rtslib_fb.Tcm.Backstore.Deletion.{delete-Left}
use rtslib_fb.Tcm.Backstore.Allocation.{allocate_index_total}

length-indexes-remove :
    (key : Text) (n : ℕ) (c : Cache)
    → get key c ≡ some n
    → length (indexes (remove key c)) < length (indexes c)
unfolding get remove indexes
length-indexes-remove key n [] h = cc
length-indexes-remove key n ((j, m) ∷ c) h = ground (arith, length-indexes-remove key n c)

module _ ⦃k : Kernel⦄ where
  -- Where the cache holds a backstore and is at most full, the deletion of the backstore that
  -- returns makes the next allocation return an index, whatever is allocated.
  pub delete-allocate_index :
      (b : Backstore) (c : Plugin) (name : Text) (n : ℕ) (w w' : World)
      → get b.key w.bs_cache ≡ some n
      → length (indexes w.bs_cache) ≤ max_backstores
      → delete b w ≡ (ok tt, w')
      → (i : ℕ) × (w'' : World) × (allocate_index c name w' ≡ (ok i, w''))
  delete-allocate_index b c name n w w' known full h =
      let short = length-indexes-remove b.key n w.bs_cache known in
      let now = sym (delete-Left b (ok tt) w w' h) in
      allocate_index_total c name w'
        (subst (λ d. length (indexes d) < max_backstores) now (omega arith))
