-- ===== src/Tcm/Tests.antt =====
-- Backstores that are allocated and deleted (rtslib/tcm.py).
use rtslib_fb.Prelude.{
  ℕ, ◌≡◌, refl, ◌<◌, Bool, true, false, Option, none, some, List, [], ◌∷◌, Text, codes, elem,
  length, Result, ok, err, rtslib_error, not_in_cfs, arith, decimal, rsplit_once,
}
use rtslib_fb.Cfs.{FsPath, Fs, Entry, dir, World}
use rtslib_fb.Cfs.Memory.{memory, world}
use rtslib_fb.Node.{Mode, any, lookup, create, core_dir}
use rtslib_fb.Tcm.Cache.{Cache, get, put, remove, indexes, has_key, IsInjective}
use rtslib_fb.Tcm.Backstore.{
  block, fileio, Backstore, backstore_path, max_backstores, allocate_index, init, delete, ramdisk,
  cache_entry, so_mapping,
}
use rtslib_fb.Tcm.Backstore.Allocation.{
  allocate_index_fresh, allocate_index_total, init_lookup_unknown, init_create_known,
}
use rtslib_fb.Tcm.Backstore.Injective.{init-IsInjective}
use rtslib_fb.Tcm.Create.{reservations}
use rtslib_fb.Tcm.Create.Blocks.{Registration, entries, blocks, reservations-blocks}
use rtslib_fb.Tcm.Backstore.Names.{cache_entry-hba_name}
use rtslib_fb.Tcm.Backstore.Deletion.{delete_forgets}
use rtslib_fb.Prelude.{◌≤◌, ◌+◌, ◌*◌, ◌⊎◌}
use rtslib_fb.Tcm.Create.{pages}
use rtslib_fb.Prelude.{◌++◌}
use rtslib_fb.Tcm.Delete.{search_info}
use rtslib_fb.Tcm.InfoSearch.{label, IsValue, stops, search_info_last}
use rtslib_fb.Tcm.Create.Pages.{pages_bounds}
use rtslib_fb.Tcm.Backstore.Liveness.{delete-allocate_index}
use rtslib_fb.Tcm.Backstore.Refines.{Run, Calls, view, Run-refines}

abbrev known : Cache
known = (codes "iblock/disk", 0) ∷ (codes "fileio/image", 2) ∷ []

abbrev before : World
before = record (world ((backstore_path block 0, dir) ∷ (core_dir, dir) ∷ [])) { bs_cache = known }

abbrev allocated : World
allocated = record before {
  bs_cache = (codes "iblock/disk", 0) ∷ (codes "fileio/image", 2) ∷ (codes "fileio/new", 1) ∷ [];
}

known-IsInjective : IsInjective known
unfolding has_key indexes
known-IsInjective = (refl, refl, (refl, refl, tt))

unknown : get (codes "fileio/new") known ≡ none
unfolding get
unknown = refl

was_allocated : allocate_index fileio (codes "new") before ≡ (ok 1, allocated)
unfolding allocate_index rtslib_fb.Prelude.Free.first_free indexes put
was_allocated = refl

allocate_index_fresh_example :
    (1 < max_backstores)
    × (elem 1 (indexes known) ≡ false)
    × ((m : ℕ) → m < 1 → elem m (indexes known) ≡ true)
    × (get (codes "fileio/new") allocated.bs_cache ≡ some 1)
    × IsInjective allocated.bs_cache
allocate_index_fresh_example =
    allocate_index_fresh fileio (codes "new") before 1 allocated known-IsInjective unknown
      was_allocated

few : length (indexes known) < max_backstores
unfolding indexes
few = omega arith

allocate_index_total_example :
    (i : ℕ) × (w' : World) × (allocate_index fileio (codes "new") before ≡ (ok i, w'))
allocate_index_total_example = allocate_index_total fileio (codes "new") before few

init_lookup_unknown_test : init (codes "new") fileio lookup none before ≡ (err not_in_cfs, before)
init_lookup_unknown_test = init_lookup_unknown fileio (codes "new") before refl unknown

old : get (codes "iblock/disk") known ≡ some 0
unfolding get
old = refl

init_create_known_test :
    init (codes "disk") block create none before
    ≡ (err (rtslib_error "Storage object exists"), before)
init_create_known_test = init_create_known block (codes "disk") before 0 refl old

abbrev made : Backstore
made = record { cls = fileio; index = 1; key = codes "fileio/new"; path = backstore_path fileio 1 }

abbrev behind : World
behind = record allocated {
  fs = (backstore_path fileio 1, dir) ∷ (backstore_path block 0, dir) ∷ (core_dir, dir) ∷ [];
}

was_made : init (codes "new") fileio create none before ≡ (ok made, behind)
unfolding init get rtslib_fb.Prelude.Free.first_free indexes rtslib_fb.Node.create_in_cfs_ine
    rtslib_fb.Cfs.mkdir put
was_made = refl

init-IsInjective_test : IsInjective behind.bs_cache
init-IsInjective_test =
    init-IsInjective (codes "new") fileio create (ok made) before behind known-IsInjective refl
      was_made

abbrev disk : Backstore
disk = record { cls = block; index = 0; key = codes "iblock/disk"; path = backstore_path block 0 }

abbrev deleted : World
deleted = record (world ((core_dir, dir) ∷ [])) { bs_cache = (codes "fileio/image", 2) ∷ [] }

was_deleted : delete disk before ≡ (ok tt, deleted)
unfolding delete rtslib_fb.Node.delete rtslib_fb.Prelude.decimal rtslib_fb.Cfs.rmdir remove
was_deleted = refl

delete_forgets_test :
    (get (codes "iblock/disk") deleted.bs_cache ≡ none) × IsInjective deleted.bs_cache
delete_forgets_test = delete_forgets disk before deleted known-IsInjective was_deleted

abbrev registration : Text → Registration
registration n = record {
  number = n;
  fields = codes "initiator_node=iqn.2003-01.org.example:a" ∷ codes "sa_res_key=1" ∷ [];
}

reservations-blocks_example :
    reservations (blocks (registration (codes "0") ∷ registration (codes "1") ∷ []))
    ≡ ok (entries (registration (codes "0") ∷ registration (codes "1") ∷ []))
reservations-blocks_example =
    reservations-blocks (registration (codes "0")) (registration (codes "1") ∷ []) refl

cache_entry-hba_name_example :
    (cache_entry (codes "rd_mcp_12", codes "disk") known ≡ ok (put (codes "rd_mcp/disk") 12 known))
    × (rsplit_once b'_' (codes "rd_mcp_12") ≡ some (codes "rd_mcp", codes "12"))
    × (so_mapping (codes "rd_mcp") ≡ some ramdisk)
unfolding decimal
cache_entry-hba_name_example = cache_entry-hba_name ramdisk 12 (codes "disk") known

few_or_full : length (indexes known) ≤ max_backstores
unfolding indexes
few_or_full = omega arith

delete-allocate_index_example :
    (i : ℕ) × (w'' : World) × (allocate_index fileio (codes "new") deleted ≡ (ok i, w''))
delete-allocate_index_example =
    delete-allocate_index disk fileio (codes "new") 0 before deleted old few_or_full was_deleted

-- A new backstore, and then the end of an old one.
abbrev at_end : World
at_end = record (world ((backstore_path fileio 1, dir) ∷ (core_dir, dir) ∷ [])) {
  bs_cache = (codes "fileio/image", 2) ∷ (codes "fileio/new", 1) ∷ [];
}

was_deleted_later : delete disk behind ≡ (ok tt, at_end)
unfolding delete rtslib_fb.Node.delete rtslib_fb.Prelude.decimal rtslib_fb.Cfs.rmdir remove
was_deleted_later = refl

two_calls : Run before (((codes "fileio/new", 1) ∷ []) ∷ [] ∷ []) at_end
two_calls =
    Run.build (codes "new") fileio create (ok made) refl was_made
      (Run.destroy disk (ok tt) was_deleted_later Run.done)

Run-refines_example :
    Calls (view before) (((codes "fileio/new", 1) ∷ []) ∷ [] ∷ []) (view at_end)
    × IsInjective at_end.bs_cache
Run-refines_example = Run-refines before at_end known-IsInjective two_calls

pages_bounds_example :
    (n : ℕ) × (pages 1000000 4096 ≡ ok n)
    × (1 ≤ n)
    × (2 * 1000000 ≤ 2 * (n * 4096) + 4096)
    × ((n ≡ 1) ⊎ (2 * (n * 4096) ≤ 2 * 1000000 + 4096))
pages_bounds_example = pages_bounds 1000000 4096 (omega arith) (omega arith)

-- A size that is rounded down, and one that is no float.
pages_down : pages 5000 4096 ≡ ok 1
unfolding pages
pages_down = refl

pages_inexact : pages 9007199254759425 4096 ≡ ok 2199023255556
unfolding pages
pages_inexact = refl

abbrev info : Text
info = codes "Status: ACTIVATED Max Queue Depth: 128 SectorSize: 512"

search_info_last_example :
    (u : Text) × (a : Text) × (b : Text) × (search_info (codes "Status") info ≡ some u)
    × (info ≡ a ++ (label (codes "Status") ++ (u ++ b)))
    × (0 ≤ length a)
    × IsValue u
    × (stops b ≡ true)
search_info_last_example =
    search_info_last (codes "Status") info [] (codes "ACTIVATED")
      (codes " Max Queue Depth: 128 SectorSize: 512") refl (refl, refl)
