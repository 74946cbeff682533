-- ===== src/Tcm/Backstore/Injective.antt =====
-- That every run of the constructor of `_Backstore` (rtslib/tcm.py) keeps `bs_cache` injective.
use rtslib_fb.Prelude.{ℕ, ◌≡◌, sym, subst, false, inl, inr, none, is_empty, Text, Result, ok, err}
use rtslib_fb.Prelude.Free.{first_free_sound}
use rtslib_fb.Cfs.{Kernel, World}
use rtslib_fb.Node.{Mode}
use rtslib_fb.Tcm.Cache.{
  Cache, get, put, indexes, IsInjective, has_key_of_none, put-IsInjective, remove-IsInjective,
}
use rtslib_fb.Tcm.Backstore.{Plugin, Backstore, lookup_key, max_backstores, init}
use rtslib_fb.Tcm.Backstore.Outcome.{IsLeast, Outcome, init-Outcome}

-- A new key with the least free index.
pub put_least-IsInjective :
    (key : Text) (i : ℕ) (c : Cache)
    → IsInjective c
    → get key c ≡ none
    → IsLeast c i
    → IsInjective (put key i c)
put_least-IsInjective key i c inj new least =
    put-IsInjective key i c inj (has_key_of_none key c new)
      (first_free_sound max_backstores 0 (indexes c) least).0

pub Outcome-IsInjective :
    (key : Text) (c c' : Cache) (r : Result Backstore)
    → IsInjective c
    → Outcome key c r c'
    → IsInjective c'
Outcome-IsInjective key c c' (ok b) inj o = elim (o.1) [
  | inl old ↦ subst IsInjective (sym old.1) inj
  | inr new ↦ subst IsInjective (sym new.2) (put_least-IsInjective key b.index c inj new.0 new.1)
]
Outcome-IsInjective key c c' (err e) inj o = elim o [
  | inl same ↦ subst IsInjective (sym same) inj
  | inr other ↦ elim other [
    | inl gone ↦ subst IsInjective (sym gone) (remove-IsInjective key c inj)
    | inr (i, new, least, back) ↦
        subst IsInjective (sym back)
          (remove-IsInjective key (put key i c) (put_least-IsInjective key i c inj new least))
  ]
]

module _ ⦃k : Kernel⦄ where
  -- Every run of the constructor without a given index, in each mode and whether it returns or
  -- raises, keeps a cache that is not empty injective: no two backstores share a key or an
  -- index.
  pub init-IsInjective :
      (name : Text) (c : Plugin) (m : Mode) (r : Result Backstore) (w w' : World)
      → IsInjective w.bs_cache
      → is_empty w.bs_cache ≡ false
      → init name c m none w ≡ (r, w')
      → IsInjective w'.bs_cache
  init-IsInjective name c m r w w' inj full h =
      Outcome-IsInjective (lookup_key c name) w.bs_cache w'.bs_cache r inj
        (init-Outcome name c m r w w' full h)
