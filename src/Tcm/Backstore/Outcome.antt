-- ===== src/Tcm/Backstore/Outcome.antt =====
-- What a run of the constructor of `_Backstore` (rtslib/tcm.py) returns and what it makes of
-- `bs_cache`, on every path.
use rtslib_fb.Prelude.{
  ℕ, ◌≡◌, ◌⊎◌, refl, sym, ap, subst, ◌∙◌, false, inl, inr, Option-cases, Option, none, some,
  is_empty, Text, Exn, Result, ok, err,
}
use rtslib_fb.Prelude.Free.{first_free}
use rtslib_fb.Cfs.{FsPath, Kernel, World, M, pure, raise, ◌>>=◌, ◌>>◌, try_except, any_exn}
use rtslib_fb.Cfs.Laws.{bind_cong, bind_ok, bind_err, try_ok, try_err, outcome}
use rtslib_fb.Node.{Mode, any, lookup, create, invalid, create_in_cfs_ine}
use rtslib_fb.Node.Create.{create_in_cfs_ine-bs_cache}
use rtslib_fb.Tcm.Cache.{Cache, get, put, remove, indexes}
use rtslib_fb.Tcm.Backstore.{
  Plugin, Backstore, lookup_key, backstore_path, max_backstores, take_index, allocate_index,
  known_index, choose_index, new_or_known, forget, init_at, init_with, init,
}
use rtslib_fb.Tcm.Backstore.Allocation.{known_index_filled}

-- The index that the allocation takes of a cache.
abbrev pub IsLeast : Cache → ℕ → Type 0
IsLeast c i = first_free max_backstores 0 (indexes c) ≡ some i

-- Behind the choice of the index: the cache stays, or loses the key.
abbrev Bound : Text → ℕ → Cache → Result Backstore → Cache → Type 0
Bound key i c (ok b) c' = (b.key ≡ key) × (b.index ≡ i) × (c' ≡ c)
Bound key i c (err e) c' = c' ≡ remove key c

-- The outcomes of the constructor, by the cache that it finds and the one that it leaves. A backstore
-- that the cache holds gets its index; a new one gets the least free index. Where it raises, the cache
-- is as before, or has lost the key.
abbrev pub Outcome : Text → Cache → Result Backstore → Cache → Type 0
Outcome key c (ok b) c' =
    (b.key ≡ key)
    × (((get key c ≡ some b.index) × (c' ≡ c))
        ⊎ ((get key c ≡ none) × IsLeast c b.index × (c' ≡ put key b.index c)))
Outcome key c (err e) c' =
    (c' ≡ c)
    ⊎ ((c' ≡ remove key c)
        ⊎ ((i : ℕ) × (get key c ≡ none) × IsLeast c i × (c' ≡ remove key (put key i c))))

module _ ⦃k : Kernel⦄ where
  init_at-Bound :
      (name : Text) (c : Plugin) (m : Mode) (i : ℕ) (r : Result Backstore) (w w' : World)
      → init_at name c m i w ≡ (r, w')
      → Bound (lookup_key c name) i w.bs_cache r w'.bs_cache
  unfolding init_at forget
  init_at-Bound name c m i r w w' h = elim (outcome (create_in_cfs_ine p m w)) [
    | inl (a, v, made) ↦
        let e =
          sym (bind_ok guarded finish w (try_ok (create_in_cfs_ine p m) any_exn undo w made)) ∙ h in
        let same = create_in_cfs_ine-bs_cache p m (ok a) w v made in
        subst (λ x. Bound (lookup_key c name) i w.bs_cache x.0 x.1.bs_cache) e (refl, refl, same)
    | inr (x, v, failed) ↦
        let e =
          sym (bind_err guarded finish w (try_err (create_in_cfs_ine p m) any_exn undo w failed))
          ∙ h in
        let same = create_in_cfs_ine-bs_cache p m (err x) w v failed in
        subst (λ x. Bound (lookup_key c name) i w.bs_cache x.0 x.1.bs_cache) e
          (ap (remove (lookup_key c name)) same)
  ]
    where
      p : FsPath
      p = backstore_path c i

      undo : Exn → M (Unit {0})
      undo e = forget (lookup_key c name) >> raise e

      guarded : M (Unit {0})
      guarded = try_except (create_in_cfs_ine p m) any_exn undo

      finish : Unit {0} → M Backstore
      finish x = pure (record { cls = c; index = i; key = lookup_key c name; path = p })

  old-Outcome :
      (name : Text) (c : Plugin) (m : Mode) (i : ℕ) (r : Result Backstore) (w w' : World)
      → get (lookup_key c name) w.bs_cache ≡ some i
      → init_at name c m i w ≡ (r, w')
      → Outcome (lookup_key c name) w.bs_cache r w'.bs_cache
  old-Outcome name c m i (ok b) w w' old h =
      let bound = init_at-Bound name c m i (ok b) w w' h in
      (bound.0, inl (old ∙ ap some (sym bound.1), bound.2))
  old-Outcome name c m i (err e) w w' old h = inr (inl (init_at-Bound name c m i (err e) w w' h))

  -- A new backstore whose index was taken.
  taken-Outcome :
      (name : Text) (c : Plugin) (m : Mode) (i : ℕ) (r : Result Backstore) (w w' : World)
      → get (lookup_key c name) w.bs_cache ≡ none
      → IsLeast w.bs_cache i
      → init_at name c m i (record w { bs_cache = put (lookup_key c name) i w.bs_cache }) ≡ (r, w')
      → Outcome (lookup_key c name) w.bs_cache r w'.bs_cache
  taken-Outcome name c m i (ok b) w w' new least h =
      let bound = init_at-Bound name c m i (ok b) _ w' h in
      (
        bound.0,
        inr (
          new,
          least ∙ ap some (sym bound.1),
          bound.2 ∙ ap (λ n. put (lookup_key c name) n w.bs_cache) (sym bound.1),
        ),
      )
  taken-Outcome name c m i (err e) w w' new least h =
      inr (inr (i, new, least, init_at-Bound name c m i (err e) _ w' h))

  new-Outcome :
      (name : Text) (c : Plugin) (m : Mode) (r : Result Backstore) (w w' : World)
      → get (lookup_key c name) w.bs_cache ≡ none
      → (allocate_index c name >>= init_at name c m) w ≡ (r, w')
      → Outcome (lookup_key c name) w.bs_cache r w'.bs_cache
  unfolding allocate_index take_index
  new-Outcome name c m r w w' new h =
      elim (Option-cases (first_free max_backstores 0 (indexes w.bs_cache))) [
        | inl full ↦
            subst (λ x. Outcome (lookup_key c name) w.bs_cache x.0 x.1.bs_cache)
              (sym (
                  bind_err (allocate_index c name) (init_at name c m) w
                    (ap (λ o. take_index c name o w) full))
                ∙ h)
              (inl refl)
        | inr (i, least) ↦ taken-Outcome name c m i r w w' new least (
            sym (
              bind_ok (allocate_index c name) (init_at name c m) w
                (ap (λ o. take_index c name o w) least))
            ∙ h)
      ]

  known-Outcome :
      (name : Text) (c : Plugin) (m : Mode) (known : Option ℕ) (r : Result Backstore) (w w' : World)
      → get (lookup_key c name) w.bs_cache ≡ known
      → (new_or_known m known >>= init_with name c m) w ≡ (r, w')
      → Outcome (lookup_key c name) w.bs_cache r w'.bs_cache
  unfolding new_or_known init_with choose_index
  known-Outcome name c create (some i) r w w' old h =
      subst (λ x. Outcome (lookup_key c name) w.bs_cache x.0 x.1.bs_cache) h (inl refl)
  known-Outcome name c any (some i) r w w' old h = old-Outcome name c any i r w w' old h
  known-Outcome name c lookup (some i) r w w' old h = old-Outcome name c lookup i r w w' old h
  known-Outcome name c invalid (some i) r w w' old h = old-Outcome name c invalid i r w w' old h
  known-Outcome name c lookup none r w w' new h =
      subst (λ x. Outcome (lookup_key c name) w.bs_cache x.0 x.1.bs_cache) h (inl refl)
  known-Outcome name c create none r w w' new h = new-Outcome name c create r w w' new h
  known-Outcome name c any none r w w' new h = new-Outcome name c any r w w' new h
  known-Outcome name c invalid none r w w' new h = new-Outcome name c invalid r w w' new h

  pub init-Outcome :
      (name : Text) (c : Plugin) (m : Mode) (r : Result Backstore) (w w' : World)
      → is_empty w.bs_cache ≡ false
      → init name c m none w ≡ (r, w')
      → Outcome (lookup_key c name) w.bs_cache r w'.bs_cache
  unfolding init
  init-Outcome name c m r w w' full h =
      known-Outcome name c m (get (lookup_key c name) w.bs_cache) r w w' refl (
        sym (
          bind_cong (known_index c name m none)
            (new_or_known m (get (lookup_key c name) w.bs_cache)) (init_with name c m) w
            (known_index_filled c name m w full))
        ∙ h)
