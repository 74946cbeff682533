-- ===== src/Tcm/Backstore/Allocation.antt =====
-- How `_Backstore` of rtslib/tcm.py picks an index, and what stays true of `bs_cache`.
use rtslib_fb.Prelude.{
  ℕ, ◌<◌, ◌≡◌, sym, ap, subst, ◌∙◌, true, false, inl, inr, Option-cases, none, some, is_empty, Text,
  Result, ok, err, rtslib_error, not_in_cfs, elem, length, arith,
}
use rtslib_fb.Prelude.Free.{first_free, first_free_sound, first_free_total}
use rtslib_fb.Cfs.{Kernel, World, ◌>>=◌, ◌>>◌, when, get_world}
use rtslib_fb.Cfs.Laws.{bind_ok, bind_err}
use rtslib_fb.Node.{Mode, lookup, create}
use rtslib_fb.Tcm.Cache.{get, put, indexes, IsInjective, has_key_of_none, put-IsInjective, get-put}
use rtslib_fb.Tcm.Backstore.{
  Plugin, lookup_key, max_backstores, take_index, allocate_index, known_index, choose_index,
  new_or_known, fill_cache, init_with, init,
}

module _ ⦃k : Kernel⦄ where
  -- What holds of a new index and of the world behind it.
  abbrev IsFresh : Plugin → Text → World → ℕ → World → Type 0
  IsFresh c name w i w' =
      (i < max_backstores)
      × (elem i (indexes w.bs_cache) ≡ false)
      × ((m : ℕ) → m < i → elem m (indexes w.bs_cache) ≡ true)
      × (get (lookup_key c name) w'.bs_cache ≡ some i)
      × IsInjective w'.bs_cache

  take_index-IsFresh :
      (c : Plugin) (name : Text) (w : World) (j i : ℕ) (w' : World)
      → IsInjective w.bs_cache
      → get (lookup_key c name) w.bs_cache ≡ none
      → first_free max_backstores 0 (indexes w.bs_cache) ≡ some j
      → take_index c name (some j) w ≡ (ok i, w')
      → IsFresh c name w i w'
  unfolding take_index
  take_index-IsFresh c name w j i w' inj new found h =
      let free = first_free_sound max_backstores 0 (indexes w.bs_cache) {j = j} found in
      let absent = has_key_of_none (lookup_key c name) w.bs_cache new in
      let here : IsFresh c name w j (record w { bs_cache = put (lookup_key c name) j w.bs_cache }) =
        (
          omega (arith, free.2),
          free.0,
          λ m small. free.3 m (omega arith) small,
          get-put (lookup_key c name) j w.bs_cache,
          put-IsInjective (lookup_key c name) j w.bs_cache inj absent free.0,
        ) in
      let number : j ≡ i = ground arith in
      let world : ◌≡◌ {A = World} (record w { bs_cache = put (lookup_key c name) j w.bs_cache })
          w' =
        ground arith in
      subst (IsFresh c name w i) world (
        subst
          (λ n. IsFresh c name w n (record w { bs_cache = put (lookup_key c name) j w.bs_cache }))
          number here)

  -- For a backstore that an injective cache does not hold: the index that is allocated is below
  -- 1048576, no backstore has it, all smaller ones are taken; the cache then maps the backstore
  -- to it and stays injective.
  pub allocate_index_fresh :
      (c : Plugin) (name : Text) (w : World) (i : ℕ) (w' : World)
      → IsInjective w.bs_cache
      → get (lookup_key c name) w.bs_cache ≡ none
      → allocate_index c name w ≡ (ok i, w')
      → (i < max_backstores)
        × (elem i (indexes w.bs_cache) ≡ false)
        × ((m : ℕ) → m < i → elem m (indexes w.bs_cache) ≡ true)
        × (get (lookup_key c name) w'.bs_cache ≡ some i)
        × IsInjective w'.bs_cache
  unfolding allocate_index take_index
  allocate_index_fresh c name w i w' inj new h =
      elim (Option-cases (first_free max_backstores 0 (indexes w.bs_cache))) [
        | inl full ↦
            let e : ◌≡◌ {A = Result ℕ × World} (take_index c name none w) (ok i, w') =
              sym (ap (λ o. take_index c name o w) full) ∙ h in
            absurd (ground arith)
        | inr (j, found) ↦
            take_index-IsFresh c name w j i w' inj new found
              (sym (ap (λ o. take_index c name o w) found) ∙ h)
      ]

  -- While the cache holds fewer than 1048576 backstores, the allocation returns an index.
  pub allocate_index_total :
      (c : Plugin) (name : Text) (w : World)
      → length (indexes w.bs_cache) < max_backstores
      → (i : ℕ) × (w' : World) × (allocate_index c name w ≡ (ok i, w'))
  unfolding allocate_index take_index
  allocate_index_total c name w short =
      let found = first_free_total max_backstores 0 (indexes w.bs_cache) short in
      (
        found.0,
        record w { bs_cache = put (lookup_key c name) found.0 w.bs_cache },
        ap (λ o. take_index c name o w) found.1,
      )

  pub known_index_filled :
      (c : Plugin) (name : Text) (m : Mode) (w : World)
      → is_empty w.bs_cache ≡ false
      → known_index c name m none w ≡ new_or_known m (get (lookup_key c name) w.bs_cache) w
  unfolding known_index
  known_index_filled c name m w full =
      ap
        (λ b.
          (when b fill_cache
              >> (get_world >>= λ w'. new_or_known m (get (lookup_key c name) w'.bs_cache)))
            w)
        full

  -- `lookup` without an index, of a name that a cache which is not empty does not hold, raises
  -- and changes nothing.
  pub init_lookup_unknown :
      (c : Plugin) (name : Text) (w : World)
      → is_empty w.bs_cache ≡ false
      → get (lookup_key c name) w.bs_cache ≡ none
      → init name c lookup none w ≡ (err not_in_cfs, w)
  unfolding init init_with choose_index new_or_known
  init_lookup_unknown c name w full new =
      bind_ok (known_index c name lookup none) (init_with name c lookup) w
        (known_index_filled c name lookup w full ∙ ap (λ o. new_or_known lookup o w) new)

  -- `create` without an index, of a name that a cache which is not empty holds, raises and
  -- changes nothing.
  pub init_create_known :
      (c : Plugin) (name : Text) (w : World) (i : ℕ)
      → is_empty w.bs_cache ≡ false
      → get (lookup_key c name) w.bs_cache ≡ some i
      → init name c create none w ≡ (err (rtslib_error "Storage object exists"), w)
  unfolding init init_with choose_index new_or_known
  init_create_known c name w i full old =
      bind_err (known_index c name create none) (init_with name c create) w
        (known_index_filled c name create w full ∙ ap (λ o. new_or_known create o w) old)
