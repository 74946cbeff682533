-- ===== src/Tcm/Backstore/Refines.antt =====
-- `bs_cache` of rtslib/tcm.py as its callers see it: a registry that gives each name a number of its
-- own. Any sequence of constructors and deletions, whatever each of them returns, is one of the
-- registry.
use rtslib_fb.Prelude.{
  ℕ, ◌<◌, ◌≡◌, ◌≢◌, ◌⊎◌, refl, sym, ap, subst, ◌∙◌, true, false, inl, inr, Option, none, some,
  is_empty, elem, List, [], ◌∷◌, Text, Exn, Result, ok, err, arith,
}
use rtslib_fb.Prelude.Free.{first_free_sound}
use rtslib_fb.Cfs.{Kernel, World}
use rtslib_fb.Node.{Mode}
use rtslib_fb.Tcm.Cache.{
  Cache, get, put, remove, indexes, IsInjective, update, remove-IsInjective, get-put-eq-update,
  get-remove-eq-update, elem-indexes-get, key_of_index,
}
use rtslib_fb.Tcm.Backstore.{Plugin, Backstore, lookup_key, max_backstores, init, delete}
use rtslib_fb.Tcm.Backstore.Outcome.{IsLeast, Outcome, init-Outcome}
use rtslib_fb.Tcm.Backstore.Injective.{put_least-IsInjective, Outcome-IsInjective}
use rtslib_fb.Tcm.Backstore.Deletion.{Left, delete-Left}

-- A registry: from a name to its number, if it has one.
abbrev pub Registry : Type 0
Registry = Text → Option ℕ

abbrev pub Same : Registry → Registry → Type 0
Same f g = (i : Text) → g i ≡ f i

-- The name gets the least number that no name has.
abbrev pub Added : Text → ℕ → Registry → Registry → Type 0
Added key n f g =
    (f key ≡ none)
    × ((i : Text) → f i ≢ some n)
    × ((m : ℕ) → m < n → (i : Text) × (f i ≡ some m))
    × ((i : Text) → g i ≡ update f key (some n) i)

abbrev pub Dropped : Text → Registry → Registry → Type 0
Dropped key f g = (i : Text) → g i ≡ update f key none i

-- One call of the registry: it finds a name, adds one, drops one or does nothing.
pub data Call (f g : Registry) : List (Text × ℕ) → Type 0 where
  found : {key : Text} {n : ℕ} → f key ≡ some n → Same f g → Call f g ((key, n) ∷ [])
  added : {key : Text} {n : ℕ} → Added key n f g → Call f g ((key, n) ∷ [])
  dropped : (key : Text) → Dropped key f g → Call f g []
  idle : Same f g → Call f g []

-- A sequence of calls, with the names and numbers that they answer.
pub data Calls : Registry → List (List (Text × ℕ)) → Registry → Type 0 where
  done : {f : Registry} → Calls f [] f
  next :
      {f g h : Registry} {out : List (Text × ℕ)} {outs : List (List (Text × ℕ))}
      → Call f g out
      → Calls g outs h
      → Calls f (out ∷ outs) h

abbrev pub view : World → Registry
view w i = get i w.bs_cache

-- What a constructor answers.
abbrev pub answer : Result Backstore → List (Text × ℕ)
answer (ok b) = (b.key, b.index) ∷ []
answer (err e) = []

-- A sequence of constructors without a given index, on a cache that is not empty, and of deletions.
pub data Run ⦃k : Kernel⦄ : World → List (List (Text × ℕ)) → World → Type 0 where
  done : {w : World} → Run w [] w
  build :
      {w w1 w2 : World} {outs : List (List (Text × ℕ))} (name : Text) (c : Plugin) (m : Mode)
      (r : Result Backstore)
      → is_empty w.bs_cache ≡ false
      → init name c m none w ≡ (r, w1)
      → Run w1 outs w2
      → Run w (answer r ∷ outs) w2
  destroy :
      {w w1 w2 : World} {outs : List (List (Text × ℕ))} (b : Backstore) (r : Result (Unit {0}))
      → delete b w ≡ (r, w1)
      → Run w1 outs w2
      → Run w ([] ∷ outs) w2

put_least-Added :
    (key : Text) (n : ℕ) (c : Cache)
    → IsInjective c
    → get key c ≡ none
    → IsLeast c n
    → Added key n (λ i. get i c) (λ i. get i (put key n c))
put_least-Added key n c inj new least =
    let free = first_free_sound max_backstores 0 (indexes c) least in
    (
      new,
      λ i e. absurd (ground (arith, elem-indexes-get i n c, free.0)),
      λ m small. key_of_index m c inj (free.3 m (omega arith) small),
      λ i. get-put-eq-update i key n c,
    )

-- A new name that is dropped again leaves the registry as it was.
put-remove-Same :
    (key : Text) (n : ℕ) (c : Cache)
    → IsInjective (put key n c)
    → get key c ≡ none
    → Same (λ i. get i c) (λ i. get i (remove key (put key n c)))
put-remove-Same key n c inj new i =
    let gone = get-remove-eq-update i key (put key n c) inj in
    let there = get-put-eq-update i key n c in
    ground (arith, gone, there, rtslib_fb.Prelude.text_eq_iff i key, new)

Outcome-Call :
    (key : Text) (c c' : Cache) (r : Result Backstore)
    → IsInjective c
    → Outcome key c r c'
    → Call (λ i. get i c) (λ i. get i c') (answer r)
Outcome-Call key c c' (ok b) inj o = elim (o.1) [
  | inl old ↦ found (ap (λ j. get j c) o.0 ∙ old.0) (λ i. ap (get i) old.1)
  | inr new ↦
      subst (λ d. Call (λ i. get i c) (λ i. get i d) ((b.key, b.index) ∷ [])) (sym new.2)
        (subst (λ j. Call (λ i. get i c) (λ i. get i (put key b.index c)) ((j, b.index) ∷ []))
          (sym o.0) (added (put_least-Added key b.index c inj new.0 new.1)))
]
Outcome-Call key c c' (err e) inj o = elim o [
  | inl same ↦ idle (λ i. ap (get i) same)
  | inr other ↦ elim other [
    | inl gone ↦ dropped key (λ i. ap (get i) gone ∙ get-remove-eq-update i key c inj)
    | inr (n, new, least, back) ↦ idle (λ i.
        ap (get i) back
        ∙ put-remove-Same key n c (put_least-IsInjective key n c inj new least) new i)
  ]
]

Left-Call :
    (key : Text) (c c' : Cache) (r : Result (Unit {0}))
    → IsInjective c
    → Left key c r c'
    → Call (λ i. get i c) (λ i. get i c') [] × IsInjective c'
Left-Call key c c' (ok u) inj gone = (
  dropped key (λ i. ap (get i) gone ∙ get-remove-eq-update i key c inj),
  subst IsInjective (sym gone) (remove-IsInjective key c inj),
)
Left-Call key c c' (err e) inj same =
    (idle (λ i. ap (get i) same), subst IsInjective (sym same) inj)

module _ ⦃k : Kernel⦄ where
  -- Any sequence of constructors without a given index and of deletions, from an injective cache and
  -- with a cache that is not empty at each constructor, refines one of the registry, whether each call
  -- returns or raises: a constructor that returns answers the number that the name has, or gives a new
  -- name the least number that no name has; one that raises, and a deletion, drops one name or
  -- changes nothing. The answers are the same, the cache reads as the registry at the end, and it is
  -- injective.
  pub Run-refines :
      {outs : List (List (Text × ℕ))} (w w' : World)
      → IsInjective w.bs_cache
      → Run w outs w'
      → Calls (view w) outs (view w') × IsInjective w'.bs_cache
  Run-refines w w' inj done = (Calls.done, inj)
  Run-refines w w' inj (build {w1} name c m r full h rest) =
      let o = init-Outcome name c m r w w1 full h in
      let inj1 = Outcome-IsInjective (lookup_key c name) w.bs_cache w1.bs_cache r inj o in
      let later = Run-refines w1 w' inj1 rest in
      (next (Outcome-Call (lookup_key c name) w.bs_cache w1.bs_cache r inj o) later.0, later.1)
  Run-refines w w' inj (destroy {w1} b r h rest) =
      let here = Left-Call b.key w.bs_cache w1.bs_cache r inj (delete-Left b r w w1 h) in
      let later = Run-refines w1 w' here.1 rest in (next here.0 later.0, later.1)
