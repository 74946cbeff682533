-- ===== src/Tcm/Cache.antt =====
-- The dictionary `bs_cache` of rtslib/tcm.py: from a backstore's directory prefix and its storage
-- object's name to its index.
use rtslib_fb.Prelude.{
  ℕ, ◌≡◌, refl, ◌≢◌, Bool, true, false, Option, none, some, List, [], ◌∷◌, Text, text_eq,
  text_eq_iff, elem, if◌then◌else◌, arith, Bool-cases, inl, inr, ◌==◌,
}

abbrev pub Cache : Type 0
Cache = List (Text × ℕ)

-- `bs_cache.get(key, None)`
unfoldable pub get : Text → Cache → Option ℕ
get key [] = none
get key ((j, n) ∷ c) = if text_eq key j then some n else get key c

-- `bs_cache[key] = n`
unfoldable pub put : Text → ℕ → Cache → Cache
put key n [] = (key, n) ∷ []
put key n ((j, m) ∷ c) = if text_eq key j then (j, n) ∷ c else (j, m) ∷ put key n c

-- `if key in bs_cache: del bs_cache[key]`
unfoldable pub remove : Text → Cache → Cache
remove key [] = []
remove key ((j, m) ∷ c) = if text_eq key j then c else (j, m) ∷ remove key c

-- `bs_cache.values()`
unfoldable pub indexes : Cache → List ℕ
indexes [] = []
indexes ((j, n) ∷ c) = n ∷ indexes c

unfoldable pub has_key : Text → Cache → Bool
has_key key [] = false
has_key key ((j, n) ∷ c) = if text_eq key j then true else has_key key c

-- No key and no index stands in two entries.
abbrev pub IsInjective : Cache → Type 0
IsInjective [] = Unit
IsInjective ((j, n) ∷ c) = (has_key j c ≡ false) × (elem n (indexes c) ≡ false) × IsInjective c

pub has_key_of_none : (key : Text) (c : Cache) → get key c ≡ none → has_key key c ≡ false
unfolding get has_key
has_key_of_none key [] h = refl
has_key_of_none key ((j, n) ∷ c) h = ground (arith, has_key_of_none key c)

has_key-put_ne :
    (i key : Text) (n : ℕ) (c : Cache)
    → i ≢ key
    → has_key i c ≡ false
    → has_key i (put key n c) ≡ false
unfolding put has_key
has_key-put_ne i key n [] ne h = ground (arith, text_eq_iff i key)
has_key-put_ne i key n ((j, m) ∷ c) ne h =
    ground (arith, has_key-put_ne i key n c, text_eq_iff i key, text_eq_iff key j, text_eq_iff i j)

elem-indexes-put :
    (i n : ℕ) (key : Text) (c : Cache)
    → i ≢ n
    → elem i (indexes c) ≡ false
    → elem i (indexes (put key n c)) ≡ false
unfolding put indexes
elem-indexes-put i n key [] ne h = ground arith
elem-indexes-put i n key ((j, m) ∷ c) ne h = ground (arith, elem-indexes-put i n key c)

-- A new key with an index that no entry has keeps the dictionary injective.
pub put-IsInjective :
    (key : Text) (n : ℕ) (c : Cache)
    → IsInjective c
    → has_key key c ≡ false
    → elem n (indexes c) ≡ false
    → IsInjective (put key n c)
unfolding put has_key indexes
put-IsInjective key n [] inj new free = (refl, refl, tt)
put-IsInjective key n ((j, m) ∷ c) inj new free = ground (
  arith,
  put-IsInjective key n c,
  has_key-put_ne j key n c,
  elem-indexes-put m n key c,
  text_eq_iff key j,
)

has_key-remove : (i key : Text) (c : Cache) → has_key i c ≡ false → has_key i (remove key c) ≡ false
unfolding remove has_key
has_key-remove i key [] h = refl
has_key-remove i key ((j, m) ∷ c) h = ground (arith, has_key-remove i key c)

elem-indexes-remove :
    (n : ℕ) (key : Text) (c : Cache)
    → elem n (indexes c) ≡ false
    → elem n (indexes (remove key c)) ≡ false
unfolding remove indexes
elem-indexes-remove n key [] h = refl
elem-indexes-remove n key ((j, m) ∷ c) h = ground (arith, elem-indexes-remove n key c)

pub remove-IsInjective : (key : Text) (c : Cache) → IsInjective c → IsInjective (remove key c)
unfolding remove
remove-IsInjective key [] inj = tt
remove-IsInjective key ((j, m) ∷ c) inj =
    ground (arith, remove-IsInjective key c, has_key-remove j key c, elem-indexes-remove m key c)

pub get-put : (key : Text) (n : ℕ) (c : Cache) → get key (put key n c) ≡ some n
unfolding get put
get-put key n [] = ground (arith, text_eq_iff key key)
get-put key n ((j, m) ∷ c) = ground (arith, get-put key n c)

pub get-put_ne : (i key : Text) (n : ℕ) (c : Cache) → i ≢ key → get i (put key n c) ≡ get i c
unfolding get put
get-put_ne i key n [] ne = ground (arith, text_eq_iff i key)
get-put_ne i key n ((j, m) ∷ c) ne =
    ground (arith, get-put_ne i key n c, text_eq_iff i key, text_eq_iff key j, text_eq_iff i j)

-- In an injective dictionary a removed key is gone.
get-remove_lem : (key : Text) (c : Cache) → has_key key c ≡ false → get key c ≡ none
unfolding get has_key
get-remove_lem key [] h = refl
get-remove_lem key ((j, m) ∷ c) h = ground (arith, get-remove_lem key c)

pub get-remove : (key : Text) (c : Cache) → IsInjective c → get key (remove key c) ≡ none
unfolding get remove
get-remove key [] inj = refl
get-remove key ((j, m) ∷ c) inj =
    ground (arith, get-remove key c, get-remove_lem key c, text_eq_iff key j)

-- The dictionary as a function, and what a change of one key makes of a function.
abbrev pub update : (Text → Option ℕ) → Text → Option ℕ → Text → Option ℕ
update f key v i = if text_eq i key then v else f i

pub get-put-eq-update :
    (i key : Text) (n : ℕ) (c : Cache) → get i (put key n c) ≡ update (λ j. get j c) key (some n) i
get-put-eq-update i key n c = elim (Bool-cases (text_eq i key)) [
  | inl same ↦ rw (same, (text_eq_iff i key).0 same, get-put key n c)
  | inr other ↦ ground (arith, get-put_ne i key n c, text_eq_iff i key)
]

get-remove_ne : (i key : Text) (c : Cache) → i ≢ key → get i (remove key c) ≡ get i c
unfolding get remove
get-remove_ne i key [] ne = refl
get-remove_ne i key ((j, m) ∷ c) ne =
    ground (arith, get-remove_ne i key c, text_eq_iff key j, text_eq_iff i j)

pub get-remove-eq-update :
    (i key : Text) (c : Cache)
    → IsInjective c
    → get i (remove key c) ≡ update (λ j. get j c) key none i
get-remove-eq-update i key c inj = elim (Bool-cases (text_eq i key)) [
  | inl same ↦ rw (same, (text_eq_iff i key).0 same, get-remove key c inj)
  | inr other ↦ ground (arith, get-remove_ne i key c, text_eq_iff i key)
]

-- The indexes are the values of the function.
pub elem-indexes-get :
    (key : Text) (n : ℕ) (c : Cache) → get key c ≡ some n → elem n (indexes c) ≡ true
unfolding get indexes
elem-indexes-get key n [] h = cc
elem-indexes-get key n ((j, m) ∷ c) h = ground (arith, elem-indexes-get key n c)

pub key_of_index :
    (n : ℕ) (c : Cache)
    → IsInjective c
    → elem n (indexes c) ≡ true
    → (key : Text) × (get key c ≡ some n)
unfolding get indexes
key_of_index n [] inj h = cc
key_of_index n ((j, m) ∷ c) inj h = elim (Bool-cases (n == m)) [
  | inl same ↦ (j, ground (arith, text_eq_iff j j))
  | inr other ↦
      let there : elem n (indexes c) ≡ true = ground arith in
      let found = key_of_index n c inj.2 there in
      (found.0, ground (arith, found.1, get-remove_lem j c, inj.0, text_eq_iff found.0 j))
]
