-- ===== src/Cfs/Monad.antt =====
-- Paths, the file system, the kernel as a parameter, and methods that change it and may raise.
use rtslib_fb.Prelude.{
  ℕ, ◌≡◌, Bool, true, false, ◌&&◌, Option, none, some, List, [], ◌∷◌, ◌++◌, Text, text_eq,
  text_eq_iff, String, ◌↔◌, Exn, Result, ok, err, if◌then◌else◌, arith,
}
use rtslib_fb.Wwn.Generate.{Host}

-- A path, its last component first.
abbrev pub FsPath : Type 0
FsPath = List Text

abbrev pub path_eq : FsPath → FsPath → Bool
path_eq [] [] = true
path_eq [] (d ∷ q) = false
path_eq (c ∷ p) [] = false
path_eq (c ∷ p) (d ∷ q) = text_eq c d && path_eq p q

pub path_eq_iff : (p q : FsPath) → (path_eq p q ≡ true) ↔ (p ≡ q)
path_eq_iff [] [] = ground arith
path_eq_iff [] (d ∷ q) = ground arith
path_eq_iff (c ∷ p) [] = ground arith
path_eq_iff (c ∷ p) (d ∷ q) = ground (arith, text_eq_iff c d, path_eq_iff p q)

abbrev pub parent : FsPath → FsPath
parent [] = []
parent (c ∷ p) = p

pub data Entry : Type 0 where
  dir : Entry
  -- The owner's write and read permission, and the text.
  file : Bool → Bool → Text → Entry
  link : FsPath → Entry

-- In the order in which a directory lists its entries.
abbrev pub Fs : Type 0
Fs = List (FsPath × Entry)

abbrev pub entry : FsPath → Fs → Option Entry
entry p [] = none
entry p ((q, e) ∷ fs) = if path_eq p q then some e else entry p fs

abbrev pub is_dir_in : FsPath → Fs → Bool
is_dir_in p fs = elim (entry p fs) [
  | none ↦ false
  | some e ↦ elim e [ dir ↦ true | file w r s ↦ false | link q ↦ false ]
]

abbrev pub is_file_in : FsPath → Fs → Bool
is_file_in p fs = elim (entry p fs) [
  | none ↦ false
  | some e ↦ elim e [ dir ↦ false | file w r s ↦ true | link q ↦ false ]
]

abbrev pub content : FsPath → Fs → Option Text
content p fs = elim (entry p fs) [
  | none ↦ none
  | some e ↦ elim e [ dir ↦ none | file w r s ↦ (if r then some s else none) | link q ↦ none ]
]

abbrev pub link_target : FsPath → Fs → Option FsPath
link_target p fs = elim (entry p fs) [
  | none ↦ none
  | some e ↦ elim e [ dir ↦ none | file w r s ↦ none | link q ↦ some q ]
]

-- The entries of a directory.
abbrev pub child_of : FsPath → FsPath → List Text
child_of p [] = []
child_of p (c ∷ q) = if path_eq p q then c ∷ [] else []

abbrev pub children : FsPath → Fs → List Text
children p [] = []
children p ((q, e) ∷ fs) = child_of p q ++ children p fs

-- The kernel and the host. `none` is an OSError, and then nothing has changed. Making a directory
-- in configFS also makes the entries that the kernel puts into it, and a write may change others.
pub record Kernel : Type 0 where
  pub mkdir : FsPath → Fs → Option Fs
  pub rmdir : FsPath → Fs → Option Fs
  pub write : FsPath → Text → Fs → Option Fs
  pub symlink : FsPath → FsPath → Fs → Option Fs
  pub unlink : FsPath → Fs → Option Fs
  -- Loading a kernel module; `none` where that fails.
  pub modprobe : Text → Fs → Option Fs
  -- `Path.is_mount`, and a shell command: whether it returned 0, and what it left.
  pub is_mount : FsPath → Fs → Bool
  pub shell : Text → Fs → Bool × Fs
  -- The digits of the n-th UUID that the process draws.
  pub uuid : ℕ → Text
  pub host : Host

-- What the methods read and change: the file system, the dictionary `bs_cache` of rtslib/tcm.py,
-- how many UUIDs were drawn, and the list `errors` of `RTSRoot.restore`.
pub record World : Type 0 where
  pub fs : Fs
  pub bs_cache : List (Text × ℕ)
  pub drawn : ℕ
  pub errors : List String

-- A method: what was changed before a raise stays changed.
abbrev pub M : Type 0 → Type 0
M A = World → Result A × World

module _ {A : Type 0} where
  abbrev pub pure : A → M A
  pure a w = (ok a, w)

  abbrev pub raise : Exn → M A
  raise e w = (err e, w)

  abbrev pub lift : Result A → M A
  lift r w = (r, w)

infixl 5 ◌>>=◌ ◌>>◌
abbrev pub ◌>>=◌ : {A B : Type 0} → M A → (A → M B) → M B
◌>>=◌ m f w = let (r, w') = m w in elim r [ ok a ↦ f a w' | err e ↦ (err e, w') ]

abbrev pub ◌>>◌ : {A B : Type 0} → M A → M B → M B
m >> n = m >>= λ _. n

abbrev pub raise_if : Bool → Exn → M (Unit {0})
raise_if b e w = (if b then err e else ok tt, w)

-- `if b: m`
abbrev pub when : Bool → M (Unit {0}) → M (Unit {0})
when b m w = if b then m w else (ok tt, w)

-- `try: m` with a handler for the exceptions of a class.
abbrev pub try_except : {A : Type 0} → M A → (Exn → Bool) → (Exn → M A) → M A
try_except m catches handler w =
    let (r, w') = m w in
    elim r [ ok a ↦ (ok a, w') | err e ↦ (if catches e then handler e w' else (err e, w')) ]

-- `except:` and `except Exception:`
abbrev pub any_exn : Exn → Bool
any_exn e = true

module _ {A : Type 0} where
  -- `for x in xs: body(x)`
  abbrev pub for_each : List A → (A → M (Unit {0})) → M (Unit {0})
  for_each [] body = pure tt
  for_each (x ∷ xs) body = body x >> for_each xs body

  -- `for x in xs: if body(x): break`
  abbrev pub for_until : List A → (A → M Bool) → M (Unit {0})
  for_until [] body = pure tt
  for_until (x ∷ xs) body = body x >>= λ stop. if stop then pure tt else for_until xs body

module _ {A B : Type 0} where
  -- `[body(x) for x in xs]`
  abbrev pub map_m : List A → (A → M B) → M (List B)
  map_m [] body = pure []
  map_m (x ∷ xs) body = do y ← body x; ys ← map_m xs body; pure (y ∷ ys)

abbrev pub get_world : M World
get_world w = (ok w, w)

abbrev pub set_cache : List (Text × ℕ) → M (Unit {0})
set_cache c w = (ok tt, record w { bs_cache = c })

-- The `err_func` of a restore that goes on, and that of one that aborts.
abbrev pub collect_error : String → M (Unit {0})
collect_error s w = (ok tt, record w { errors = w.errors ++ s ∷ [] })
