-- ===== src/Cfs/Memory.antt =====
-- A kernel whose configFS is a plain file system in memory, for the examples: it makes no entries of
-- its own, and any file that is there takes any text.
use rtslib_fb.Prelude.{
  ◌≡◌, ◌≢◌, Bool, true, false, Option, none, some, [], ◌∷◌, Text, codes, if◌then◌else◌, inl, inr,
  Option-cases, arith,
}
use rtslib_fb.Cfs.{
  FsPath, path_eq, path_eq_iff, Entry, dir, file, link, Fs, entry, is_dir_in, content, Kernel,
  World,
}
use rtslib_fb.Cfs.Laws.{RemovesDirectories}

abbrev there : FsPath → Fs → Bool
there p fs = elim (entry p fs) [ none ↦ false | some e ↦ true ]

abbrev pub write_at : FsPath → Text → Fs → Option Fs
write_at p s [] = none
write_at p s ((q, e) ∷ fs) =
    let rest = write_at p s fs in
    if path_eq p q
    then elim e [
      | dir ↦ none
      | file w r old ↦ (if r then some ((q, file w r s) ∷ fs) else none)
      | link to ↦ none
    ]
    else elim rest [ none ↦ none | some fs' ↦ some ((q, e) ∷ fs') ]

abbrev pub remove_at : FsPath → Fs → Fs
remove_at p [] = []
remove_at p ((q, e) ∷ fs) = let rest = remove_at p fs in if path_eq p q then rest else (q, e) ∷ rest

abbrev pub add_at : FsPath → Entry → Fs → Option Fs
add_at p e fs = if there p fs then none else some ((p, e) ∷ fs)

instance abbrev pub memory : Kernel
memory = record {
  mkdir = λ p fs. add_at p dir fs;
  rmdir = λ p fs. if is_dir_in p fs then some (remove_at p fs) else none;
  write = write_at;
  symlink = λ source destination fs. add_at destination (link source) fs;
  unlink = λ p fs. if there p fs then some (remove_at p fs) else none;
  modprobe = λ name fs. some fs;
  is_mount = λ p fs. true;
  shell = λ command fs. (true, fs);
  uuid = λ n. codes "0123456789abcdef0123456789abcdef";
  host = record { hostname = codes "store_1.example"; machine = codes "x86_64" };
}

pub memory-MakesDirectories :
    (p : FsPath) (fs fs' : Fs) → memory.mkdir p fs ≡ some fs' → is_dir_in p fs' ≡ true
memory-MakesDirectories p fs fs' h = ground (arith, path_eq_iff p p)

-- A file that took a text holds it, and no directory goes.
pub content-write_at :
    (p : FsPath) (s : Text) (fs fs' : Fs) → write_at p s fs ≡ some fs' → content p fs' ≡ some s
content-write_at p s [] fs' h = cc
content-write_at p s ((q, dir) ∷ fs) fs' h = elim (Option-cases (write_at p s fs)) [
  | inl absent ↦ ground arith
  | inr (gs, found) ↦ ground (arith, content-write_at p s fs gs found)
]
content-write_at p s ((q, link to) ∷ fs) fs' h = elim (Option-cases (write_at p s fs)) [
  | inl absent ↦ ground arith
  | inr (gs, found) ↦ ground (arith, content-write_at p s fs gs found)
]
content-write_at p s ((q, file w r old) ∷ fs) fs' h = elim (Option-cases (write_at p s fs)) [
  | inl absent ↦ ground arith
  | inr (gs, found) ↦ ground (arith, content-write_at p s fs gs found)
]

pub is_dir_in-write_at :
    (p d : FsPath) (s : Text) (fs fs' : Fs)
    → write_at p s fs ≡ some fs'
    → is_dir_in d fs ≡ true
    → is_dir_in d fs' ≡ true
is_dir_in-write_at p d s [] fs' e h = cc
is_dir_in-write_at p d s ((q, dir) ∷ fs) fs' e h = elim (Option-cases (write_at p s fs)) [
  | inl absent ↦ ground arith
  | inr (gs, found) ↦ ground (arith, is_dir_in-write_at p d s fs gs found)
]
is_dir_in-write_at p d s ((q, link to) ∷ fs) fs' e h = elim (Option-cases (write_at p s fs)) [
  | inl absent ↦ ground arith
  | inr (gs, found) ↦ ground (arith, is_dir_in-write_at p d s fs gs found)
]
is_dir_in-write_at p d s ((q, file w r old) ∷ fs) fs' e h = elim (Option-cases (write_at p s fs)) [
  | inl absent ↦ ground arith
  | inr (gs, found) ↦ ground (arith, is_dir_in-write_at p d s fs gs found)
]

-- A write changes no other file.
pub content-write_at_ne :
    (p q : FsPath) (s : Text) (fs fs' : Fs)
    → p ≢ q
    → write_at p s fs ≡ some fs'
    → content q fs' ≡ content q fs
content-write_at_ne p q s [] fs' ne h = cc
content-write_at_ne p q s ((r, dir) ∷ fs) fs' ne h = elim (Option-cases (write_at p s fs)) [
  | inl absent ↦ ground arith
  | inr (gs, found) ↦ ground (arith, content-write_at_ne p q s fs gs ne found)
]
content-write_at_ne p q s ((r, link to) ∷ fs) fs' ne h = elim (Option-cases (write_at p s fs)) [
  | inl absent ↦ ground arith
  | inr (gs, found) ↦ ground (arith, content-write_at_ne p q s fs gs ne found)
]
content-write_at_ne p q s ((r, file w b old) ∷ fs) fs' ne h =
    elim (Option-cases (write_at p s fs)) [
      | inl absent ↦ ground (arith, path_eq_iff p r, path_eq_iff q r)
      | inr (gs, found) ↦
          ground (arith, content-write_at_ne p q s fs gs ne found, path_eq_iff p r, path_eq_iff q r)
    ]

is_dir_in-remove_at : (p : FsPath) (fs : Fs) → is_dir_in p (remove_at p fs) ≡ false
is_dir_in-remove_at p [] = ground arith
is_dir_in-remove_at p ((q, dir) ∷ fs) = ground (arith, is_dir_in-remove_at p fs)
is_dir_in-remove_at p ((q, link to) ∷ fs) = ground (arith, is_dir_in-remove_at p fs)
is_dir_in-remove_at p ((q, file w r s) ∷ fs) = ground (arith, is_dir_in-remove_at p fs)

is_dir_in-remove_at_ne :
    (p q : FsPath) (fs : Fs) → is_dir_in q fs ≡ false → is_dir_in q (remove_at p fs) ≡ false
is_dir_in-remove_at_ne p q [] h = ground arith
is_dir_in-remove_at_ne p q ((r, dir) ∷ fs) h = ground (
  arith,
  is_dir_in-remove_at_ne p q fs,
  is_dir_in-remove_at p fs,
  path_eq_iff p r,
  path_eq_iff q r,
)
is_dir_in-remove_at_ne p q ((r, link to) ∷ fs) h = ground (
  arith,
  is_dir_in-remove_at_ne p q fs,
  is_dir_in-remove_at p fs,
  path_eq_iff p r,
  path_eq_iff q r,
)
is_dir_in-remove_at_ne p q ((r, file w b s) ∷ fs) h = ground (
  arith,
  is_dir_in-remove_at_ne p q fs,
  is_dir_in-remove_at p fs,
  path_eq_iff p r,
  path_eq_iff q r,
)

pub memory-RemovesDirectories : RemovesDirectories memory
memory-RemovesDirectories = record {
  removes = λ p fs fs' h. ground (arith, is_dir_in-remove_at p fs);
  makes_none = λ p q fs fs' h gone. ground (arith, is_dir_in-remove_at_ne p q fs);
}

abbrev pub world : Fs → World
world fs = record { fs = fs; bs_cache = []; drawn = 0; errors = [] }
