-- ===== src/Root/SaveFile.antt =====
-- `save_to_file` of rtslib/root.py from the removal of the temporary file on: what it does to the
-- disk, step by step.
pub mod Crash
use rtslib_fb.Prelude.{
  ℕ, zero, suc, ◌+◌, ◌*◌, ◌/◌, ◌%◌, ◌≡◌, refl, ◌⊎◌, inl, inr, Bool, true, false, not, ◌&&◌, Option,
  none, some, List, [], ◌∷◌, ◌++◌, Text, take, ◌==◌, if◌then◌else◌, Exn, Result, ok, err, os_error,
  runtime_error, arith,
}

-- A file: its mode, its text, and whether the text is on the medium.
pub record File : Type 0 where
  pub mode : ℕ
  pub text : Text
  pub synced : Bool

-- The temporary file, the file that is saved, and the process's umask.
pub record Disk : Type 0 where
  pub tmp : Option File
  pub saved : Option File
  pub umask : ℕ

-- `a & ~b` and `a ^ b` on `n` bits.
unfoldable pub and_not : ℕ → ℕ → ℕ → ℕ
and_not zero a b = 0
and_not (suc n) a b = (if a % 2 == 1 && b % 2 == 0 then 1 else 0) + 2 * and_not n (a / 2) (b / 2)

unfoldable pub xor : ℕ → ℕ → ℕ → ℕ
xor zero a b = 0
xor (suc n) a b = (if a % 2 == b % 2 then 0 else 1) + 2 * xor n (a / 2) (b / 2)

-- rw------- and the umask that leaves it.
abbrev pub mode : ℕ
mode = 384

unfoldable pub umask : ℕ
unfolding xor
umask = xor 9 511 mode

pub data Effect : Type 0 where
  remove_tmp create_tmp fsync replace : Effect
  set_umask chmod : ℕ → Effect
  write : Text → Effect

abbrev synced_file : File → File
synced_file f = record f { synced = true }

abbrev longer : Text → File → File
longer s f = record f { text = f.text ++ s; synced = false }

-- One step; `none` is an OSError, and then nothing has changed. A new file has mode 0666 less the
-- umask.
unfoldable pub effect : Effect → Disk → Option Disk
unfolding and_not
effect remove_tmp d = some (record d { tmp = none })
effect (set_umask m) d = some (record d { umask = m })
effect create_tmp d = elim d.tmp [
  | some f ↦ none
  | none ↦
      some (record d {
        tmp = some (record { mode = and_not 9 438 d.umask; text = []; synced = false });
      })
]
effect (write s) d = elim d.tmp [
  | none ↦ none
  | some f ↦ some (record d { tmp = some (longer s f) })
]
effect fsync d = elim d.tmp [
  | none ↦ none
  | some f ↦ some (record d { tmp = some (synced_file f) })
]
effect replace d = elim d.tmp [
  | none ↦ none
  | some f ↦ some (record d { tmp = none; saved = some f })
]
effect (chmod m) d = elim d.saved [
  | none ↦ none
  | some f ↦ some (record d { saved = some (record f { mode = m }) })
]

-- The steps of `save_to_file` on the text `json`, on a disk with the umask `original`.
unfoldable pub save_to_file : Text → ℕ → List Effect
unfolding umask
save_to_file json original =
    remove_tmp
    ∷ set_umask umask
    ∷ create_tmp
    ∷ write json
    ∷ write (10 ∷ [])
    ∷ fsync
    ∷ replace
    ∷ chmod mode
    ∷ set_umask original
    ∷ []

-- A run up to the first error.
unfoldable pub run : List Effect → Disk → Bool × Disk
run [] d = (true, d)
run (e ∷ es) d = elim (effect e d) [ none ↦ (false, d) | some d' ↦ run es d' ]
