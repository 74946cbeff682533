-- ===== src/Root/SaveFile/Crash.antt =====
-- What is on the disk while `save_to_file` of rtslib/root.py runs, and what is there at the end.
use rtslib_fb.Prelude.{
  ℕ, zero, suc, ◌≡◌, refl, ◌⊎◌, inl, inr, true, false, Option, none, some, [], ◌∷◌, ◌++◌, Text,
  take, drop,
}
use rtslib_fb.Root.SaveFile.{File, Disk, mode, umask, effect, and_not, xor, save_to_file, run}

-- The disk behind the first `n` steps.
abbrev pub after_steps : ℕ → Text → Disk → Disk
after_steps n json d = (run (take n (save_to_file json d.umask)) d).1

-- The file is the old one, or the whole new text on the medium.
abbrev pub OldOrNew : Text → Disk → Disk → Type 0
OldOrNew json d d' =
    (d'.saved ≡ d.saved)
    ⊎ (d'.saved ≡ some (record { mode = mode; text = json ++ 10 ∷ []; synced = true }))

-- After any number of its steps the saved file is the old one, or it has the mode 0600 and all
-- of the new text, which is on the medium.
pub save_to_file_crash_safe :
    (n : ℕ) (json : Text) (d : Disk) → OldOrNew json d (after_steps n json d)
unfolding save_to_file run effect umask and_not xor
save_to_file_crash_safe zero json d = inl refl
save_to_file_crash_safe (suc zero) json d = inl refl
save_to_file_crash_safe (suc (suc zero)) json d = inl refl
save_to_file_crash_safe (suc (suc (suc zero))) json d = inl refl
save_to_file_crash_safe (suc (suc (suc (suc zero)))) json d = inl refl
save_to_file_crash_safe (suc (suc (suc (suc (suc zero))))) json d = inl refl
save_to_file_crash_safe (suc (suc (suc (suc (suc (suc zero)))))) json d = inl refl
save_to_file_crash_safe (suc (suc (suc (suc (suc (suc (suc zero))))))) json d = inr refl
save_to_file_crash_safe (suc (suc (suc (suc (suc (suc (suc (suc zero)))))))) json d = inr refl
save_to_file_crash_safe (suc (suc (suc (suc (suc (suc (suc (suc (suc zero))))))))) json d = inr refl
save_to_file_crash_safe (suc (suc (suc (suc (suc (suc (suc (suc (suc (suc n)))))))))) json d =
    inr refl

-- With no other process in between, the saving runs to its end and leaves the new text with the
-- mode 0600, no temporary file, and the umask of the start.
pub run-save_to_file :
    (json : Text) (d : Disk)
    → run (save_to_file json d.umask) d ≡ (
      true,
      record {
        tmp = none;
        saved = some (record { mode = mode; text = json ++ 10 ∷ []; synced = true });
        umask = d.umask;
      },
    )
unfolding save_to_file run effect umask and_not xor
run-save_to_file json d = refl

abbrev pub Private : Option File → Type 0
Private none = Unit
Private (some f) = f.mode ≡ mode

-- Behind each step from the first on, the temporary file, whatever was there before, is absent
-- or has the mode 0600.
pub save_to_file-Private :
    (n : ℕ) (json : Text) (d : Disk) → Private (after_steps (suc n) json d).tmp
unfolding save_to_file run effect umask and_not xor
save_to_file-Private zero json d = tt
save_to_file-Private (suc zero) json d = tt
save_to_file-Private (suc (suc zero)) json d = refl
save_to_file-Private (suc (suc (suc zero))) json d = refl
save_to_file-Private (suc (suc (suc (suc zero)))) json d = refl
save_to_file-Private (suc (suc (suc (suc (suc zero))))) json d = refl
save_to_file-Private (suc (suc (suc (suc (suc (suc zero)))))) json d = tt
save_to_file-Private (suc (suc (suc (suc (suc (suc (suc zero))))))) json d = tt
save_to_file-Private (suc (suc (suc (suc (suc (suc (suc (suc zero)))))))) json d = tt
save_to_file-Private (suc (suc (suc (suc (suc (suc (suc (suc (suc n))))))))) json d = tt

-- Where another process makes the temporary file again before the exclusive open, the open fails,
-- the saved file and the other's file stay as they are, and the umask is left at 0177.
pub save_to_file_raced :
    (json : Text) (original : ℕ) (d : Disk) (f : File)
    → d.tmp ≡ some f
    → run (drop 1 (save_to_file json original)) d ≡ (false, record d { umask = 127 })
unfolding save_to_file run effect umask and_not xor
save_to_file_raced json original d f h = rw h
