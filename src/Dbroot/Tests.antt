-- ===== src/Dbroot/Tests.antt =====
-- The database root on a host that takes the preferred one, and on one that does not
-- (rtslib/root.py).
use rtslib_fb.Prelude.{◌≡◌, refl, true, false, none, [], ◌∷◌, codes, text_eq, strip, ok}
use rtslib_fb.Cfs.{dir, file, World, Kernel}
use rtslib_fb.Cfs.Memory.{memory, world}
use rtslib_fb.Dbroot.{preferred_dbroot, preferred_dir, dbroot_path, set_dbroot}
use rtslib_fb.Dbroot.Mount.{set_dbroot_preferred, set_dbroot_refused}

abbrev before : World
before = world ((dbroot_path, file true true (codes "/var/target\n")) ∷ (preferred_dir, dir) ∷ [])

set_dbroot_preferred_test : (set_dbroot before).0 ≡ ok preferred_dbroot
set_dbroot_preferred_test =
    set_dbroot_preferred (codes "/var/target\n") before
      ((dbroot_path, file true true (codes "/etc/target\n")) ∷ (preferred_dir, dir) ∷ []) refl refl
      refl

abbrev frozen : World
frozen = world ((dbroot_path, file true true (codes "/var/target\n")) ∷ (preferred_dir, dir) ∷ [])

-- A kernel that takes no text.
abbrev read_only : Kernel
read_only = record memory { write = λ p s fs. none }

other : text_eq (strip (codes "/var/target\n")) preferred_dbroot ≡ false
unfolding strip
other = refl

set_dbroot_refused_test :
    set_dbroot ⦃k = read_only⦄ frozen ≡ (ok (strip (codes "/var/target\n")), frozen)
set_dbroot_refused_test =
    set_dbroot_refused ⦃k = read_only⦄ (codes "/var/target\n") frozen refl other refl
