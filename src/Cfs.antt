-- ===== src/Cfs.antt =====
-- What the library's calls of `pathlib` and `os` see and do: a file system whose directories,
-- files and links are those of configFS, /proc and the host. The kernel behind it is a parameter.
mod Monad
pub mod Laws
pub mod Stays
pub mod Memory
pub use Monad.*
use rtslib_fb.Prelude.{
  ℕ, ◌+◌, Bool, true, false, not, ◌&&◌, Option, none, some, List, [], ◌∷◌, ◌++◌, Text, codes,
  text_eq, strip, String, Result, ok, err, os_error, rtslib_error, if◌then◌else◌, any,
}
use rtslib_fb.Wwn.{WwnType}
use rtslib_fb.Wwn.Generate
use rtslib_fb.Wwn.Generate.{Host, uuid_text, last}

module _ ⦃k : Kernel⦄ where
  -- `Path.is_dir`; the paths that the library builds go through no link.
  unfoldable pub is_dir : FsPath → M Bool
  is_dir p w = (ok (is_dir_in p w.fs), w)

  unfoldable pub is_file : FsPath → M Bool
  is_file p w = (ok (is_file_in p w.fs), w)

  -- The names that `Path.iterdir` and `os.listdir` give; a path that is no directory is an OSError.
  unfoldable pub listdir : FsPath → M (List Text)
  listdir p w = if is_dir_in p w.fs then (ok (children p w.fs), w) else (err os_error, w)

  -- `fread`
  unfoldable pub fread : FsPath → M Text
  fread p w = elim (content p w.fs) [ none ↦ (err os_error, w) | some s ↦ (ok (strip s), w) ]

  -- A call of the kernel: it changes the file system or it is an OSError.
  abbrev call : (Fs → Option Fs) → M (Unit {0})
  call f w = elim (f w.fs) [ none ↦ (err os_error, w) | some fs' ↦ (ok tt, record w { fs = fs' }) ]

  -- `fwrite`
  unfoldable pub fwrite : FsPath → Text → M (Unit {0})
  fwrite p s = call (k.write p s)

  unfoldable pub mkdir : FsPath → M (Unit {0})
  mkdir p = call (k.mkdir p)

  unfoldable pub rmdir : FsPath → M (Unit {0})
  rmdir p = call (k.rmdir p)

  -- `os.symlink(source, destination)`
  unfoldable pub symlink : FsPath → FsPath → M (Unit {0})
  symlink source destination = call (k.symlink source destination)

  unfoldable pub unlink : FsPath → M (Unit {0})
  unlink p = call (k.unlink p)

  -- `Path.is_symlink` and the target that `os.path.realpath` gives for a link.
  unfoldable pub readlink : FsPath → M (Option FsPath)
  readlink p w = (ok (link_target p w.fs), w)

  -- `uuid.uuid4()`: the next 32 hexadecimal digits.
  unfoldable pub uuid4 : M Text
  uuid4 w = (ok (k.uuid w.drawn), record w { drawn = w.drawn + 1 })

  -- `str(uuid.uuid4())[-10:]`
  unfoldable pub random_alias : M Text
  unfolding uuid4
  random_alias = do hex ← uuid4; pure (last 10 (uuid_text hex))

  -- `generate_wwn` in its surroundings.
  unfoldable pub generate_wwn : WwnType → M Text
  unfolding uuid4
  generate_wwn t = do hex ← uuid4; lift (Generate.generate_wwn t k.host hex)
