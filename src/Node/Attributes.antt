-- ===== src/Node/Attributes.antt =====
-- The attributes and parameters of a node (rtslib/node.py): what is set is what is read.
use rtslib_fb.Prelude.{◌≡◌, [], ◌∷◌, ◌++◌, Text, codes, strip, strip_newline, ok, arith}
use rtslib_fb.Cfs.{FsPath, Kernel, World, is_file, is_dir, fread, fwrite}
use rtslib_fb.Cfs.Laws.{is_file-content, Stores}
use rtslib_fb.Node.{check_self, exists, set_attribute, get_attribute, set_parameter, get_parameter}

module _ ⦃k : Kernel⦄ where
  -- Where a set of an attribute that the kernel stores succeeds, the get that follows returns the
  -- value without the white space around it and changes nothing.
  pub get-set_attribute :
      (p : FsPath) (a v : Text) (w w' : World)
      → Stores k p (a ∷ codes "attrib" ∷ [])
      → set_attribute p a v w ≡ (ok tt, w')
      → get_attribute p a w' ≡ (ok (strip v), w')
  unfolding set_attribute get_attribute check_self exists is_dir is_file fread fwrite
  get-set_attribute p a v w w' law h = ground (
    arith,
    law.stores v w.fs w'.fs,
    law.stays v w.fs w'.fs,
    is_file-content (a ∷ codes "attrib" ∷ p) w'.fs v,
  )

  -- Where a set of a parameter that the kernel stores succeeds, with the line break that it
  -- adds, the get that follows returns the value without the white space around it and changes
  -- nothing.
  pub get-set_parameter :
      (p : FsPath) (a v : Text) (w w' : World)
      → Stores k p (a ∷ codes "param" ∷ [])
      → set_parameter p a v w ≡ (ok tt, w')
      → get_parameter p a w' ≡ (ok (strip v), w')
  unfolding set_parameter get_parameter check_self exists is_dir is_file fread fwrite
  get-set_parameter p a v w w' law h = ground (
    arith,
    law.stores (v ++ 10 ∷ []) w.fs w'.fs,
    law.stays (v ++ 10 ∷ []) w.fs w'.fs,
    is_file-content (a ∷ codes "param" ∷ p) w'.fs (v ++ 10 ∷ []),
    strip_newline v,
  )
