-- ===== src/Node/Sorted.antt =====
-- `sorted` on texts: an insertion sort by code points.
use rtslib_fb.Prelude.{Bool, true, false, List, [], ◌∷◌, Text, ltb, ◌==◌, if◌then◌else◌}

abbrev text_le : Text → Text → Bool
text_le [] t = true
text_le (c ∷ s) [] = false
text_le (c ∷ s) (d ∷ t) =
    let rest = text_le s t in if ltb c d then true else if c == d then rest else false

insert : Text → List Text → List Text
insert t [] = t ∷ []
insert t (s ∷ ss) = let rest = insert t ss in if text_le t s then t ∷ s ∷ ss else s ∷ rest

unfoldable pub sort : List Text → List Text
unfolding insert
sort [] = []
sort (t ∷ ts) = insert t (sort ts)
