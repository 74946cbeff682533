-- ===== src/Tcm/Create/Reservations.antt =====
-- The persistent reservations that the kernel wrote to a file, as `_config_pr_aptpl` of
-- rtslib/tcm.py takes them apart.
use rtslib_fb.Prelude.{
  ℕ, zero, suc, Bool, List, [], ◌∷◌, ◌++◌, Text, codes, starts_with, Result, ok, err, index_error,
  if◌then◌else◌,
}

abbrev pub is_start : Text → Bool
is_start line = starts_with (codes "PR_REG_START:") line

abbrev pub is_end : Text → Bool
is_end line = starts_with (codes "PR_REG_END:") line

-- `reservations` holds the list that is being filled by reference: `n` entries of it, behind `done`.
abbrev pub flush : List (List Text) → ℕ → List Text → List (List Text)
flush done zero res_list = done
flush done (suc n) res_list = flush (done ++ res_list ∷ []) n res_list

-- The loop over the lines.
unfoldable pub collect : List (List Text) → ℕ → List Text → List Text → List (List Text)
collect done n res_list [] = flush done n res_list
collect done n res_list (line ∷ lines) =
    let started = collect (flush done n res_list) 0 [] lines in
    let ended = collect done (suc n) res_list lines in
    let more = collect done n (res_list ++ line ∷ []) lines in
    if is_start line then started else if is_end line then ended else more

-- No line is an IndexError; a file that does not begin with a registration holds none.
unfoldable pub reservations : List Text → Result (List (List Text))
unfolding collect
reservations [] = err index_error
reservations (line ∷ lines) = if is_start line then ok (collect [] 0 [] (line ∷ lines)) else ok []

-- `",".join(res)`
unfoldable pub join_commas : List Text → Text
join_commas [] = []
join_commas (t ∷ []) = t
join_commas (t ∷ s ∷ ts) = t ++ b',' ∷ join_commas (s ∷ ts)
