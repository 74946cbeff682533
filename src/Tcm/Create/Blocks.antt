-- ===== src/Tcm/Create/Blocks.antt =====
-- `_config_pr_aptpl` of rtslib/tcm.py on a file as the kernel writes it: registrations, each between
-- the words `PR_REG_START: <number>` and `PR_REG_END: <number>`.
use rtslib_fb.Prelude.{
  ℕ, zero, suc, ◌≡◌, refl, sym, ap, ◌∙◌, Bool, true, false, not, ◌&&◌, List, [], ◌∷◌, ◌++◌, Text,
  codes, all, append-nil, append_snoc, ok, arith,
}
use rtslib_fb.Tcm.Create.Reservations.{is_start, is_end, flush, collect, reservations}

abbrev start_mark : Text
start_mark = codes "PR_REG_START:"

abbrev end_mark : Text
end_mark = codes "PR_REG_END:"

-- A registration: the number that the kernel gives it, and its fields.
pub record Registration : Type 0 where
  pub number : Text
  pub fields : List Text

-- The words of a file with these registrations: the number stands behind both marks.
abbrev pub blocks : List Registration → List Text
blocks [] = []
blocks (r ∷ rs) = start_mark ∷ r.number ∷ (r.fields ++ end_mark ∷ r.number ∷ blocks rs)

-- What is made of a registration: the number behind its end is taken for another field.
abbrev pub entry : Registration → List Text
entry r = (r.number ∷ r.fields) ++ r.number ∷ []

abbrev pub entries : List Registration → List (List Text)
entries [] = []
entries (r ∷ rs) = entry r ∷ entries rs

-- No word of a registration is a mark.
abbrev pub is_unmarked : List Text → Bool
is_unmarked b = all (λ t. not (is_start t) && not (is_end t)) b

abbrev pub is_plain : Registration → Bool
is_plain r = is_unmarked (r.number ∷ r.fields)

collect_body :
    (done : List (List Text)) (n : ℕ) (res b rest : List Text)
    → is_unmarked b ≡ true
    → collect done n res (b ++ end_mark ∷ rest) ≡ collect done (suc n) (res ++ b) rest
unfolding collect
collect_body done n res [] rest h = ap (λ r. collect done (suc n) r rest) (sym (append-nil res))
collect_body done n res (t ∷ b) rest h =
    let plain : (is_start t ≡ false) × (is_end t ≡ false) = ground arith in
    rw (plain.0, plain.1)
      (collect_body done n (res ++ t ∷ []) b rest (ground arith)
        ∙ ap (λ r. collect done (suc n) r rest) (append_snoc res t b))

collect-blocks :
    (done : List (List Text)) (n : ℕ) (res : List Text) (rs : List Registration)
    → all is_plain rs ≡ true
    → collect done n res (blocks rs) ≡ flush done n res ++ entries rs
unfolding collect
collect-blocks done n res [] h = sym (append-nil (flush done n res))
collect-blocks done n res (r ∷ rs) h =
    let words = r.number ∷ r.fields in
    let plain : is_unmarked words ≡ true = ground arith in
    let mark : (is_start r.number ≡ false) × (is_end r.number ≡ false) = ground arith in
    let done' = flush done n res in
    let behind : collect done' (suc zero) words (r.number ∷ blocks rs)
        ≡ collect done' (suc zero) (entry r) (blocks rs) =
      rw (mark.0, mark.1) refl in
    collect_body done' zero [] words (r.number ∷ blocks rs) plain
    ∙ (behind
        ∙ (collect-blocks done' (suc zero) (entry r) rs (ground arith)
            ∙ append_snoc done' (entry r) (entries rs)))

-- A file of at least one registration, as the kernel writes it, none with a word that is a mark, is
-- read back as those registrations in their order, each with its number in front of its fields and
-- once more behind them.
pub reservations-blocks :
    (r : Registration) (rs : List Registration)
    → all is_plain (r ∷ rs) ≡ true
    → reservations (blocks (r ∷ rs)) ≡ ok (entries (r ∷ rs))
unfolding reservations
reservations-blocks r rs h = ap ok (collect-blocks [] zero [] (r ∷ rs) h)
