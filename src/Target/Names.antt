-- ===== src/Target/Names.antt =====
-- The numbers of LUNs and TPGs (rtslib/target.py): how a directory's name gives them back, their
-- ranges, and how a new one is picked.
use rtslib_fb.Prelude.{
  ℕ, suc, ◌≡◌, ◌↔◌, refl, sym, ap, ◌∙◌, subst, ◌≤◌, ◌<◌, true, false, inl, inr, Option-cases,
  Option, none, some, List, [], ◌∷◌, Text, split, has, has-decimal, decimal, elem, ℤ, pos, negsuc,
  py_int, py_int-decimal, Result, ok, err, rtslib_error, value_error, arith,
}
use rtslib_fb.Prelude.Free.{first_free, first_free_sound}
use rtslib_fb.Cfs.{Kernel, World, pure, ◌>>◌}
use rtslib_fb.Cfs.Laws.{bind_ok, bind_inv}
use rtslib_fb.Node.{Mode, create_in_cfs_ine}
use rtslib_fb.Target.Objects.{
  Target, Tpg, Lun, lun_name, tpgt_name, number_part, numbered, list_tpgs, tpg_of, refuse_second,
  ensure_nexus, tpg_bind, tpg_or_full, free_tpg, tpg_init, tags, max_tags,
}
use rtslib_fb.Target.Children.{max_target_lun, lun_index, list_luns}
use rtslib_fb.Target.Create.{choose_lun, free_lun, lun_or_full, lun_numbers}

split_whole : (c : ℕ) (s : Text) → has c s ≡ false → split c s ≡ s ∷ []
unfolding split
split_whole c [] h = refl
split_whole c (d ∷ s) h = ground (arith, split_whole c s)

abbrev parsed : Option ℤ → Result ℤ
parsed o = elim o [ none ↦ err value_error | some n ↦ ok n ]

number_part-lun_name : (n : ℕ) → number_part (lun_name n) ≡ ok (decimal n)
unfolding number_part split
number_part-lun_name n = rw (split_whole b'_' (decimal n) (has-decimal n b'_' refl))

number_part-tpgt_name : (n : ℕ) → number_part (tpgt_name n) ≡ ok (decimal n)
unfolding number_part split
number_part-tpgt_name n = rw (split_whole b'_' (decimal n) (has-decimal n b'_' refl))

abbrev from_part : Result Text → Result ℤ
from_part r = elim r [
  | err e ↦ err e
  | ok s ↦ elim (py_int s) [ none ↦ err value_error | some n ↦ ok n ]
]

-- The name of a LUN's directory gives its index back, and that of a TPG its tag.
pub numbered-lun_name :
    (n : ℕ) → (numbered (lun_name n) ≡ ok (pos n)) × (numbered (tpgt_name n) ≡ ok (pos n))
unfolding numbered
numbered-lun_name n = (
  ap from_part (number_part-lun_name n) ∙ ap parsed (py_int-decimal n),
  ap from_part (number_part-tpgt_name n) ∙ ap parsed (py_int-decimal n),
)

-- The index of a LUN is accepted exactly from 0 to 65535.
pub lun_index_iff : (i : ℤ) (n : ℕ) → (lun_index i ≡ ok n) ↔ ((i ≡ pos n) × (n ≤ max_target_lun))
unfolding lun_index
lun_index_iff (pos m) n = ground arith
lun_index_iff (negsuc m) n = ground arith

module _ ⦃k : Kernel⦄ where
  -- Where the LUNs of a TPG are listed and an index is picked for a new one, it is the smallest
  -- that the TPG has not, and at most 65535.
  pub choose_lun_fresh :
      (t : Tpg) (luns : List Lun) (n : ℕ) (w w' w'' : World)
      → list_luns t w ≡ (ok luns, w')
      → choose_lun t none w ≡ (ok n, w'')
      → (n ≤ max_target_lun)
        × (elem n (lun_numbers luns) ≡ false)
        × ((m : ℕ) → m < n → elem m (lun_numbers luns) ≡ true)
  unfolding choose_lun free_lun lun_or_full
  choose_lun_fresh t luns n w w' w'' listed h =
      elim (Option-cases (first_free (suc max_target_lun) 0 (lun_numbers luns))) [
        | inl full ↦
            let e : ◌≡◌ {A = Result ℕ × World} (err (rtslib_error "All LUNs 0-65535 in use"), w')
                (ok n, w'') =
              sym (ap (λ o. lun_or_full o w') full) ∙ here in
            absurd (ground arith)
        | inr (j, found) ↦
            let e : ◌≡◌ {A = Result ℕ × World} (ok j, w') (ok n, w'') =
              sym (ap (λ o. lun_or_full o w') found) ∙ here in
            let free = first_free_sound (suc max_target_lun) 0 (lun_numbers luns) {j = j} found in
            let same : j ≡ n = ground arith in
            subst
              (λ i.
                (i ≤ max_target_lun)
                × (elem i (lun_numbers luns) ≡ false)
                × ((m : ℕ) → m < i → elem m (lun_numbers luns) ≡ true))
              same (omega (arith, free.2), free.0, λ m small. free.3 m (omega arith) small)
      ]
    where
      here : free_lun luns w' ≡ (ok n, w'')
      here = sym (bind_ok (list_luns t) free_lun w listed) ∙ h

  tpg_bind-tag :
      (t : Target) (tag : ℕ) (mode : Mode) (x : Tpg) (w w' : World)
      → tpg_bind t tag mode w ≡ (ok x, w')
      → x.tag ≡ tag
  unfolding tpg_bind
  tpg_bind-tag t tag mode x w w' h =
      let (u, w₁, e₁, h₁) =
        bind_inv (refuse_second t tag (tpg_of t tag).path)
          (λ _.
            create_in_cfs_ine (tpg_of t tag).path mode
            >> (ensure_nexus (tpg_of t tag) >> pure (tpg_of t tag)))
          w {b = x} {w'' = w'} h in
      let (v, w₂, e₂, h₂) =
        bind_inv (create_in_cfs_ine (tpg_of t tag).path mode)
          (λ _. ensure_nexus (tpg_of t tag) >> pure (tpg_of t tag)) w₁ {b = x} {w'' = w'} h₁ in
      let (z, w₃, e₃, h₃) =
        bind_inv (ensure_nexus (tpg_of t tag)) (λ _. pure (tpg_of t tag)) w₂ {b = x} {w'' = w'}
          h₂ in
      sym (ap tag_of h₃)
    where
      tag_of : Result Tpg × World → ℕ
      tag_of (ok y, v) = y.tag
      tag_of (err e, v) = 0

  -- Where the TPGs of a target are listed and one is made without a tag, its tag is the smallest
  -- positive one that the target has not, and it is below 1048576.
  pub tpg_init_fresh :
      (t : Target) (mode : Mode) (tpgs : List Tpg) (x : Tpg) (w w' w'' : World)
      → list_tpgs t w ≡ (ok tpgs, w')
      → tpg_init t none mode w ≡ (ok x, w'')
      → (1 ≤ x.tag)
        × (x.tag < 1048576)
        × (elem x.tag (tags tpgs) ≡ false)
        × ((m : ℕ) → 1 ≤ m → m < x.tag → elem m (tags tpgs) ≡ true)
  unfolding tpg_init free_tpg tpg_or_full
  tpg_init_fresh t mode tpgs x w w' w'' listed h =
      elim (Option-cases (first_free max_tags 1 (tags tpgs))) [
        | inl full ↦
            let e : ◌≡◌ {A = Result Tpg × World}
                (err (rtslib_error "Cannot find an available TPG Tag"), w') (ok x, w'') =
              sym (ap (λ o. tpg_or_full t mode o w') full) ∙ here in
            absurd (ground arith)
        | inr (tag, found) ↦
            let same =
              tpg_bind-tag t tag mode x w' w''
                (sym (ap (λ o. tpg_or_full t mode o w') found) ∙ here) in
            let free = first_free_sound max_tags 1 (tags tpgs) {j = tag} found in
            subst
              (λ i.
                (1 ≤ i)
                × (i < 1048576)
                × (elem i (tags tpgs) ≡ false)
                × ((m : ℕ) → 1 ≤ m → m < i → elem m (tags tpgs) ≡ true))
              (sym same) (free.1, omega (arith, free.2), free.0, free.3)
      ]
    where
      here : free_tpg t mode tpgs w' ≡ (ok x, w'')
      here = sym (bind_ok (list_tpgs t) (free_tpg t mode) w listed) ∙ h
