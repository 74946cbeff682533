-- ===== src/Tcm/Create/Pages.antt =====
-- The number of pages of a ramdisk (rtslib/tcm.py) against the size that was asked for.
use native.Mathlib.Nat.{div-add-mod, mod-lt, mul_comm}
use rtslib_fb.Prelude.{
  ℕ, ◌≡◌, ◌≤◌, ◌<◌, ◌+◌, ◌*◌, ◌/◌, ◌%◌, refl, subst, ◌⊎◌, ◌==◌, Bool-cases, inl, inr, arith, ltb,
  ap, ◌∙◌, Result, ok, err, round_div, float_small, if◌then◌else◌,
}
use rtslib_fb.Tcm.Create.{pages}

-- At most half a page is between the size and n pages.
abbrev Near : ℕ → ℕ → ℕ → Type 0
Near size page n = (2 * size ≤ 2 * (n * page) + page) × (2 * (n * page) ≤ 2 * size + page)

-- The size is q pages and a rest r.
module _ (size page q r : ℕ) (sum : page * q + r ≡ size) (small : r < page) where
  down_bounds : 2 * r ≤ page → Near size page q
  down_bounds low = (omega (arith, mul_comm page q), omega (arith, mul_comm page q))

  up_bounds : page ≤ 2 * r → Near size page (q + 1)
  up_bounds high = (omega (arith, mul_comm page q), omega (arith, mul_comm page q))

  even_bounds : 2 * r ≡ page → Near size page (q + q % 2)
  even_bounds half = elim (Bool-cases (q % 2 == 0)) [
    | inl even ↦
        let e : q ≡ q + q % 2 = ground arith in subst (Near size page) e (down_bounds (omega arith))
    | inr odd ↦
        let e : q + 1 ≡ q + q % 2 = ground (arith, mod-lt q {m = 2} (omega arith)) in
        subst (Near size page) e (up_bounds (omega arith))
  ]

  rounded_bounds :
      Near size page
        (if ltb (2 * r) page then q else (if ltb page (2 * r) then q + 1 else q + q % 2))
  rounded_bounds = elim (Bool-cases (ltb (2 * r) page)) [
    | inl low ↦ rw low (down_bounds (ground arith))
    | inr over ↦ elim (Bool-cases (ltb page (2 * r))) [
      | inl high ↦ rw (over, high) (up_bounds (ground arith))
      | inr half ↦ rw (over, half) (even_bounds (ground arith))
    ]
  ]

round_div_bounds : (size page : ℕ) → 0 < page → Near size page (round_div size page)
round_div_bounds size page h =
    rounded_bounds size page (size / page) (size % page) (div-add-mod size page) (mod-lt size h)

-- At least one page.
abbrev at_least_one : ℕ → Result ℕ
at_least_one q = if q == 0 then ok 1 else ok q

at_least_one_bounds :
    (size page q : ℕ)
    → Near size page q
    → (n : ℕ) × (at_least_one q ≡ ok n)
      × (1 ≤ n)
      × (2 * size ≤ 2 * (n * page) + page)
      × ((n ≡ 1) ⊎ (2 * (n * page) ≤ 2 * size + page))
at_least_one_bounds size page q near = elim (Bool-cases (q == 0)) [
  | inl none ↦
      let e : q ≡ 0 = ground arith in
      let low : 2 * size ≤ 2 * (0 * page) + page = rw e at near.0 in
      (1, rw none refl, omega arith, omega (arith, low), inl refl)
  | inr more ↦ (q, rw more refl, ground arith, near.0, inr near.1)
]

-- A ramdisk whose size is below 2 ^ 53, where the page is not empty, gets at least one page; its pages
-- hold at least the size less half a page, and at most half a page more than it, unless it is one
-- page.
pub pages_bounds :
    (size page : ℕ)
    → size < 9007199254740992
    → 0 < page
    → (n : ℕ) × (pages size page ≡ ok n)
      × (1 ≤ n)
      × (2 * size ≤ 2 * (n * page) + page)
      × ((n ≡ 1) ⊎ (2 * (n * page) ≤ 2 * size + page))
unfolding pages
pages_bounds size page small h =
    let (n, e, some_page, low, high) =
      at_least_one_bounds size page (round_div size page) (round_div_bounds size page h) in
    (n, ap of_float (float_small size small) ∙ e, some_page, low, high)
  where
    of_float : Result ℕ → Result ℕ
    of_float r = elim r [
      | err e ↦ err e
      | ok x ↦ (if round_div x page == 0 then ok 1 else ok (round_div x page))
    ]
