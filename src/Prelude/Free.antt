-- ===== src/Prelude/Free.antt =====
-- The first number of a range that a list does not hold: the loop by which the program picks an
-- index for a backstore, a TPG and a LUN.
use Prim.Native.Nat.{ℕ, zero, suc, ◌+◌, ◌≤◌, ◌<◌}
use mathlib.Core.Path.{◌≡◌}
use mathlib.Core.Logic.{◌≢◌, inl, inr}
use mathlib.Core.Bool.{true, false}
use mathlib.Core.Option.{Option, none, some}
use mathlib.Core.List.{List, [], ◌∷◌}
use native.Mathlib.Omega.{arith}
use rtslib_fb.Prelude.Tests.{if◌then◌else◌, ◌==◌, Bool-cases, Option-cases}
use rtslib_fb.Prelude.Lists.{elem, length}

-- `for index in range(i, i + rounds): if index not in used: break`
unfoldable pub first_free : ℕ → ℕ → List ℕ → Option ℕ
first_free zero i used = none
first_free (suc rounds) i used =
    let rest = first_free rounds (suc i) used in if elem i used then rest else some i

-- What it returns is in the range and not used, and all below it in the range is used.
pub first_free_sound :
    (rounds i : ℕ) (used : List ℕ) {j : ℕ}
    → first_free rounds i used ≡ some j
    → (elem j used ≡ false)
      × (i ≤ j)
      × (j < i + rounds)
      × ((m : ℕ) → i ≤ m → m < j → elem m used ≡ true)
unfolding first_free
first_free_sound zero i used h = cc
first_free_sound (suc rounds) i used {j} h = elim (Bool-cases (elem i used)) [
  | inl taken ↦
      let below : (elem j used ≡ false)
          × (suc i ≤ j)
          × (j < suc i + rounds)
          × ((m : ℕ) → suc i ≤ m → m < j → elem m used ≡ true) =
        first_free_sound rounds (suc i) used (rw taken at h) in
      (below.0, omega arith, omega arith, λ m low high. ground (arith, below.3 m))
  | inr free ↦
      let here : some i ≡ some j = rw free at h in
      (ground arith, ground arith, ground arith, λ m low high. absurd (ground arith))
]

-- It fails only where all of the range is used.
first_free-eq-none :
    (rounds i m : ℕ) (used : List ℕ)
    → first_free rounds i used ≡ none
    → i ≤ m
    → m < i + rounds
    → elem m used ≡ true
unfolding first_free
first_free-eq-none zero i m used h low high = absurd (omega arith)
first_free-eq-none (suc rounds) i m used h low high =
    ground (arith, first_free-eq-none rounds (suc i) m used)

remove : ℕ → List ℕ → List ℕ
remove n [] = []
remove n (m ∷ ms) = let rest = remove n ms in if n == m then rest else m ∷ rest

length-remove-le : (n : ℕ) (ms : List ℕ) → length (remove n ms) ≤ length ms
unfolding remove
length-remove-le n [] = omega arith
length-remove-le n (m ∷ ms) = ground (arith, length-remove-le n ms)

length-remove : (n : ℕ) (ms : List ℕ) → elem n ms ≡ true → length (remove n ms) < length ms
unfolding remove
length-remove n [] h = cc
length-remove n (m ∷ ms) h = ground (arith, length-remove n ms, length-remove-le n ms)

elem-remove : (n k : ℕ) (ms : List ℕ) → k ≢ n → elem k ms ≡ true → elem k (remove n ms) ≡ true
unfolding remove
elem-remove n k [] ne h = cc
elem-remove n k (m ∷ ms) ne h = ground (arith, elem-remove n k ms)

-- A list that holds all of a range is as long as the range.
range-le-length :
    (rounds i : ℕ) (used : List ℕ)
    → ((m : ℕ) → i ≤ m → m < i + rounds → elem m used ≡ true)
    → rounds ≤ length used
range-le-length zero i used h = omega arith
range-le-length (suc rounds) i used h =
    let first = length-remove i used (h i (omega arith) (omega arith)) in
    let rest =
      range-le-length rounds (suc i) (remove i used)
        (λ m low high. elem-remove i m used (omega arith) (h m (omega arith) (omega arith))) in
    omega arith

-- A range longer than the list has a free number.
pub first_free_total :
    (rounds i : ℕ) (used : List ℕ)
    → length used < rounds
    → (j : ℕ) × (first_free rounds i used ≡ some j)
first_free_total rounds i used short = elim (Option-cases (first_free rounds i used)) [
  | inl full ↦ absurd (
      omega (
        arith,
        range-le-length rounds i used
            (λ m low high. first_free-eq-none rounds i m used full low high),
      ))
  | inr found ↦ found
]
