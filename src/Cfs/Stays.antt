-- ===== src/Cfs/Stays.antt =====
-- Methods that change nothing where they return.
use rtslib_fb.Prelude.{
  ◌≡◌, sym, ap, ◌∙◌, Bool, true, false, Bool-cases, inl, inr, Exn, Result, ok, err, arith,
}
use rtslib_fb.Cfs.{World, M, pure, raise, ◌>>=◌, ◌>>◌, raise_if, try_except}
use rtslib_fb.Cfs.Laws.{bind_inv, outcome, try_ok, try_err}

-- Where the method returns, the world is as before.
abbrev pub Stays : {A : Type 0} → M A → Type 0
Stays {A} m = (a : A) (w w' : World) → m w ≡ (ok a, w') → w' ≡ w

-- The method raises, if anything.
abbrev pub Raises : {A : Type 0} → M A → Type 0
Raises {A} m = (a : A) (w w' : World) → m w ≡ (ok a, w') → ⊥

module _ {A : Type 0} where
  pub raise-Stays : (e : Exn) → Stays (raise {A = A} e)
  raise-Stays e a w w' h = absurd (ground arith)

  pub pure-Stays : (x : A) → Stays (pure x)
  pure-Stays x a w w' h = ground arith

  pub bind-Stays :
      {B : Type 0} (m : M A) (f : A → M B) → Stays m → ((a : A) → Stays (f a)) → Stays (m >>= f)
  bind-Stays m f first rest b w w' h =
      let (a, v, one, two) = bind_inv m f w h in rest a b v w' two ∙ first a w v one

  pub undo-Raises : {B : Type 0} (m : M B) (e : Exn) → Raises (m >> raise {A = A} e)
  undo-Raises m e a w w' h =
      let (b, v, one, two) = bind_inv m (λ u. raise e) w h in absurd (ground arith)

  pub try-Stays :
      (m : M A) (catches : Exn → Bool) (handler : Exn → M A)
      → Stays m
      → ((e : Exn) → Raises (handler e))
      → Stays (try_except m catches handler)
  try-Stays m catches handler stays raises a w w' h = elim (outcome (m w)) [
    | inl (b, v, done) ↦
        let x = sym (try_ok m catches handler w done) ∙ h in
        sym (ap (λ r. r.1) x) ∙ stays b w v done
    | inr (e, v, failed) ↦
        let x = sym (try_err m catches handler w failed) ∙ h in
        elim (Bool-cases (catches e)) [
          | inl caught ↦ absurd (raises e a v w' (rw caught at x))
          | inr other ↦
              let y : ◌≡◌ {A = Result A × World} (err e, v) (ok a, w') = rw other at x in
              absurd (ground arith)
        ]
  ]

pub raise_if-Stays : (b : Bool) (e : Exn) → Stays (raise_if b e)
raise_if-Stays true e a w w' h = absurd (ground arith)
raise_if-Stays false e a w w' h = ground arith
