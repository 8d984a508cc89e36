-- ===== src/Effect/Laws.antt =====
-- Inversion of a successful step.
use init_agent.Base.{◌≡◌, refl}
use init_agent.Effect.{
  Site, Outcome, ok, err, panicked, wrap, World, Run, continue, ◌>>=◌, wrap_run,
}

wrap-eq-ok : {E A : Type 0} (s : Site) (r : Outcome E A) {a : A} → wrap s r ≡ ok a → r ≡ ok a
wrap-eq-ok s (ok a) h = cc
wrap-eq-ok s (err e) h = cc
wrap-eq-ok s panicked h = cc

module _ {Object E S A B : Type 0} where
  continue-eq-ok :
      (r : Outcome E A) (f : A → Run Object E S B) (w : World Object E S) {b : B}
      {w'' : World Object E S}
      → continue r f w ≡ (ok b, w'')
      → (a : A) × (r ≡ ok a) × (f a w ≡ (ok b, w''))
  continue-eq-ok (ok a) f w h = (a, refl, h)
  continue-eq-ok (err e) f w h = cc
  continue-eq-ok panicked f w h = cc

  -- A block that succeeds has succeeded in its first step.
  pub >>=-eq-ok :
      (m : Run Object E S A) (f : A → Run Object E S B) (w : World Object E S) {b : B}
      {w'' : World Object E S}
      → (m >>= f) w ≡ (ok b, w'')
      → (a : A) × (m w ≡ (ok a, (m w).1)) × (f a (m w).1 ≡ (ok b, w''))
  >>=-eq-ok m f w h =
      let (a, p, q) = continue-eq-ok (m w).0 f (m w).1 h in (a, λ i. (p i, (m w).1), q)

module _ {Object E S A : Type 0} where
  -- A wrapped call that succeeds is the call.
  pub wrap_run-eq-ok :
      (s : Site) (m : Run Object E S A) (w : World Object E S) {a : A} {w' : World Object E S}
      → wrap_run s m w ≡ (ok a, w')
      → m w ≡ (ok a, w')
  wrap_run-eq-ok s m w h = λ i. (wrap-eq-ok s (m w).0 (λ j. (h j).0) i, (h i).1)
