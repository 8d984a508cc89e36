-- ===== src/Effect/Quiet.antt =====
-- Actions that patch nothing, with a rule for each way to build one.
use init_agent.Base.{
  ℕ, suc, ◌≡◌, refl, ◌∙◌, Bool, true, false, Option, List, [], ◌∷◌, if◌then◌else◌,
}
use init_agent.Effect.{
  Site, Error, Outcome, ok, err, panicked, Call, created, patched, event_recorded, World, Run, pure,
  raise, lift, wrap_run, continue, ◌>>=◌, query, request,
}

-- How many patches a log holds.
unfoldable pub patches : {Object E : Type 0} → List (Call Object E) → ℕ
patches [] = 0
patches (created obj e ∷ calls) = patches calls
patches (patched l e ∷ calls) = suc (patches calls)
patches (event_recorded e ∷ calls) = patches calls

pub record Quiet {Object E S A : Type 0} (m : Run Object E S A) : Type 0 where
  pub at : (w : World Object E S) → patches (m w).1.calls ≡ patches w.calls

module _ {Object E S A : Type 0} where
  pub Quiet-lift : (r : Outcome E A) → Quiet {Object = Object} {S = S} (lift r)
  Quiet-lift r = record { at = λ w. refl }

  pub Quiet-pure : (a : A) → Quiet {Object = Object} {E = E} {S = S} (pure a)
  Quiet-pure a = record { at = λ w. refl }

  pub Quiet-raise : (e : Error E) → Quiet {Object = Object} {S = S} {A = A} (raise e)
  Quiet-raise e = record { at = λ w. refl }

  pub Quiet-query : (q : S → A × S) → Quiet {Object = Object} {E = E} (query q)
  Quiet-query q = record { at = λ w. refl }

  pub Quiet-wrap_run : (s : Site) (m : Run Object E S A) → Quiet m → Quiet (wrap_run s m)
  Quiet-wrap_run s m h = record { at = λ w. h.at w }

  pub Quiet-if :
      (b : Bool) (m n : Run Object E S A) → Quiet m → Quiet n → Quiet (if b then m else n)
  Quiet-if true m n h k = h
  Quiet-if false m n h k = k

module _ {Object E S A B : Type 0} where
  Quiet-continue :
      (r : Outcome E A) (f : A → Run Object E S B) (w : World Object E S)
      → ((a : A) → Quiet (f a))
      → patches (continue r f w).1.calls ≡ patches w.calls
  Quiet-continue (ok a) f w k = (k a).at w
  Quiet-continue (err e) f w k = refl
  Quiet-continue panicked f w k = refl

  pub Quiet->>= :
      (m : Run Object E S A) (f : A → Run Object E S B)
      → Quiet m
      → ((a : A) → Quiet (f a))
      → Quiet (m >>= f)
  Quiet->>= m f h k = record { at = λ w. Quiet-continue (m w).0 f (m w).1 k ∙ h.at w }

module _ {Object E S : Type 0} where
  pub Quiet-request : (q : S → Option E × S) (obj : Object) → Quiet (request q (created obj))
  unfolding patches
  Quiet-request q obj = record { at = λ w. refl }

pub ruleset quiet_rules = (
  Quiet-lift, Quiet-pure, Quiet-raise, Quiet-query, Quiet-wrap_run, Quiet-if, Quiet->>=,
  Quiet-request,
)
