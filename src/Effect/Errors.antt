-- ===== src/Effect/Errors.antt =====
-- Which errors an action returns, and that it does not panic, with a rule for each way to build one.
use init_agent.Base.{Bool, true, false, Option, if◌then◌else◌}
use init_agent.Effect.{
  Site, Error, Outcome, ok, err, panicked, wrapped, wrap, Call, Action, pure, raise, lift, wrap_run,
  continue, ◌>>=◌, query, request,
}

-- An outcome that is no panic, and whose error is one of `P`.
abbrev pub Answers : {E A : Type 0} → (Error E → Type 0) → Outcome E A → Type 0
Answers P (ok a) = Unit
Answers P (err e) = P e
Answers P panicked = ⊥

Answers-wrap :
    {E A : Type 0} (P Q : Error E → Type 0) (s : Site) (o : Outcome E A)
    → Answers Q o
    → ((e : Error E) → P (wrapped s e))
    → Answers P (wrap s o)
Answers-wrap P Q s (ok a) h p = tt
Answers-wrap P Q s (err e) h p = p e
Answers-wrap P Q s panicked h p = absurd h

pub record Errs {W E A : Type 0} (P : Error E → Type 0) (m : Action W E A) : Type 0 where
  pub at : (w : W) → Answers P (m w).0

module _ {W E : Type 0} {P : Error E → Type 0} where
  pub Errs-pure : {A : Type 0} (a : A) → Errs {W = W} P (pure a)
  Errs-pure a = record { at = λ w. tt }

  pub Errs-raise : {A : Type 0} (e : Error E) → P e → Errs {W = W} {A = A} P (raise e)
  Errs-raise e p = record { at = λ w. p }

  pub Errs-lift : {A : Type 0} (o : Outcome E A) → Answers P o → Errs {W = W} P (lift o)
  Errs-lift o p = record { at = λ w. p }

  Answers-continue :
      {A B : Type 0} (o : Outcome E A) (f : A → Action W E B) (w : W)
      → Answers P o
      → ((a : A) → Errs P (f a))
      → Answers P (continue o f w).0
  Answers-continue (ok a) f w h k = (k a).at w
  Answers-continue (err e) f w h k = h
  Answers-continue panicked f w h k = absurd h

  pub Errs->>= :
      {A B : Type 0} (m : Action W E A) (f : A → Action W E B)
      → Errs P m
      → ((a : A) → Errs P (f a))
      → Errs P (m >>= f)
  Errs->>= m f h k = record { at = λ w. Answers-continue (m w).0 f (m w).1 (h.at w) k }

  pub Errs-wrap_run :
      {A : Type 0} {Q : Error E → Type 0} (s : Site) (m : Action W E A)
      → Errs Q m
      → ((e : Error E) → P (wrapped s e))
      → Errs P (wrap_run s m)
  Errs-wrap_run {Q} s m h p = record { at = λ w. Answers-wrap P Q s (m w).0 (h.at w) p }

  pub Errs-if :
      {A : Type 0} (b : Bool) (m n : Action W E A)
      → Errs P m
      → Errs P n
      → Errs P (if b then m else n)
  Errs-if true m n h k = h
  Errs-if false m n h k = k

module _ {Object E S : Type 0} {P : Error E → Type 0} where
  pub Errs-query : {A : Type 0} (q : S → A × S) → Errs P (query {Object = Object} q)
  Errs-query q = record { at = λ w. tt }

  pub Errs-request :
      (q : S → Option E × S) (call : Option E → Call Object E) → Errs P (request q call)
  Errs-request q call = record { at = λ w. tt }
