-- ===== src/Effect/Ends.antt =====
-- Total correctness of actions: from each state of the server that a predicate admits, the action
-- returns a value with a property, without an error or a panic, and in such a state again.
use init_agent.Base.{◌≡◌, refl, sym, ap, subst, ◌∙◌, Option}
use init_agent.Effect.{
  Site, Outcome, ok, Call, World, Run, pure, lift, wrap, wrap_run, continue, ◌>>=◌, query, request,
}

pub record Ends {Object E S A : Type 0} (P : S → Type 0) (Q : A → Type 0) (m : Run Object E S A)
    : Type 0 where
  pub from :
      (w : World Object E S) → P w.server → (a : A) × ((m w).0 ≡ ok a) × Q a × P (m w).1.server

module _ {Object E S : Type 0} {P : S → Type 0} where
  pub Ends-pure :
      {A : Type 0} {Q : A → Type 0} (a : A) → Q a → Ends {Object = Object} {E = E} P Q (pure a)
  Ends-pure a q = record { from = λ w p. (a, refl, q, p) }

  pub Ends-lift :
      {A : Type 0} {Q : A → Type 0} (r : Outcome E A) (a : A)
      → r ≡ ok a
      → Q a
      → Ends {Object = Object} P Q (lift r)
  Ends-lift r a e q = record { from = λ w p. (a, e, q, p) }

  pub Ends-query :
      {A : Type 0} {Q : A → Type 0} (q : S → A × S)
      → ((s : S) → P s → Q (q s).0 × P (q s).1)
      → Ends {Object = Object} {E = E} P Q (query q)
  Ends-query q h = record {
    from = λ w p. ((q w.server).0, refl, (h w.server p).0, (h w.server p).1);
  }

  pub Ends-request :
      {Q : Option E → Type 0} (q : S → Option E × S) (call : Option E → Call Object E)
      → ((s : S) → P s → Q (q s).0 × P (q s).1)
      → Ends P Q (request q call)
  Ends-request q call h = record {
    from = λ w p. ((q w.server).0, refl, (h w.server p).0, (h w.server p).1);
  }

  pub Ends-wrap_run :
      {A : Type 0} {Q : A → Type 0} (s : Site) (m : Run Object E S A)
      → Ends P Q m
      → Ends P Q (wrap_run s m)
  Ends-wrap_run s m h = record {
    from = λ w p. let (a, e, q, p') = h.from w p in (a, ap (wrap s) e, q, p');
  }

  pub Ends->>= :
      {A B : Type 0} {Q : A → Type 0} {R : B → Type 0} (m : Run Object E S A)
      (f : A → Run Object E S B)
      → Ends P Q m
      → ((a : A) → Q a → Ends P R (f a))
      → Ends P R (m >>= f)
  Ends->>= {R = R} m f h k = record {
    from = λ w p.
        let (a, e, q, p') = h.from w p in
        let (b, e', r, p'') = (k a q).from (m w).1 p' in
        (
          b,
          ap (λ o. (continue o f (m w).1).0) e ∙ e',
          r,
          subst (λ o. P (continue o f (m w).1).1.server) (sym e) p'',
        );
  }
