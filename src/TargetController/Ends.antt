-- ===== src/TargetController/Ends.antt =====
-- How ensureInitController ends, on every path.
use init_agent.Base.{
  ℕ, ◌≡◌, refl, sym, subst, Option, none, some, ◌⊎◌, inl, inr, Text, Option-cases,
}
use init_agent.Go.Maps.{lookup}
use init_agent.Kcp.Rest.{RestConfig}
use init_agent.Effect.{
  Site, Error, Outcome, ok, err, panicked, external, wrapped, wrap, wrap_run, Action, pure, raise,
  continue, ◌>>=◌, failed_to_retrieve_workspace_type, failed_to_create_multicluster_manager,
  failed_to_create_init_controller,
}
use init_agent.Sdk.Types.{ObjectMeta, InitTarget}
use init_agent.Remote.{Fetched, found, failed}
use init_agent.TargetController.{
  Services, State, ask, or_wrapped, fetched_or_raise, manager_or_wrapped, get_workspace_type,
  create_multicluster_manager, start_controller, started_controller, create_init_controller,
  new_init_target_provider, get_init_target_key, ensure_init_controller,
}
use init_agent.TargetController.Moves.{Bare-get_workspace_type, Bare-create_multicluster_manager}

-- An action that does not panic.
abbrev Returns : {E A : Type 0} → Outcome E A → Type 0
Returns (ok a) = Unit
Returns (err e) = Unit
Returns panicked = ⊥

record IsTotal {E S A : Type 0} (m : Action (State S) E A) : Type 0 where
  at : (st : State S) → Returns (m st).0

module _ {E S A : Type 0} where
  IsTotal-pure : (a : A) → IsTotal {E = E} {S = S} (pure a)
  IsTotal-pure a = record { at = λ st. tt }

  IsTotal-raise : (e : Error E) → IsTotal {S = S} {A = A} (raise e)
  IsTotal-raise e = record { at = λ st. tt }

  IsTotal-ask : (q : S → A × S) → IsTotal {E = E} (ask q)
  IsTotal-ask q = record { at = λ st. tt }

module _ {E S A B : Type 0} where
  Returns-continue :
      (r : Outcome E A) (f : A → Action (State S) E B) (st : State S)
      → Returns r
      → ((a : A) → IsTotal (f a))
      → Returns (continue r f st).0
  Returns-continue (ok a) f st h k = (k a).at st
  Returns-continue (err e) f st h k = tt
  Returns-continue panicked f st h k = h

  IsTotal->>= :
      (m : Action (State S) E A) (f : A → Action (State S) E B)
      → IsTotal m
      → ((a : A) → IsTotal (f a))
      → IsTotal (m >>= f)
  IsTotal->>= m f h k = record { at = λ st. Returns-continue (m st).0 f (m st).1 (h.at st) k }

module _ {E S : Type 0} where
  IsTotal-or_wrapped : (s : Site) (e : Option E) → IsTotal {S = S} (or_wrapped s e)
  unfolding or_wrapped
  IsTotal-or_wrapped s none = IsTotal-pure tt
  IsTotal-or_wrapped s (some e) = IsTotal-raise _

  IsTotal-fetched_or_raise : {A : Type 0} (f : Fetched E A) → IsTotal {S = S} (fetched_or_raise f)
  unfolding fetched_or_raise
  IsTotal-fetched_or_raise (found a) = IsTotal-pure a
  IsTotal-fetched_or_raise (failed e) = IsTotal-raise _

  IsTotal-manager_or_wrapped :
      {M : Type 0} (f : Fetched E M) → IsTotal {S = S} (manager_or_wrapped f)
  unfolding manager_or_wrapped
  IsTotal-manager_or_wrapped (found a) = IsTotal-pure a
  IsTotal-manager_or_wrapped (failed e) = IsTotal-raise _

ruleset total_rules = (
  IsTotal-pure, IsTotal-raise, IsTotal-ask, IsTotal->>=, IsTotal-or_wrapped,
  IsTotal-fetched_or_raise, IsTotal-manager_or_wrapped,
)

module _ {E S M R : Type 0} (services : Services E S M R) (cfg : RestConfig R)
    (target : InitTarget) where
  IsTotal-get_workspace_type : IsTotal (get_workspace_type services cfg target)
  unfolding get_workspace_type
  IsTotal-get_workspace_type = search total_rules

  IsTotal-create_multicluster_manager :
      (wst : ObjectMeta) → IsTotal (create_multicluster_manager services cfg wst)
  unfolding create_multicluster_manager
  IsTotal-create_multicluster_manager wst = search total_rules depth 9

  abbrev key : Text
  key = get_init_target_key target

  module _ (st : State S) where
    -- The init controller was made or not, with the provider of this target and the initializer of
    -- its WorkspaceType, at the servers `s`.
    abbrev pub Controlled : ObjectMeta → M → S → Outcome E (Unit {0}) × State S → Type 0
    Controlled wst mgr s result =
        let answer =
          services.new_init_controller mgr (services.get_target target.meta.name)
            (services.initializer_for_type wst) s in
        ((e : E) × (answer.0 ≡ some e)
          × (result ≡ (
            err (wrapped failed_to_create_init_controller (external e)),
            record st { server = answer.1 },
          )))
        ⊎ ((answer.0 ≡ none)
            × (result ≡ (ok tt, start_controller key (record st { server = answer.1 }))))

    -- The manager was made for the WorkspaceType or not.
    abbrev pub Managed : ObjectMeta → S → Outcome E (Unit {0}) × State S → Type 0
    Managed wst s result =
        let made = create_multicluster_manager services cfg wst (record st { server = s }) in
        ((e : Error E) × (made.0 ≡ err e)
          × (result ≡ (
            err (wrapped failed_to_create_multicluster_manager e),
            record st { server = made.1.server },
          )))
        ⊎ ((mgr : M) × (made.0 ≡ ok mgr) × Controlled wst mgr made.1.server result)

    -- The WorkspaceType was retrieved or not. A controller is started if nothing failed; else the
    -- first error is returned, wrapped by the step that gave it, and only the servers have changed.
    abbrev pub Built : Outcome E (Unit {0}) × State S → Type 0
    Built result =
        let typed = get_workspace_type services cfg target st in
        ((e : Error E) × (typed.0 ≡ err e)
          × (result ≡ (
            err (wrapped failed_to_retrieve_workspace_type e),
            record st { server = typed.1.server },
          )))
        ⊎ ((wst : ObjectMeta) × (typed.0 ≡ ok wst) × Managed wst typed.1.server result)

    controlled :
        (wst : ObjectMeta) (mgr : M) (s s' : S) (failure : Option E)
        → services.new_init_controller mgr
            (services.get_target target.meta.name)
            (services.initializer_for_type wst)
            s
          ≡ (failure, s')
        → Controlled wst mgr s (
            (or_wrapped failed_to_create_init_controller failure >>= λ created.
            started_controller key)
              (record st { server = s' }))
    unfolding or_wrapped started_controller
    controlled wst mgr s s' none h = inr (λ i. (h i).0, rw h refl)
    controlled wst mgr s s' (some e) h = inl (e, λ i. (h i).0, rw h refl)

    -- What follows the manager.
    abbrev last : ObjectMeta → M → Action (State S) E (Unit {0})
    last wst mgr =
        ask (
          services.new_init_controller mgr (services.get_target target.meta.name)
            (services.initializer_for_type wst))
        >>= λ failure. or_wrapped failed_to_create_init_controller failure >>= λ created.
            started_controller key

    managed :
        (wst : ObjectMeta) (s s' : S) (o : Outcome E M)
        → create_multicluster_manager services cfg wst (record st { server = s })
          ≡ (o, record st { server = s' })
        → Returns o
        → Managed wst s (
            continue
              (wrap failed_to_create_multicluster_manager o)
              (last wst)
              (record st { server = s' }))
    managed wst s s' (ok mgr) h t =
        let answer =
          services.new_init_controller mgr (services.get_target target.meta.name)
            (services.initializer_for_type wst) s' in
        inr (
          mgr,
          λ i. (h i).0,
          subst (λ x. Controlled wst mgr x (last wst mgr (record st { server = s' })))
              (sym (λ i. (h i).1.server)) (controlled wst mgr s' answer.1 answer.0 refl),
        )
    managed wst s s' (err e) h t = inl (
      e,
      λ i. (h i).0,
      λ i. (
        err (wrapped failed_to_create_multicluster_manager e),
        record st { server = (sym h i).1.server },
      ),
    )
    managed wst s s' panicked h t = absurd t

    -- What follows the WorkspaceType.
    abbrev building : ObjectMeta → Action (State S) E (Unit {0})
    building wst =
        wrap_run failed_to_create_multicluster_manager
          (create_multicluster_manager services cfg wst)
        >>= last wst

    building-Managed :
        (wst : ObjectMeta) (s : S) → Managed wst s (building wst (record st { server = s }))
    building-Managed wst s =
        let v = record st { server = s } in
        let made = create_multicluster_manager services cfg wst v in
        let bare = (Bare-create_multicluster_manager services cfg target wst).at v in
        subst
          (λ u.
            Managed wst s
              (continue (wrap failed_to_create_multicluster_manager made.0) (last wst) u))
          (sym bare)
          (managed wst s made.1.server made.0 (λ i. (made.0, bare i))
            ((IsTotal-create_multicluster_manager wst).at v))

    retrieved :
        (o : Outcome E ObjectMeta) (s : S)
        → get_workspace_type services cfg target st ≡ (o, record st { server = s })
        → Returns o
        → Built (
            continue (wrap failed_to_retrieve_workspace_type o) building (record st { server = s }))
    retrieved (ok wst) s h t = inr (
      wst,
      λ i. (h i).0,
      subst (λ x. Managed wst x (building wst (record st { server = s })))
          (sym (λ i. (h i).1.server)) (building-Managed wst s),
    )
    retrieved (err e) s h t = inl (
      e,
      λ i. (h i).0,
      λ i. (
        err (wrapped failed_to_retrieve_workspace_type e),
        record st { server = (sym h i).1.server },
      ),
    )
    retrieved panicked s h t = absurd t

    create_init_controller-Built : Built (create_init_controller services cfg target st)
    unfolding create_init_controller new_init_target_provider
    create_init_controller-Built =
        let typed = get_workspace_type services cfg target st in
        let bare = (Bare-get_workspace_type services cfg target).at st in
        subst (λ u. Built (continue (wrap failed_to_retrieve_workspace_type typed.0) building u))
          (sym bare)
          (retrieved typed.0 typed.1.server (λ i. (typed.0, bare i))
            (IsTotal-get_workspace_type.at st))

  -- A call of ensureInitController does nothing if the table has an entry for the target, and else
  -- it ends as Built says. It never panics.
  pub ensure_init_controller-Built :
      (st : State S)
      → let result = ensure_init_controller services cfg target st in
        ((id : ℕ) × (lookup (get_init_target_key target) st.ctrl_cancels ≡ some id)
          × (result ≡ (ok tt, st)))
        ⊎ ((lookup (get_init_target_key target) st.ctrl_cancels ≡ none) × Built st result)
  unfolding ensure_init_controller
  ensure_init_controller-Built st =
      elim (Option-cases (lookup (get_init_target_key target) st.ctrl_cancels)) [
        | inl absent ↦ inr (absent, rw absent (create_init_controller-Built st))
        | inr (id, present) ↦ inl (id, present, rw present refl)
      ]
