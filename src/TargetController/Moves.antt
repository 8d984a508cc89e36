-- ===== src/TargetController/Moves.antt =====
-- What ensureInitController does to the table of running controllers: nothing, or one start.
use init_agent.Base.{◌≡◌, refl, ◌∙◌, ap, Option, none, some, ◌⊎◌, inl, inr, Text, Option-cases}
use init_agent.Go.Maps.{lookup}
use init_agent.Kcp.Rest.{RestConfig}
use init_agent.Effect.{
  Site, Error, Outcome, ok, err, panicked, Action, pure, raise, wrap_run, continue, ◌>>=◌,
}
use init_agent.Sdk.Types.{ObjectMeta, InitTarget}
use init_agent.Remote.{Fetched, found, failed}
use init_agent.TargetController.{
  Services, State, ask, or_wrapped, fetched_or_raise, manager_or_wrapped, get_workspace_type,
  create_multicluster_manager, start_controller, started_controller, create_init_controller,
  get_init_target_key, ensure_init_controller,
}

-- An action that changes the servers alone.
pub record Bare {E S A : Type 0} (m : Action (State S) E A) : Type 0 where
  pub at : (st : State S) → (m st).1 ≡ record st { server = (m st).1.server }

-- The servers change, and a controller is started for the key or not.
abbrev pub Moved : {S : Type 0} → Text → State S → State S → Type 0
Moved key st st' =
    (st' ≡ record st { server = st'.server })
    ⊎ (st' ≡ start_controller key (record st { server = st'.server }))

pub record Starts {E S A : Type 0} (key : Text) (m : Action (State S) E A) : Type 0 where
  pub at : (st : State S) → Moved key st (m st).1

module _ {E S A : Type 0} where
  Bare-pure : (a : A) → Bare {E = E} {S = S} (pure a)
  Bare-pure a = record { at = λ st. refl }

  Bare-raise : (e : Error E) → Bare {S = S} {A = A} (raise e)
  Bare-raise e = record { at = λ st. refl }

  Bare-ask : (q : S → A × S) → Bare {E = E} (ask q)
  Bare-ask q = record { at = λ st. refl }

  Bare-wrap_run : (s : Site) (m : Action (State S) E A) → Bare m → Bare (wrap_run s m)
  Bare-wrap_run s m h = record { at = λ st. h.at st }

module _ {E S A B : Type 0} where
  Bare-continue :
      (r : Outcome E A) (f : A → Action (State S) E B) (st st₁ : State S)
      → st₁ ≡ record st { server = st₁.server }
      → ((a : A) → Bare (f a))
      → (continue r f st₁).1 ≡ record st { server = (continue r f st₁).1.server }
  Bare-continue (ok a) f st st₁ h k =
      (k a).at st₁ ∙ ap (λ (t : State S). record t { server = (f a st₁).1.server }) h
  Bare-continue (err e) f st st₁ h k = h
  Bare-continue panicked f st st₁ h k = h

  Bare->>= :
      (m : Action (State S) E A) (f : A → Action (State S) E B)
      → Bare m
      → ((a : A) → Bare (f a))
      → Bare (m >>= f)
  Bare->>= m f h k = record { at = λ st. Bare-continue (m st).0 f st (m st).1 (h.at st) k }

  Starts-continue :
      (key : Text) (r : Outcome E A) (f : A → Action (State S) E B) (st st₁ : State S)
      → st₁ ≡ record st { server = st₁.server }
      → ((a : A) → Starts key (f a))
      → Moved key st (continue r f st₁).1
  Starts-continue key (ok a) f st st₁ h k = elim ((k a).at st₁) [
    | inl e ↦ inl (e ∙ ap (λ (t : State S). record t { server = (f a st₁).1.server }) h)
    | inr e ↦ inr (
        e ∙ ap (λ (t : State S). start_controller key (record t { server = (f a st₁).1.server })) h)
  ]
  Starts-continue key (err e) f st st₁ h k = inl h
  Starts-continue key panicked f st st₁ h k = inl h

  Starts->>= :
      (key : Text) (m : Action (State S) E A) (f : A → Action (State S) E B)
      → Bare m
      → ((a : A) → Starts key (f a))
      → Starts key (m >>= f)
  Starts->>= key m f h k = record {
    at = λ st. Starts-continue key (m st).0 f st (m st).1 (h.at st) k;
  }

module _ {E S : Type 0} where
  Bare-or_wrapped : (s : Site) (e : Option E) → Bare {S = S} (or_wrapped s e)
  unfolding or_wrapped
  Bare-or_wrapped s none = Bare-pure tt
  Bare-or_wrapped s (some e) = Bare-raise _

  Bare-fetched_or_raise : {A : Type 0} (f : Fetched E A) → Bare {S = S} (fetched_or_raise f)
  unfolding fetched_or_raise
  Bare-fetched_or_raise (found a) = Bare-pure a
  Bare-fetched_or_raise (failed e) = Bare-raise _

  Bare-manager_or_wrapped : {M : Type 0} (f : Fetched E M) → Bare {S = S} (manager_or_wrapped f)
  unfolding manager_or_wrapped
  Bare-manager_or_wrapped (found a) = Bare-pure a
  Bare-manager_or_wrapped (failed e) = Bare-raise _

  Starts-started_controller : (key : Text) → Starts {E = E} {S = S} key (started_controller key)
  unfolding started_controller
  Starts-started_controller key = record { at = λ st. inr refl }

ruleset bare_rules = (
  Bare-pure, Bare-raise, Bare-ask, Bare-wrap_run, Bare->>=, Bare-or_wrapped, Bare-fetched_or_raise,
  Bare-manager_or_wrapped,
)

module _ {E S M R : Type 0} (services : Services E S M R) (cfg : RestConfig R)
    (target : InitTarget) where
  pub Bare-get_workspace_type : Bare (get_workspace_type services cfg target)
  unfolding get_workspace_type
  Bare-get_workspace_type = search bare_rules

  pub Bare-create_multicluster_manager :
      (wst : ObjectMeta) → Bare (create_multicluster_manager services cfg wst)
  unfolding create_multicluster_manager
  Bare-create_multicluster_manager wst = search bare_rules depth 9

  Starts-create_init_controller :
      Starts (get_init_target_key target) (create_init_controller services cfg target)
  unfolding create_init_controller
  Starts-create_init_controller = search (
    bare_rules, Starts->>=, Starts-started_controller, Bare-get_workspace_type,
    Bare-create_multicluster_manager,
  )

  -- A call of ensureInitController changes the servers alone, or it starts one controller, and
  -- then the key had no entry.
  pub ensure_init_controller-Moved :
      (st : State S)
      → ((ensure_init_controller services cfg target st).1
          ≡ record st { server = (ensure_init_controller services cfg target st).1.server })
        ⊎ ((lookup (get_init_target_key target) st.ctrl_cancels ≡ none)
            × ((ensure_init_controller services cfg target st).1
                ≡ start_controller (get_init_target_key target) (record st {
                  server = (ensure_init_controller services cfg target st).1.server;
                })))
  unfolding ensure_init_controller
  ensure_init_controller-Moved st =
      elim (Option-cases (lookup (get_init_target_key target) st.ctrl_cancels)) [
        | inl absent ↦
            rw absent
              (elim (Starts-create_init_controller.at st) [ inl e ↦ inl e | inr e ↦ inr (refl, e) ])
        | inr (id, present) ↦ rw present (inl refl)
      ]
