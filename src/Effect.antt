-- ===== src/Effect.antt =====
-- Errors, outcomes and the effects that the reconciler has on a kcp server.
pub mod Laws
pub mod Quiet
pub mod Ends
pub mod Errors
use init_agent.Base.{ℕ, suc, Bool, true, false, Option, none, some, List, [], ◌∷◌, Text}

-- The places where the code wraps an error with fmt.Errorf, or makes one with errors.New.
pub data Site : Type 0 where
  failed_to_get_cluster failed_to_retrieve_logicalcluster failed_to_get_init_target : Site
  failed_to_initialize_source failed_to_render_source failed_to_apply_source : ℕ → Site
  failed_to_remove_initializer failed_to_parse_template failed_to_execute_template : Site
  failed_to_decode_yaml failed_to_register_scheme no_known_source : Site
  failed_to_retrieve_workspace_type failed_to_create_client : Site
  failed_to_create_manager failed_to_create_provider : Site
  failed_to_create_multicluster_manager failed_to_create_init_controller : Site
  failed_to_setup_source_factory failed_to_setup_local_manager failed_to_register_local_scheme :
      Site
  failed_to_add_targetcontroller apply_configuration_required name_required burst_required : Site

-- An error of a library, one of the agent's own, or an error wrapped by `%w`.
pub data Error (E : Type 0) : Type 0 where
  external : E → Error E
  plain : Site → Error E
  wrapped : Site → Error E → Error E

-- A call returns, returns an error, or panics.
pub data Outcome (E A : Type 0) : Type 0 where
  ok : A → Outcome E A
  err : Error E → Outcome E A
  panicked : Outcome E A

-- `return fmt.Errorf("…: %w", err)` on an error.
abbrev pub wrap : {E A : Type 0} → Site → Outcome E A → Outcome E A
wrap s (ok a) = ok a
wrap s (err e) = err (wrapped s e)
wrap s panicked = panicked

-- A request that changes the server, with the error that it returned, or an event recorded.
pub data Call (Object E : Type 0) : Type 0 where
  created : Object → Option E → Call Object E
  patched : List Text → Option E → Call Object E
  event_recorded : Error E → Call Object E

-- The server, and the calls made so far, the last one first.
pub record World (Object E S : Type 0) : Type 0 where
  pub server : S
  pub calls : List (Call Object E)

-- Code over a state `W`: what was done before an error stays done.
abbrev pub Action : (W E A : Type 0) → Type 0
Action W E A = W → Outcome E A × W

-- An action of one reconciliation.
abbrev pub Run : (Object E S A : Type 0) → Type 0
Run Object E S A = Action (World Object E S) E A

module _ {W E : Type 0} where
  abbrev pub pure : {A : Type 0} → A → Action W E A
  pure a w = (ok a, w)

  abbrev pub raise : {A : Type 0} → Error E → Action W E A
  raise e w = (err e, w)

  -- The result of code that makes no call.
  abbrev pub lift : {A : Type 0} → Outcome E A → Action W E A
  lift r w = (r, w)

  abbrev pub wrap_run : {A : Type 0} → Site → Action W E A → Action W E A
  wrap_run s m w = let (r, w') = m w in (wrap s r, w')

  -- What follows a call: an error or a panic ends the function.
  abbrev pub continue : {A B : Type 0} → Outcome E A → (A → Action W E B) → Action W E B
  continue (ok a) f w = f a w
  continue (err e) f w = (err e, w)
  continue panicked f w = (panicked, w)

  infixl 5 ◌>>=◌
  abbrev pub ◌>>=◌ : {A B : Type 0} → Action W E A → (A → Action W E B) → Action W E B
  ◌>>=◌ m f w = let (r, w') = m w in continue r f w'

module _ {Object E S : Type 0} where
  -- One request to the server that the log does not keep, since the agent changes nothing by it.
  abbrev pub query : {A : Type 0} → (S → A × S) → Run Object E S A
  query q w = let (a, s) = q w.server in (ok a, record w { server = s })

  -- One request that changes the server: the call and its error are logged.
  abbrev pub request : (S → Option E × S) → (Option E → Call Object E) → Run Object E S (Option E)
  request q call w =
      let (e, s) = q w.server in (ok e, record { server = s; calls = call e ∷ w.calls })

-- What follows code that makes no call.
infixl 5 ◌&>>=◌
abbrev pub ◌&>>=◌ : {E A B : Type 0} → Outcome E A → (A → Outcome E B) → Outcome E B
ok a &>>= f = f a
err e &>>= f = err e
panicked &>>= f = panicked
