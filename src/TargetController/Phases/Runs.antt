-- ===== src/TargetController/Phases/Runs.antt =====
-- Every reachable state of the target controller is one that moves of the view reach.
use init_agent.Base.{◌≡◌, false, none, List, [], ◌∷◌, inl, inr, Text}
use init_agent.Go.Slices.{contains}
use init_agent.Go.Maps.{lookup}
use init_agent.Kcp.Rest.{RestConfig}
use init_agent.Sdk.Types.{InitTarget}
use init_agent.TargetController.{
  State, Services, start_controller, get_init_target_key, ensure_init_controller,
}
use init_agent.TargetController.Events.{
  Event, cleaned, ended, stopped, changed, happens, background,
}
use init_agent.TargetController.Invariant.{
  Inv, server-Inv, happens-Inv, background-Inv, background-absent,
}
use init_agent.TargetController.Moves.{ensure_init_controller-Moved}
use init_agent.TargetController.Reachable.{
  Step, ensured, interrupted, deleted, missed, elsewhere, reconcile_target-ensures,
  reconcile_target-cleans, reconcile_target-fails,
}
use init_agent.TargetController.Phases.{Fleet, Moves, also, fleet}
use init_agent.TargetController.Phases.Changes.{
  IsOwned, start_controller-IsOwned, start_controller-Move, manager_failed-IsOwned,
  shutdown-IsOwned, shutdown-Move,
}
use init_agent.TargetController.Phases.Cancels.{
  manager_failed-Move, reap-Move, reap-IsOwned, cleanup_controller-Move, cleanup_controller-IsOwned,
}

-- A state whose view the moves reach from the view `a`.
pub record IsSeen {S : Type 0} (a : Fleet) (gone : List Text) (st : State S) : Type 0 where
  pub owns : IsOwned st
  pub reached : Moves a (fleet gone st)

module _ {S : Type 0} (a : Fleet) (gone : List Text) where
  server-IsSeen :
      (s : S) (st : State S) → IsSeen a gone st → IsSeen a gone (record st { server = s })
  server-IsSeen s st v = record { owns = record { owned = v.owns.owned }; reached = v.reached }

  happens-IsSeen :
      (event : Event S) (st : State S)
      → Inv gone st
      → IsSeen a gone st
      → IsSeen a gone (happens event st)
  unfolding happens
  happens-IsSeen (cleaned id) st h v = record {
    owns = reap-IsOwned gone st h v.owns id;
    reached = also v.reached (reap-Move gone st h v.owns id);
  }
  happens-IsSeen (ended id) st h v = record {
    owns = manager_failed-IsOwned gone st h v.owns id;
    reached = also v.reached (manager_failed-Move gone st h v.owns id);
  }
  happens-IsSeen stopped st h v = record {
    owns = shutdown-IsOwned gone st h v.owns;
    reached = also v.reached (shutdown-Move gone st h v.owns);
  }
  happens-IsSeen (changed s) st h v = server-IsSeen s st v

  background-IsSeen :
      (events : List (Event S)) (st : State S)
      → Inv gone st
      → IsSeen a gone st
      → IsSeen a gone (background events st)
  unfolding background
  background-IsSeen [] st h v = v
  background-IsSeen (event ∷ events) st h v =
      background-IsSeen events (happens event st) (happens-Inv gone event st h)
        (happens-IsSeen event st h v)

  start_controller-IsSeen :
      (key : Text) (st : State S)
      → Inv gone st
      → lookup key st.ctrl_cancels ≡ none
      → contains gone key ≡ false
      → IsSeen a gone st
      → IsSeen a gone (start_controller key st)
  start_controller-IsSeen key st h n g v = record {
    owns = start_controller-IsOwned gone st h v.owns key;
    reached = also v.reached (start_controller-Move gone st h v.owns key n g);
  }

module _ {E S M R : Type 0} (services : Services E S M R) (cfg : RestConfig R) (a : Fleet) where
  ensure_init_controller-IsSeen :
      (target : InitTarget) (gone : List Text) (st : State S)
      → contains gone (get_init_target_key target) ≡ false
      → Inv gone st
      → IsSeen a gone st
      → IsSeen a gone (ensure_init_controller services cfg target st).1
  ensure_init_controller-IsSeen target gone st g h v =
      let s = (ensure_init_controller services cfg target st).1.server in
      let begun = record st { server = s } in
      elim (ensure_init_controller-Moved services cfg target st) [
        | inl same ↦ rw same (server-IsSeen a gone s st v)
        | inr (absent, made) ↦ rw made (
            start_controller-IsSeen a gone (get_init_target_key target) begun
              (server-Inv gone st h s) absent g (server-IsSeen a gone s st v))
      ]

  pub Step-IsSeen :
      {gone : List Text} {st : State S} {gone' : List Text} {st' : State S}
      → Step services cfg gone st gone' st'
      → Inv gone st
      → IsSeen a gone st
      → IsSeen a gone' st'
  Step-IsSeen {gone} {st} (ensured name target s e d g p q) h v =
      rw (p, q, reconcile_target-ensures services cfg name st target s e d)
        (ensure_init_controller-IsSeen target gone (record st { server = s }) g
          (server-Inv gone st h s) (server-IsSeen a gone s st v))
  Step-IsSeen {gone} {st} (interrupted name target s s' events e d g n p q) h v =
      let key = get_init_target_key target in
      let begun = record st { server = s } in
      let went = background events begun in
      let valid = background-Inv gone events begun (server-Inv gone st h s) in
      let seen =
        background-IsSeen a gone events begun (server-Inv gone st h s)
          (server-IsSeen a gone s st v) in
      rw (p, q)
        (start_controller-IsSeen a gone key (record went { server = s' })
          (server-Inv gone went valid s') (background-absent key events begun n) g
          (server-IsSeen a gone s' went seen))
  Step-IsSeen {gone} {st} (deleted name target s t e d p q) h v =
      let begun = record st { server = s } in
      let valid = server-Inv gone st h s in
      let seen = server-IsSeen a gone s st v in
      rw (p, q, reconcile_target-cleans services cfg name st target s t e d)
        (record {
          owns = cleanup_controller-IsOwned gone begun valid seen.owns target;
          reached = also seen.reached (cleanup_controller-Move gone begun valid seen.owns target);
        })
  Step-IsSeen {gone} {st} (missed name e s f p q) h v =
      rw (p, q, reconcile_target-fails services cfg name st e s f) (server-IsSeen a gone s st v)
  Step-IsSeen {gone} {st} (elsewhere event p q) h v = rw (p, q) (happens-IsSeen a gone event st h v)
