-- ===== src/TargetController/Invariant.antt =====
-- In every reachable state at most one live controller runs for each InitTarget.
use init_agent.Base.{
  ℕ, ◌≡◌, refl, ◌∙◌, ap, true, false, not, ◌&&◌, Option, none, some, List, [], ◌∷◌, inl, inr, All,
  Text, text_eq_iff, text_eq_refl, length, arith, Bool-cases,
}
use init_agent.Go.Slices.{contains}
use init_agent.Go.Maps.{lookup, delete, lookup-insert, lookup-delete}
use init_agent.Kcp.Rest.{RestConfig}
use init_agent.Sdk.Types.{InitTarget}
use init_agent.TargetController.{
  Context, State, Services, cancel_entry, cleanup_controller, start_controller, get_init_target_key,
  ensure_init_controller,
}
use init_agent.TargetController.Events.{
  Event, cleaned, ended, stopped, changed, happens, background, find, mark_reaped, reap_found, reap,
  manager_failed, shutdown,
}
use init_agent.TargetController.Tracked.{
  IsTracked, AllTracked, IsNumbered, cancel-AllTracked, cancel_all-AllTracked, insert-AllTracked,
  retire-AllTracked, retire_absent-AllTracked, reap-AllTracked, cancel-IsNumbered,
  cancel_all-IsNumbered, mark_reaped-IsNumbered, find_lem,
}
use init_agent.TargetController.Moves.{ensure_init_controller-Moved}

pub record Inv {S : Type 0} (gone : List Text) (st : State S) : Type 0 where
  pub tracked : AllTracked st.ctrl_cancels gone st.started
  pub numbered : IsNumbered st.started
  pub retired : (key : Text) → contains gone key ≡ true → lookup key st.ctrl_cancels ≡ none

module _ {S : Type 0} (gone : List Text) (st : State S) (h : Inv gone st) where
  pub server-Inv : (s : S) → Inv gone (record st { server = s })
  server-Inv s = record { tracked = h.tracked; numbered = h.numbered; retired = h.retired }

  pub start_controller-Inv :
      (key : Text)
      → lookup key st.ctrl_cancels ≡ none
      → contains gone key ≡ false
      → Inv gone (start_controller key st)
  unfolding start_controller
  start_controller-Inv key n g = record {
    tracked = (
      ground (arith, lookup-insert key key (length st.started) st.ctrl_cancels, text_eq_refl key),
      insert-AllTracked key (length st.started) st.ctrl_cancels gone st.started n h.tracked,
    );
    numbered = (refl, h.numbered);
    retired = λ j r. ground (
      arith,
      lookup-insert key j (length st.started) st.ctrl_cancels,
      text_eq_iff key j,
      h.retired j r,
    );
  }

  pub manager_failed-Inv : (id : ℕ) → Inv gone (manager_failed id st)
  unfolding manager_failed
  manager_failed-Inv id = record {
    tracked = cancel-AllTracked id st.ctrl_cancels gone st.started h.tracked;
    numbered = cancel-IsNumbered id st.started h.numbered;
    retired = h.retired;
  }

  pub shutdown-Inv : Inv gone (shutdown st)
  unfolding shutdown
  shutdown-Inv = record {
    tracked = cancel_all-AllTracked st.ctrl_cancels gone st.started h.tracked;
    numbered = cancel_all-IsNumbered st.started h.numbered;
    retired = h.retired;
  }

  cancel_entry-Inv :
      (key : Text) (entry : Option ℕ)
      → lookup key st.ctrl_cancels ≡ entry
      → Inv (key ∷ gone) (cancel_entry key entry st)
  unfolding cancel_entry contains
  cancel_entry-Inv key none e = record {
    tracked = retire_absent-AllTracked key st.ctrl_cancels gone st.started e h.tracked;
    numbered = h.numbered;
    retired = λ j r. ground (arith, text_eq_iff key j, h.retired j);
  }
  cancel_entry-Inv key (some id) e = record {
    tracked = retire-AllTracked key id st.ctrl_cancels gone st.started e h.tracked;
    numbered = cancel-IsNumbered id st.started h.numbered;
    retired = λ j r. ground (arith, lookup-delete key j st.ctrl_cancels, h.retired j);
  }

  pub cleanup_controller-Inv :
      (target : InitTarget) → Inv (get_init_target_key target ∷ gone) (cleanup_controller target st)
  unfolding cleanup_controller
  cleanup_controller-Inv target = cancel_entry-Inv (get_init_target_key target) _ refl

  pub entered_by :
      (id : ℕ) (c : Context) (cs : List Context)
      → AllTracked st.ctrl_cancels gone cs
      → find id cs ≡ some c
      → IsTracked st.ctrl_cancels gone c × (c.id ≡ id)
  unfolding find
  entered_by id c [] t e = cc
  entered_by id c (d ∷ cs) t e = ground (arith, entered_by id c cs)

  All-cancelled :
      (id : ℕ) (c : Context) (cs : List Context)
      → c.cancelled ≡ true
      → All (λ d. d.id ≡ id → d ≡ c) cs
      → All (λ d. d.id ≡ id → d.cancelled ≡ true) cs
  All-cancelled id c [] k a = tt
  All-cancelled id c (d ∷ cs) k a =
      (λ p. ap (λ (x : Context). x.cancelled) (a.0 p) ∙ k, All-cancelled id c cs k a.1)

  reaped-Inv :
      (id : ℕ) (c : Context)
      → find id st.started ≡ some c
      → c.cancelled ≡ true
      → c.reaped ≡ false
      → Inv gone (record st {
        ctrl_cancels = delete c.key st.ctrl_cancels;
        started = mark_reaped id st.started;
      })
  reaped-Inv id c e k u =
      let (t, i) = entered_by id c st.started h.tracked e in
      record {
        tracked =
            reap-AllTracked c.key id st.ctrl_cancels gone st.started
              (λ g. t.entered u g ∙ ap some i) h.tracked
              (All-cancelled id c st.started k (find_lem id st.started h.numbered e));
        numbered = mark_reaped-IsNumbered id st.started h.numbered;
        retired = λ j r. ground (arith, lookup-delete c.key j st.ctrl_cancels, h.retired j);
      }

  reap_found-Inv :
      (id : ℕ) (found_context : Option Context)
      → find id st.started ≡ found_context
      → Inv gone (reap_found found_context id st)
  unfolding reap_found
  reap_found-Inv id none e = h
  reap_found-Inv id (some c) e = elim (Bool-cases (c.cancelled && not c.reaped)) [
    | inl due ↦ rw due (reaped-Inv id c e (ground arith) (ground arith))
    | inr waits ↦ rw waits h
  ]

  pub reap-Inv : (id : ℕ) → Inv gone (reap id st)
  unfolding reap
  reap-Inv id = reap_found-Inv id (find id st.started) refl

module _ {E S M R : Type 0} (services : Services E S M R) (cfg : RestConfig R) where
  pub ensure_init_controller-Inv :
      (target : InitTarget) (gone : List Text) (st : State S)
      → contains gone (get_init_target_key target) ≡ false
      → Inv gone st
      → Inv gone (ensure_init_controller services cfg target st).1
  ensure_init_controller-Inv target gone st g h =
      let key = get_init_target_key target in
      let s = (ensure_init_controller services cfg target st).1.server in
      elim (ensure_init_controller-Moved services cfg target st) [
        | inl same ↦ rw same (server-Inv gone st h s)
        | inr (absent, made) ↦ rw made (
            start_controller-Inv gone (record st { server = s }) (server-Inv gone st h s) key absent
              g)
      ]

module _ {S : Type 0} (gone : List Text) where
  pub happens-Inv : (event : Event S) (st : State S) → Inv gone st → Inv gone (happens event st)
  unfolding happens
  happens-Inv (cleaned id) st h = reap-Inv gone st h id
  happens-Inv (ended id) st h = manager_failed-Inv gone st h id
  happens-Inv stopped st h = shutdown-Inv gone st h
  happens-Inv (changed s) st h = server-Inv gone st h s

  pub background-Inv :
      (events : List (Event S)) (st : State S) → Inv gone st → Inv gone (background events st)
  unfolding background
  background-Inv [] st h = h
  background-Inv (event ∷ events) st h =
      background-Inv events (happens event st) (happens-Inv event st h)

module _ {S : Type 0} (key : Text) where
  reap_found-absent :
      (found_context : Option Context) (id : ℕ) (st : State S)
      → lookup key st.ctrl_cancels ≡ none
      → lookup key (reap_found found_context id st).ctrl_cancels ≡ none
  unfolding reap_found
  reap_found-absent none id st n = n
  reap_found-absent (some c) id st n = ground (arith, lookup-delete c.key key st.ctrl_cancels)

  happens-absent :
      (event : Event S) (st : State S)
      → lookup key st.ctrl_cancels ≡ none
      → lookup key (happens event st).ctrl_cancels ≡ none
  unfolding happens reap manager_failed shutdown
  happens-absent (cleaned id) st n = reap_found-absent (find id st.started) id st n
  happens-absent (ended id) st n = n
  happens-absent stopped st n = n
  happens-absent (changed s) st n = n

  -- No event makes an entry.
  pub background-absent :
      (events : List (Event S)) (st : State S)
      → lookup key st.ctrl_cancels ≡ none
      → lookup key (background events st).ctrl_cancels ≡ none
  unfolding background
  background-absent [] st n = n
  background-absent (event ∷ events) st n =
      background-absent events (happens event st) (happens-absent event st n)
