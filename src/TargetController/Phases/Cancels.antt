-- ===== src/TargetController/Phases/Cancels.antt =====
-- A failed manager, a cleanup goroutine and the removal of a target are moves of the view.
use init_agent.Base.{
  ℕ, ◌≡◌, refl, ◌∙◌, ap, true, false, not, ◌&&◌, Option, none, some, List, ◌∷◌, inl, inr, Text,
  text_eq_iff, arith, Bool-cases,
}
use init_agent.Go.Slices.{contains}
use init_agent.Go.Maps.{lookup, delete, lookup-delete}
use init_agent.Sdk.Types.{InitTarget}
use init_agent.TargetController.{
  Context, State, cancel, cancel_entry, cleanup_controller, get_init_target_key,
}
use init_agent.TargetController.Events.{find, mark_reaped, reap_found, reap, manager_failed}
use init_agent.TargetController.Invariant.{Inv, entered_by}
use init_agent.TargetController.Phases.{
  Move, stays, fails, cleans, retires, idle, stopping, entry_phase, update, fleet,
}
use init_agent.TargetController.Phases.Found.{
  owner, find-owner-cancel, find-phase-mark_reaped, find-owner-mark_reaped,
}
use init_agent.TargetController.Phases.Changes.{IsOwned, cancelled_phase, unseen_phase}

module _ {S : Type 0} (gone : List Text) (st : State S) (h : Inv gone st) (o : IsOwned st) where
  -- The entry of a context whose cleanup goroutine has not run and whose target is not gone.
  entry_of :
      (id : ℕ) (c : Context)
      → find id st.started ≡ some c
      → c.reaped ≡ false
      → contains gone c.key ≡ false
      → lookup c.key st.ctrl_cancels ≡ some id
  entry_of id c e u g =
      let (t, same) = entered_by gone st h id c st.started h.tracked e in
      t.entered u g ∙ ap some same

  live_entry :
      (id : ℕ) (c : Context)
      → find id st.started ≡ some c
      → c.cancelled ≡ false
      → lookup c.key st.ctrl_cancels ≡ some id
  live_entry id c e live =
      let (t, same) = entered_by gone st h id c st.started h.tracked e in
      entry_of id c e (ground arith) (ground arith)

  failed_phase :
      (id : ℕ) (c : Context)
      → find id st.started ≡ some c
      → c.cancelled ≡ false
      → (k : Text)
      → entry_phase (cancel id st.started) (lookup k st.ctrl_cancels)
        ≡ update c.key stopping (fleet gone st).phase k
  failed_phase id c e live k = ground (
    arith,
    live_entry id c e live,
    cancelled_phase gone st h o c.key k id (lookup k st.ctrl_cancels) (ap owner e)
        (live_entry id c e live) refl,
    text_eq_iff c.key k,
  )

  failed-Move :
      (id : ℕ) (c : Option Context)
      → find id st.started ≡ c
      → Move (fleet gone st) (fleet gone (manager_failed id st))
  unfolding manager_failed
  failed-Move id none e =
      stays (λ k. unseen_phase gone st h o k id (lookup k st.ctrl_cancels) (rw e refl)) (refl, refl)
  failed-Move id (some c) e = elim (Bool-cases c.cancelled) [
    | inl before ↦
        stays (λ k. unseen_phase gone st h o k id (lookup k st.ctrl_cancels) (rw (e, before) refl))
          (refl, refl)
    | inr live ↦
        let entry = live_entry id c e live in
        fails c.key (rw (entry, e, live) refl) (λ k. failed_phase id c e live k) (refl, refl)
  ]

  pub manager_failed-Move : (id : ℕ) → Move (fleet gone st) (fleet gone (manager_failed id st))
  manager_failed-Move id = failed-Move id (find id st.started) refl

  swept_phase :
      (key k : Text) (id : ℕ) (entry : Option ℕ)
      → lookup k st.ctrl_cancels ≡ entry
      → entry_phase (mark_reaped id st.started) (lookup k (delete key st.ctrl_cancels))
        ≡ update key idle (fleet gone st).phase k
  swept_phase key k id none e = ground (arith, lookup-delete key k st.ctrl_cancels)
  swept_phase key k id (some j) e =
      ground (arith, lookup-delete key k st.ctrl_cancels, find-phase-mark_reaped j id st.started)

  reaped-Move :
      (id : ℕ) (c : Context)
      → find id st.started ≡ some c
      → c.cancelled ≡ true
      → c.reaped ≡ false
      → Move (fleet gone st) (
          fleet gone (record st {
            ctrl_cancels = delete c.key st.ctrl_cancels;
            started = mark_reaped id st.started;
          }))
  reaped-Move id c e k u = elim (Bool-cases (contains gone c.key)) [
    | inl past ↦
        let absent = h.retired c.key past in
        stays
          (λ j.
            swept_phase c.key j id (lookup j st.ctrl_cancels) refl
            ∙ ground (arith, absent, text_eq_iff c.key j))
          (refl, refl)
    | inr present ↦
        let entry = entry_of id c e u present in
        cleans c.key (rw (entry, e, k) refl)
          (λ j. swept_phase c.key j id (lookup j st.ctrl_cancels) refl) (refl, refl)
  ]

  reap_found-Move :
      (id : ℕ) (c : Option Context)
      → find id st.started ≡ c
      → Move (fleet gone st) (fleet gone (reap_found c id st))
  unfolding reap_found
  reap_found-Move id none e = stays (λ k. refl) (refl, refl)
  reap_found-Move id (some c) e = elim (Bool-cases (c.cancelled && not c.reaped)) [
    | inl due ↦ rw due (reaped-Move id c e (ground arith) (ground arith))
    | inr waits ↦ rw waits (stays (λ k. refl) (refl, refl))
  ]

  pub reap-Move : (id : ℕ) → Move (fleet gone st) (fleet gone (reap id st))
  unfolding reap
  reap-Move id = reap_found-Move id (find id st.started) refl

  reap_found-IsOwned : (id : ℕ) (c : Option Context) → IsOwned (reap_found c id st)
  unfolding reap_found
  reap_found-IsOwned id none = o
  reap_found-IsOwned id (some c) = elim (Bool-cases (c.cancelled && not c.reaped)) [
    | inl due ↦ rw due (record {
      owned = λ k j e.
          find-owner-mark_reaped j id st.started
          ∙ o.owned k j (ground (arith, lookup-delete c.key k st.ctrl_cancels));
    })
    | inr waits ↦ rw waits o
  ]

  pub reap-IsOwned : (id : ℕ) → IsOwned (reap id st)
  unfolding reap
  reap-IsOwned id = reap_found-IsOwned id (find id st.started)

  retired_phase :
      (key k : Text) (id : ℕ) (entry : Option ℕ)
      → lookup key st.ctrl_cancels ≡ some id
      → lookup k st.ctrl_cancels ≡ entry
      → entry_phase (cancel id st.started) (lookup k (delete key st.ctrl_cancels))
        ≡ update key idle (fleet gone st).phase k
  retired_phase key k id entry f e = ground (
    arith,
    lookup-delete key k st.ctrl_cancels,
    cancelled_phase gone st h o key k id entry (o.owned key id f) f e,
  )

  cancel_entry-Move :
      (key : Text) (entry : Option ℕ)
      → lookup key st.ctrl_cancels ≡ entry
      → Move (fleet gone st) (fleet (key ∷ gone) (cancel_entry key entry st))
  unfolding cancel_entry
  cancel_entry-Move key none e = retires key (λ k. ground (arith, text_eq_iff key k)) refl refl
  cancel_entry-Move key (some id) e =
      retires key (λ k. retired_phase key k id (lookup k st.ctrl_cancels) e refl) refl refl

  cancel_entry-IsOwned : (key : Text) (entry : Option ℕ) → IsOwned (cancel_entry key entry st)
  unfolding cancel_entry
  cancel_entry-IsOwned key none = o
  cancel_entry-IsOwned key (some id) = record {
    owned = λ k j e.
        find-owner-cancel j id st.started
        ∙ o.owned k j (ground (arith, lookup-delete key k st.ctrl_cancels));
  }

  pub cleanup_controller-Move :
      (target : InitTarget)
      → Move
          (fleet gone st)
          (fleet (get_init_target_key target ∷ gone) (cleanup_controller target st))
  unfolding cleanup_controller
  cleanup_controller-Move target = cancel_entry-Move (get_init_target_key target) _ refl

  pub cleanup_controller-IsOwned : (target : InitTarget) → IsOwned (cleanup_controller target st)
  unfolding cleanup_controller
  cleanup_controller-IsOwned target = cancel_entry-IsOwned (get_init_target_key target) _
