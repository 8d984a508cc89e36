-- ===== src/TargetController/Phases/Changes.antt =====
-- The entries of the map hold contexts of their keys; a start and a shutdown are moves of the view.
use init_agent.Base.{
  ℕ, ◌<◌, ◌≡◌, refl, ◌∙◌, false, Option, none, some, List, [], ◌∷◌, Text, if◌then◌else◌, text_eq,
  text_eq_iff, length, arith, ==_iff,
}
use init_agent.Go.Slices.{contains}
use init_agent.Go.Maps.{lookup, lookup-insert}
use init_agent.TargetController.{Context, State, cancel, start_controller}
use init_agent.TargetController.Events.{find, cancel_all, manager_failed, shutdown}
use init_agent.TargetController.Tracked.{IsNumbered}
use init_agent.TargetController.Invariant.{Inv}
use init_agent.TargetController.Phases.{
  Move, starts, closes, phase_of, entry_phase, wound_down, first_phase, update, fleet,
}
use init_agent.TargetController.Phases.Found.{
  owner, find-phase-cancel, find-owner-cancel, find-phase-cancel_all, find-owner-cancel_all,
}

-- Every entry of the map holds a context of its key.
pub record IsOwned {S : Type 0} (st : State S) : Type 0 where
  pub owned :
      (key : Text) (id : ℕ)
      → lookup key st.ctrl_cancels ≡ some id
      → owner (find id st.started) ≡ some key

find_below :
    (id : ℕ) (cs : List Context) (key : Text)
    → IsNumbered cs
    → owner (find id cs) ≡ some key
    → id < length cs
unfolding find
find_below id [] key n e = cc
find_below id (c ∷ cs) key n e = ground (arith, find_below id cs key n.1)

module _ {S : Type 0} (gone : List Text) (st : State S) (h : Inv gone st) (o : IsOwned st) where
  pub start_controller-IsOwned : (key : Text) → IsOwned (start_controller key st)
  unfolding start_controller find
  start_controller-IsOwned key = record {
    owned = λ k id e. ground (
      arith,
      lookup-insert key k (length st.started) st.ctrl_cancels,
      text_eq_iff key k,
      o.owned k id,
      find_below id st.started k h.numbered,
    );
  }

  started_phase :
      (key k : Text) (entry : Option ℕ)
      → lookup k st.ctrl_cancels ≡ entry
      → (fleet gone (start_controller key st)).phase k
        ≡ update key (first_phase st.root_cancelled) (fleet gone st).phase k
  unfolding start_controller find
  started_phase key k none e =
      ground (arith, lookup-insert key k (length st.started) st.ctrl_cancels)
  started_phase key k (some id) e =
      let below = find_below id st.started k h.numbered (o.owned k id e) in
      ground (arith, lookup-insert key k (length st.started) st.ctrl_cancels, below)

  pub start_controller-Move :
      (key : Text)
      → lookup key st.ctrl_cancels ≡ none
      → contains gone key ≡ false
      → Move (fleet gone st) (fleet gone (start_controller key st))
  start_controller-Move key n g =
      starts key (rw n) g (λ k. started_phase key k _ refl)
        (unfold start_controller in (refl, refl))

  -- Contexts that are cancelled or cleaned up stay with their owners.
  pub manager_failed-IsOwned : (id : ℕ) → IsOwned (manager_failed id st)
  unfolding manager_failed
  manager_failed-IsOwned id = record {
    owned = λ k j e. find-owner-cancel j id st.started ∙ o.owned k j e;
  }

  pub shutdown-IsOwned : IsOwned (shutdown st)
  unfolding shutdown
  shutdown-IsOwned = record { owned = λ k j e. find-owner-cancel_all j st.started ∙ o.owned k j e }

  closed_phase :
      (k : Text) (entry : Option ℕ)
      → entry_phase (cancel_all st.started) entry ≡ wound_down (entry_phase st.started entry)
  closed_phase k none = refl
  closed_phase k (some j) = find-phase-cancel_all j st.started

  pub shutdown-Move : Move (fleet gone st) (fleet gone (shutdown st))
  unfolding shutdown
  shutdown-Move = closes (λ k. closed_phase k (lookup k st.ctrl_cancels)) refl refl

  -- The phases after one context was cancelled: only its owner's changes.
  pub cancelled_phase :
      (key k : Text) (id : ℕ) (entry : Option ℕ)
      → owner (find id st.started) ≡ some key
      → lookup key st.ctrl_cancels ≡ some id
      → lookup k st.ctrl_cancels ≡ entry
      → entry_phase (cancel id st.started) entry ≡ (
          if text_eq key k
          then wound_down (entry_phase st.started entry)
          else entry_phase st.started entry)
  cancelled_phase key k id none w f e = ground arith
  cancelled_phase key k id (some j) w f e =
      ground (arith, find-phase-cancel j id st.started, text_eq_iff key k, o.owned k j e)

  -- A context without an entry, or one that was cancelled before: nothing is seen.
  pub unseen_phase :
      (k : Text) (id : ℕ) (entry : Option ℕ)
      → wound_down (phase_of (find id st.started)) ≡ phase_of (find id st.started)
      → entry_phase (cancel id st.started) entry ≡ entry_phase st.started entry
  unseen_phase k id none w = refl
  unseen_phase k id (some j) w = ground (arith, find-phase-cancel j id st.started, ==_iff j id)
