-- ===== src/TargetController/Phases.antt =====
-- The target controller seen from outside: for each InitTarget, by its key, whether its controller
-- is idle, runs, or was cancelled and waits for its cleanup goroutine. The numbers of the contexts,
-- their order and those that no entry of the map holds are forgotten.
pub mod Found
pub mod Changes
pub mod Cancels
pub mod Runs
pub mod Refines
use init_agent.Base.{
  ℕ, ◌≡◌, Bool, true, false, Option, none, some, List, ◌∷◌, Text, text_eq, if◌then◌else◌,
}
use init_agent.Go.Slices.{contains}
use init_agent.Go.Maps.{lookup}
use init_agent.TargetController.{Context, State}
use init_agent.TargetController.Events.{find}

pub data Phase : Type 0 where
  idle running stopping : Phase

-- `gone` has the keys of the targets that were seen with a deletion timestamp; `closed` says
-- whether the agent shuts down.
pub record Fleet : Type 0 where
  pub phase : Text → Phase
  pub gone : List Text
  pub closed : Bool

abbrev pub update : Text → Phase → (Text → Phase) → Text → Phase
update key p f k = if text_eq key k then p else f k

abbrev pub wound_down : Phase → Phase
wound_down idle = idle
wound_down running = stopping
wound_down stopping = stopping

-- A controller that is started after the shutdown began is cancelled from the start.
abbrev pub first_phase : Bool → Phase
first_phase true = stopping
first_phase false = running

abbrev pub Keeps : Fleet → Fleet → Type 0
Keeps a b = (b.gone ≡ a.gone) × (b.closed ≡ a.closed)

-- What may happen: an idle target that is not gone gets a controller; a controller that runs fails;
-- one that was cancelled is cleaned up; a target is deleted, and its controller is let go; all
-- controllers stop.
pub data Move (a b : Fleet) : Type 0 where
  stays : ((k : Text) → b.phase k ≡ a.phase k) → Keeps a b → Move a b
  starts :
      (key : Text)
      → a.phase key ≡ idle
      → contains a.gone key ≡ false
      → ((k : Text) → b.phase k ≡ update key (first_phase a.closed) a.phase k)
      → Keeps a b
      → Move a b
  fails :
      (key : Text)
      → a.phase key ≡ running
      → ((k : Text) → b.phase k ≡ update key stopping a.phase k)
      → Keeps a b
      → Move a b
  cleans :
      (key : Text)
      → a.phase key ≡ stopping
      → ((k : Text) → b.phase k ≡ update key idle a.phase k)
      → Keeps a b
      → Move a b
  retires :
      (key : Text)
      → ((k : Text) → b.phase k ≡ update key idle a.phase k)
      → b.gone ≡ key ∷ a.gone
      → b.closed ≡ a.closed
      → Move a b
  closes :
      ((k : Text) → b.phase k ≡ wound_down (a.phase k))
      → b.gone ≡ a.gone
      → b.closed ≡ true
      → Move a b

pub data Moves (a : Fleet) : Fleet → Type 0 where
  begin : Moves a a
  also : {b c : Fleet} → Moves a b → Move b c → Moves a c

abbrev pub phase_of : Option Context → Phase
phase_of none = idle
phase_of (some c) = if c.cancelled then stopping else running

abbrev pub entry_phase : List Context → Option ℕ → Phase
entry_phase cs none = idle
entry_phase cs (some id) = phase_of (find id cs)

-- The view of a state.
abbrev pub fleet : {S : Type 0} → List Text → State S → Fleet
fleet gone st = record {
  phase = λ key. entry_phase st.started (lookup key st.ctrl_cancels);
  gone = gone;
  closed = st.root_cancelled;
}
