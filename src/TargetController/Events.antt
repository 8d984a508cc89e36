-- ===== src/TargetController/Events.antt =====
-- What happens to the contexts beside the reconciliations: the cleanup goroutine of a cancelled
-- context, a manager that fails, and the end of the root context.
use init_agent.Base.{ℕ, true, not, ◌&&◌, Option, none, some, List, [], ◌∷◌, ◌==◌, if◌then◌else◌}
use init_agent.Go.Maps.{delete}
use init_agent.TargetController.{Context, State, cancel}

unfoldable pub find : ℕ → List Context → Option Context
find id [] = none
find id (c ∷ cs) = let rest = find id cs in if c.id == id then some c else rest

-- The cleanup goroutine of a cancelled context has run.
unfoldable pub mark_reaped : ℕ → List Context → List Context
mark_reaped id [] = []
mark_reaped id (c ∷ cs) =
    (if c.id == id && c.cancelled then record c { reaped = true } else c) ∷ mark_reaped id cs

unfoldable pub cancel_all : List Context → List Context
cancel_all [] = []
cancel_all (c ∷ cs) = record c { cancelled = true } ∷ cancel_all cs

module _ {S : Type 0} where
  unfoldable pub reap_found : Option Context → ℕ → State S → State S
  reap_found none id st = st
  reap_found (some c) id st =
      if c.cancelled && not c.reaped
      then record st {
        ctrl_cancels = delete c.key st.ctrl_cancels;
        started = mark_reaped id st.started;
      }
      else st

  -- `<-ctrlCtx.Done()` waits until the context is cancelled; then the key's entry is deleted.
  unfoldable pub reap : ℕ → State S → State S
  unfolding find mark_reaped reap_found
  reap id st = reap_found (find id st.started) id st

  -- `mgr.Start` returned an error other than the cancellation.
  unfoldable pub manager_failed : ℕ → State S → State S
  unfolding cancel
  manager_failed id st = record st { started = cancel id st.started }

  -- The end of the root context cancels every context derived from it.
  unfoldable pub shutdown : State S → State S
  unfolding cancel_all
  shutdown st = record st { root_cancelled = true; started = cancel_all st.started }

-- What other goroutines and the servers do while the controller waits, or between two of its steps.
pub data Event (S : Type 0) : Type 0 where
  cleaned ended : ℕ → Event S
  stopped : Event S
  changed : S → Event S

module _ {S : Type 0} where
  unfoldable pub happens : Event S → State S → State S
  unfolding reap manager_failed shutdown
  happens (cleaned id) st = reap id st
  happens (ended id) st = manager_failed id st
  happens stopped st = shutdown st
  happens (changed s) st = record st { server = s }

  unfoldable pub background : List (Event S) → State S → State S
  unfolding happens
  background [] st = st
  background (event ∷ events) st = background events (happens event st)
