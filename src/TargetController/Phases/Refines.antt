-- ===== src/TargetController/Phases/Refines.antt =====
-- The target controller refines its view, and what the view rules out.
use init_agent.Base.{
  ℕ, zero, suc, ◌≡◌, refl, ◌↔◌, true, false, Option, none, some, List, [], ◌∷◌, inl, inr, Text,
  text_eq_iff, ◌==◌, get_elem?, arith, Bool-cases, Option-cases,
}
use init_agent.Go.Slices.{contains}
use init_agent.Go.Maps.{lookup}
use init_agent.Kcp.Rest.{RestConfig}
use init_agent.TargetController.{Context, State, Services}
use init_agent.TargetController.Events.{find}
use init_agent.TargetController.Tracked.{IsNumbered}
use init_agent.TargetController.Invariant.{Inv}
use init_agent.TargetController.Reachable.{
  Reach, here, next, Reach-Inv, IsTracked-get_elem?, live_entered,
}
use init_agent.TargetController.Restart.{numbered_below}
use init_agent.TargetController.Phases.{
  idle, running, Fleet, Move, stays, starts, fails, cleans, retires, closes, Moves, begin, also,
  entry_phase, fleet,
}
use init_agent.TargetController.Phases.Changes.{IsOwned}
use init_agent.TargetController.Phases.Runs.{IsSeen, Step-IsSeen}

-- No controller was started, no target is gone, and the agent is not shutting down.
abbrev pub at_rest : Fleet
at_rest = record { phase = λ key. idle; gone = []; closed = false }

-- A target that is gone is idle, and no controller runs once all were told to stop.
record IsSafe (a : Fleet) : Type 0 where
  gone_idle : (key : Text) → contains a.gone key ≡ true → a.phase key ≡ idle
  closed_down : (key : Text) → a.phase key ≡ running → a.closed ≡ false

module _ {a b : Fleet} where
  Move-IsSafe : Move a b → IsSafe a → IsSafe b
  unfolding contains
  Move-IsSafe (stays p (g, c)) h = record {
    gone_idle = λ k d. ground (arith, p k, h.gone_idle k);
    closed_down = λ k r. ground (arith, p k, h.closed_down k);
  }
  Move-IsSafe (starts key i n p (g, c)) h = record {
    gone_idle = λ k d. ground (arith, p k, text_eq_iff key k, h.gone_idle k);
    closed_down = λ k r. ground (arith, p k, text_eq_iff key k, h.closed_down k);
  }
  Move-IsSafe (fails key i p (g, c)) h = record {
    gone_idle = λ k d. ground (arith, p k, text_eq_iff key k, h.gone_idle k);
    closed_down = λ k r. ground (arith, p k, text_eq_iff key k, h.closed_down k);
  }
  Move-IsSafe (cleans key i p (g, c)) h = record {
    gone_idle = λ k d. ground (arith, p k, text_eq_iff key k, h.gone_idle k);
    closed_down = λ k r. ground (arith, p k, text_eq_iff key k, h.closed_down k);
  }
  Move-IsSafe (retires key p g c) h = record {
    gone_idle = λ k d. ground (arith, p k, text_eq_iff key k, h.gone_idle k);
    closed_down = λ k r. ground (arith, p k, text_eq_iff key k, h.closed_down k);
  }
  Move-IsSafe (closes p g c) h = record {
    gone_idle = λ k d. ground (arith, p k, h.gone_idle k);
    closed_down = λ k r. ground (arith, p k, h.closed_down k);
  }

Moves-IsSafe : {a b : Fleet} → Moves a b → IsSafe a → IsSafe b
Moves-IsSafe begin h = h
Moves-IsSafe (also ms m) h = Move-IsSafe m (Moves-IsSafe ms h)

find_at :
    (id : ℕ) (cs : List Context) {c : Context}
    → find id cs ≡ some c
    → (i : ℕ) × (get_elem? cs i ≡ some c)
unfolding find
find_at id [] e = cc
find_at id (d ∷ cs) e = elim (Bool-cases (d.id == id)) [
  | inl same ↦ (0, ground arith)
  | inr other ↦ let (i, at) = find_at id cs (ground arith) in (suc i, at)
]

-- The context at a place is found by its number.
find-get_elem? :
    (cs : List Context) (i : ℕ) (c : Context)
    → IsNumbered cs
    → get_elem? cs i ≡ some c
    → find c.id cs ≡ some c
unfolding find
find-get_elem? [] i c h e = cc
find-get_elem? (d ∷ cs) zero c h e = ground arith
find-get_elem? (d ∷ cs) (suc i) c h e =
    ground (arith, numbered_below cs i h.1 e, find-get_elem? cs i c h.1 e)

-- A started context of the key that is not cancelled.
abbrev pub HasLive : {S : Type 0} → State S → Text → Type 0
HasLive st key =
    (i : ℕ) × (c : Context) × (get_elem? st.started i ≡ some c)
    × (c.cancelled ≡ false)
    × (c.key ≡ key)

module _ {S : Type 0} (gone : List Text) (st : State S) where
  live_of_running :
      (key : Text) (entry : Option ℕ)
      → IsOwned st
      → lookup key st.ctrl_cancels ≡ entry
      → entry_phase st.started entry ≡ running
      → HasLive st key
  live_of_running key none o e r = cc
  live_of_running key (some id) o e r = elim (Option-cases (find id st.started)) [
    | inl absent ↦ absurd (ground arith)
    | inr (c, is) ↦
        let (i, at) = find_at id st.started is in
        (i, c, at, ground arith, ground (arith, o.owned key id e))
  ]

  running_of_live :
      (key : Text) → Inv gone st → HasLive st key → (fleet gone st).phase key ≡ running
  running_of_live key h (i, c, at, live, same) =
      let entered =
        live_entered st.ctrl_cancels gone c
          (IsTracked-get_elem? st.ctrl_cancels gone st.started i h.tracked at) live in
      ground (arith, entered, find-get_elem? st.started i c h.numbered at)

module _ {E S M R : Type 0} (services : Services E S M R) (cfg : RestConfig R) where
  Reach-IsSeen :
      {s : S} {gone : List Text} {st : State S}
      → Reach services cfg s gone st
      → IsSeen at_rest gone st
  unfolding lookup
  Reach-IsSeen here = record { owns = record { owned = λ key id e. cc }; reached = begin }
  Reach-IsSeen (next r step) =
      Step-IsSeen services cfg at_rest step (Reach-Inv services cfg r) (Reach-IsSeen r)

  -- However reconciliations, goroutines, the end of the agent and the servers take turns, a
  -- reachable state of the target controller looks, for each InitTarget, like one that moves reach
  -- from rest: a start where nothing runs, a failure, a cleanup, a removal, or the stop of all
  -- controllers. In that view the controller of a target runs if and only if a context of its key
  -- was started and is not cancelled, and then the target was not seen with a deletion timestamp,
  -- and the root context is not cancelled.
  pub reachable-Moves :
      {s : S} {gone : List Text} {st : State S}
      → Reach services cfg s gone st
      → Moves at_rest (fleet gone st)
        × ((key : Text)
            → (((fleet gone st).phase key ≡ running) ↔ HasLive st key)
              × ((fleet gone st).phase key ≡ running
                  → (contains gone key ≡ false) × (st.root_cancelled ≡ false)))
  reachable-Moves {gone = gone} {st = st} r =
      let seen = Reach-IsSeen r in
      let safe = Moves-IsSafe seen.reached at_rest-IsSafe in
      (
        seen.reached,
        λ key. (
          (
            live_of_running gone st key (lookup key st.ctrl_cancels) seen.owns refl,
            running_of_live gone st key (Reach-Inv services cfg r),
          ),
          λ p. (ground (arith, safe.gone_idle key), safe.closed_down key p),
        ),
      )
    where
      at_rest-IsSafe : IsSafe at_rest
      at_rest-IsSafe = record { gone_idle = λ key d. refl; closed_down = λ key d. refl }
