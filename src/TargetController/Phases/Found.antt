-- ===== src/TargetController/Phases/Found.antt =====
-- What the operations on the contexts do to the one that an entry of the map holds.
use init_agent.Base.{
  ℕ, ◌≡◌, refl, Option, none, some, List, [], ◌∷◌, Text, ◌==◌, if◌then◌else◌, arith,
}
use init_agent.TargetController.{Context, cancel}
use init_agent.TargetController.Events.{find, mark_reaped, cancel_all}
use init_agent.TargetController.Phases.{phase_of, wound_down}

abbrev pub owner : Option Context → Option Text
owner none = none
owner (some c) = some c.key

module _ (j : ℕ) where
  pub find-phase-cancel :
      (id : ℕ) (cs : List Context)
      → phase_of (find j (cancel id cs))
        ≡ (if j == id then wound_down (phase_of (find j cs)) else phase_of (find j cs))
  unfolding find cancel
  find-phase-cancel id [] = ground arith
  find-phase-cancel id (c ∷ cs) = ground (arith, find-phase-cancel id cs)

  pub find-owner-cancel :
      (id : ℕ) (cs : List Context) → owner (find j (cancel id cs)) ≡ owner (find j cs)
  unfolding find cancel
  find-owner-cancel id [] = refl
  find-owner-cancel id (c ∷ cs) = ground (arith, find-owner-cancel id cs)

  pub find-phase-mark_reaped :
      (id : ℕ) (cs : List Context) → phase_of (find j (mark_reaped id cs)) ≡ phase_of (find j cs)
  unfolding find mark_reaped
  find-phase-mark_reaped id [] = refl
  find-phase-mark_reaped id (c ∷ cs) = ground (arith, find-phase-mark_reaped id cs)

  pub find-owner-mark_reaped :
      (id : ℕ) (cs : List Context) → owner (find j (mark_reaped id cs)) ≡ owner (find j cs)
  unfolding find mark_reaped
  find-owner-mark_reaped id [] = refl
  find-owner-mark_reaped id (c ∷ cs) = ground (arith, find-owner-mark_reaped id cs)

  pub find-phase-cancel_all :
      (cs : List Context) → phase_of (find j (cancel_all cs)) ≡ wound_down (phase_of (find j cs))
  unfolding find cancel_all
  find-phase-cancel_all [] = refl
  find-phase-cancel_all (c ∷ cs) = ground (arith, find-phase-cancel_all cs)

  pub find-owner-cancel_all :
      (cs : List Context) → owner (find j (cancel_all cs)) ≡ owner (find j cs)
  unfolding find cancel_all
  find-owner-cancel_all [] = refl
  find-owner-cancel_all (c ∷ cs) = ground (arith, find-owner-cancel_all cs)
