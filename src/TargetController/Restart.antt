-- ===== src/TargetController/Restart.antt =====
-- What becomes of a target whose manager failed.
use init_agent.Base.{
  ◌≡◌, sym, ◌∙◌, subst, ℕ, zero, suc, ◌<◌, true, false, none, some, List, [], ◌∷◌, Text, length,
  get_elem?, arith, text_eq_refl,
}
use init_agent.Go.Maps.{lookup, lookup-delete}
use init_agent.Kcp.Rest.{RestConfig}
use init_agent.Effect.{ok}
use init_agent.Sdk.Types.{ObjectMeta, InitTarget}
use init_agent.Remote.{found}
use init_agent.TargetController.{
  Context, State, Services, cancel, get_init_target_key, start_controller, reconcile_target,
}
use init_agent.TargetController.Grants.{
  Grants, controller_made, reconcile_target-running, reconcile_target-absent,
}
use init_agent.TargetController.Events.{find, reap_found, reap, manager_failed}
use init_agent.TargetController.Tracked.{IsNumbered, IsTracked}
use init_agent.TargetController.Invariant.{Inv}
use init_agent.TargetController.Reachable.{Reach, Reach-Inv, IsTracked-get_elem?, live_entered}

pub numbered_below :
    (cs : List Context) (i : ℕ) {c : Context}
    → IsNumbered cs
    → get_elem? cs i ≡ some c
    → c.id < length cs
numbered_below [] i h e = cc
numbered_below (d ∷ cs) zero h e = ground arith
numbered_below (d ∷ cs) (suc i) h e = omega (arith, numbered_below cs i h.1 e)

-- The context at a place is the one that is found by its number.
find-cancel :
    (cs : List Context) (i : ℕ) (c : Context)
    → IsNumbered cs
    → get_elem? cs i ≡ some c
    → find c.id (cancel c.id cs) ≡ some (record c { cancelled = true })
unfolding find cancel
find-cancel [] i c h e = cc
find-cancel (d ∷ cs) zero c h e = ground arith
find-cancel (d ∷ cs) (suc i) c h e =
    ground (arith, numbered_below cs i h.1 e, find-cancel cs i c h.1 e)

module _ {S : Type 0} (gone : List Text) (st : State S) (h : Inv gone st) (i : ℕ) (c : Context)
    (at : get_elem? st.started i ≡ some c) (live : c.cancelled ≡ false) where
  abbrev failed_state : State S
  failed_state = manager_failed c.id st

  abbrev cleaned_state : State S
  cleaned_state = reap c.id failed_state

  IsTracked-at : IsTracked st.ctrl_cancels gone c
  IsTracked-at = IsTracked-get_elem? st.ctrl_cancels gone st.started i h.tracked at

  still_entered : lookup c.key failed_state.ctrl_cancels ≡ some c.id
  unfolding manager_failed
  still_entered = (live_entered st.ctrl_cancels gone c IsTracked-at live).0

  not_reaped : c.reaped ≡ false
  not_reaped = ground (arith, IsTracked-at)

  entry_gone : lookup c.key cleaned_state.ctrl_cancels ≡ none
  unfolding manager_failed reap reap_found
  entry_gone =
      rw (find-cancel st.started i c h.numbered at, not_reaped)
        (lookup-delete c.key c.key st.ctrl_cancels ∙ rw (text_eq_refl c.key))

  same_server : cleaned_state.server ≡ st.server
  unfolding manager_failed reap reap_found
  same_server = rw (find-cancel st.started i c h.numbered at, not_reaped)

  same_root : cleaned_state.root_cancelled ≡ st.root_cancelled
  unfolding manager_failed reap reap_found
  same_root = rw (find-cancel st.started i c h.numbered at, not_reaped)

module _ {E S M R : Type 0} (services : Services E S M R) (cfg : RestConfig R) {s : S}
    {gone : List Text} {st : State S} (reached : Reach services cfg s gone st) (target : InitTarget)
    {wst : ObjectMeta} {mgr : M} {P : S → Type 0} (grants : Grants services cfg target wst mgr P)
    (name : Text) (kept : target.meta.deletion_timestamp ≡ none)
    (gets : (s : S)
      → P s
      → ((services.get_target name s).0 ≡ found target) × P (services.get_target name s).1) where
  -- In a reachable state, for a target that is not being deleted: if the manager of its live
  -- controller fails, a reconciliation of the target changes nothing but the servers until the
  -- cleanup goroutine of the controller has run; after that, where the servers grant what the start
  -- asks for, the next reconciliation starts a new controller for the target, which is live unless
  -- the root context is cancelled.
  pub manager_failed-restarts :
      (i : ℕ) (c : Context)
      → get_elem? st.started i ≡ some c
      → c.cancelled ≡ false
      → c.key ≡ get_init_target_key target
      → P st.server
      → let failed = manager_failed c.id st in
        let cleaned = reap c.id failed in
        (reconcile_target services cfg name failed
          ≡ (ok tt, record failed { server = (services.get_target name st.server).1 }))
        × (s' : S) × (reconcile_target services cfg name cleaned
            ≡ (ok tt, start_controller c.key (record cleaned { server = s' })))
        × ((start_controller c.key (record cleaned { server = s' })).started
            ≡ record {
              id = length cleaned.started;
              key = c.key;
              cancelled = st.root_cancelled;
              reaped = false;
            }
              ∷ cleaned.started)
  manager_failed-restarts i c at live same p =
      let inv = Reach-Inv services cfg reached in
      let root = same_root gone st inv i c at live in
      let served = subst P (sym (same_server gone st inv i c at live)) p in
      let failed = manager_failed c.id st in
      let cleaned = reap c.id failed in
      let (s, q, made) =
        reconcile_target-absent services cfg target grants name kept gets cleaned served (
          subst (λ key. lookup key cleaned.ctrl_cancels ≡ none) same
            (entry_gone gone st inv i c at live)) in
      let s' = (controller_made services cfg target grants s).1 in
      (
        unfold manager_failed in
            reconcile_target-running services cfg target grants name kept gets failed p (
              subst (λ key. lookup key failed.ctrl_cancels ≡ some c.id) same
                (still_entered gone st inv i c at live)),
        s',
        subst
            (λ key.
              reconcile_target services cfg name cleaned
              ≡ (ok tt, start_controller key (record cleaned { server = s' })))
            (sym same) made,
        unfold start_controller in rw root,
      )
