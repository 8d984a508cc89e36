-- ===== src/TargetController/Results.antt =====
-- Every way in which Reconcile of the target controller ends.
use init_agent.Base.{
  ℕ, ◌≡◌, refl, ◌∙◌, ap, true, false, Option, none, some, ◌⊎◌, inl, inr, Text, text_eq,
  text_eq_refl, arith, Bool-cases,
}
use init_agent.Go.Maps.{lookup, lookup-delete}
use init_agent.Kcp.Rest.{RestConfig}
use init_agent.Effect.{Outcome, ok, err, external}
use init_agent.Sdk.Types.{InitTarget}
use init_agent.Remote.{Fetched, found, failed}
use init_agent.TargetController.{
  Services, State, cancel, cancel_entry, cleanup_controller, by_deletion, on_target,
  get_init_target_key, reconcile_target,
}
use init_agent.TargetController.Ends.{Built, ensure_init_controller-Built}
use init_agent.TargetController.Reachable.{reconcile_target-eq}

-- The controller of the key, if it has one, was told to stop, and its entry is gone; no other entry
-- and no other context has changed.
pub record LetGo {S : Type 0} (key : Text) (st st' : State S) : Type 0 where
  pub entry_gone : lookup key st'.ctrl_cancels ≡ none
  pub others_kept :
      (j : Text) → text_eq key j ≡ false → lookup j st'.ctrl_cancels ≡ lookup j st.ctrl_cancels
  pub told : (id : ℕ) → lookup key st.ctrl_cancels ≡ some id → st'.started ≡ cancel id st.started
  pub nothing_to_do : lookup key st.ctrl_cancels ≡ none → st' ≡ st
  pub server_kept : st'.server ≡ st.server

module _ {S : Type 0} (key : Text) (st : State S) where
  cancel_entry-LetGo :
      (entry : Option ℕ)
      → lookup key st.ctrl_cancels ≡ entry
      → LetGo key st (cancel_entry key entry st)
  unfolding cancel_entry
  cancel_entry-LetGo none e = record {
    entry_gone = e;
    others_kept = λ j d. refl;
    told = λ id h. cc;
    nothing_to_do = λ h. refl;
    server_kept = refl;
  }
  cancel_entry-LetGo (some id) e = record {
    entry_gone = lookup-delete key key st.ctrl_cancels ∙ rw (text_eq_refl key);
    others_kept = λ j d. lookup-delete key j st.ctrl_cancels ∙ rw d;
    told = λ i h. ap (λ n. cancel n st.started) (ground arith);
    nothing_to_do = λ h. cc;
    server_kept = refl;
  }

module _ {E S M R : Type 0} (services : Services E S M R) (cfg : RestConfig R) where
  -- What follows the answer of Get.
  abbrev pub Ended : Fetched E InitTarget → State S → Outcome E (Unit {0}) × State S → Type 0
  Ended (failed e) begun result =
      ((services.is_not_found e ≡ true) × (result ≡ (ok tt, begun)))
      ⊎ ((services.is_not_found e ≡ false) × (result ≡ (err (external e), begun)))
  Ended (found target) begun result =
      let key = get_init_target_key target in
      ((t : ℕ) × (target.meta.deletion_timestamp ≡ some t)
        × (result.0 ≡ ok tt)
        × LetGo key begun result.1)
      ⊎ ((target.meta.deletion_timestamp ≡ none)
          × (((id : ℕ) × (lookup key begun.ctrl_cancels ≡ some id) × (result ≡ (ok tt, begun)))
              ⊎ ((lookup key begun.ctrl_cancels ≡ none) × Built services cfg target begun result)))

  by_deletion-Ended :
      (timestamp : Option ℕ) (target : InitTarget) (begun : State S)
      → target.meta.deletion_timestamp ≡ timestamp
      → Ended (found target) begun (by_deletion services cfg timestamp target begun)
  unfolding by_deletion cleanup_controller
  by_deletion-Ended none target begun e =
      inr (e, ensure_init_controller-Built services cfg target begun)
  by_deletion-Ended (some t) target begun e =
      inl (t, e, refl, cancel_entry-LetGo (get_init_target_key target) begun _ refl)

  on_target-Ended :
      (fetched : Fetched E InitTarget) (begun : State S)
      → Ended fetched begun (on_target services cfg fetched begun)
  unfolding on_target
  on_target-Ended (found target) begun =
      by_deletion-Ended target.meta.deletion_timestamp target begun refl
  on_target-Ended (failed e) begun = elim (Bool-cases (services.is_not_found e)) [
    | inl absent ↦ inl (absent, rw absent refl)
    | inr other ↦ inr (other, rw other refl)
  ]

  -- A reconciliation asks for the InitTarget once, and then ends in one of these ways. If the target
  -- is not found, no error is returned and nothing has changed; another error of that request is
  -- returned as it is. If the target has a deletion timestamp, its controller is told to stop and its
  -- entry goes, and no other. If it has none and there is an entry, nothing has changed. If it has
  -- none and there is no entry, the WorkspaceType, the manager and the init controller are asked for
  -- in this order: the error of the first that fails is returned, wrapped by the site of that step,
  -- and only the servers have changed; if none fails, where the init controller was given the
  -- provider of this target and the initializer of the WorkspaceType, a controller is started under
  -- the target's key and no error is returned.
  pub reconcile_target-Ended :
      (name : Text) (st : State S)
      → let (fetched, s) = services.get_target name st.server in
        Ended fetched (record st { server = s }) (reconcile_target services cfg name st)
  reconcile_target-Ended name st =
      let (fetched, s) = services.get_target name st.server in
      rw (reconcile_target-eq services cfg name st fetched s refl)
        (on_target-Ended fetched (record st { server = s }))
