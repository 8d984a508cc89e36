-- ===== src/Agent/Initializes.antt =====
-- The two controllers together: from an InitTarget to a cluster that is open for use.
use init_agent.Base.{◌≡◌, true, false, Option, none, ◌∷◌, Text}
use init_agent.Go.Maps.{lookup}
use init_agent.Go.Strings.{is_empty}
use init_agent.Kcp.Rest.{RestConfig}
use init_agent.Kcp.Annotations.{cluster_path_from_object}
use init_agent.Effect.{ok, patched, World}
use init_agent.Sdk.Types.{ObjectMeta, InitTarget}
use init_agent.Remote.{Remote, LogicalCluster, found}
use init_agent.TargetController.{
  State, Services, get_init_target_key, start_controller, reconcile_target,
  new_init_target_provider,
}
use init_agent.TargetController.Grants.{Grants, reconcile_target-absent}
use init_agent.InitController.{Reconciler, done, reconcile_request}
use init_agent.InitController.Create.{Controller, controller_name, create}
use init_agent.InitController.Removal.{without}
use init_agent.InitController.Completion.{Serves, reconcile_request-completes}
use init_agent.Agent.{joined, new_init_controller, num_init_workers}

module _ {E S M R : Type 0} (services : Services E S M R)
    (complete : M → Controller E S → S → Option E × S) (cfg : RestConfig R) (target : InitTarget)
    {wst : ObjectMeta} {mgr : M} {P : S → Type 0}
    (grants : Grants (joined complete services) cfg target wst mgr P) {Object Tpl : Type 0}
    (remote : Remote Object E S Tpl) (cluster : Text) (lc : LogicalCluster) where
  abbrev pub reconciler : Reconciler E S
  reconciler = record {
    target_provider = services.get_target target.meta.name;
    initializer = services.initializer_for_type wst;
  }

  -- An InitTarget that has no controller and is not being deleted is reconciled, on servers that
  -- grant what the start of its controller asks for: a controller for its key is built and started.
  -- Where the servers also grant what a request for a logical cluster with the initializer of the
  -- WorkspaceType asks for, the Reconciler that was built ends such a request without an error or a
  -- requeue, and its last call has removed that initializer.
  pub reconcile_target-initializes :
      target.meta.deletion_timestamp ≡ none
      → (serves : Serves remote P reconciler cluster lc target) → {path : Text}
      → cluster_path_from_object remote lc.meta ≡ ok path
      → is_empty lc.meta.name ≡ false
      → ((s : S)
          → P s
          → ((remote.get_cluster cluster s).0 ≡ none) × P (remote.get_cluster cluster s).1)
      → ((s : S)
          → P s
          → ((remote.get_logical_cluster cluster lc.meta.name s).0 ≡ found lc)
            × P (remote.get_logical_cluster cluster lc.meta.name s).1)
      → (st : State S) → P st.server
      → lookup (get_init_target_key target) st.ctrl_cancels ≡ none
      → (w : World Object E S) → P w.server
      → (c : Controller E S) × (s s' : S) × (complete mgr c s ≡ (none, s'))
        × (reconcile_target (joined complete services) cfg target.meta.name st
            ≡ (ok tt, start_controller (get_init_target_key target) (record st { server = s' })))
        × (w' : World Object E S) × (v : World Object E S) × (reconcile_request remote c.reconciler
              (record { cluster_name = cluster; name = lc.meta.name })
              w
            ≡ (ok done, w'))
        × (w'.calls
            ≡ patched (without (services.initializer_for_type wst) lc.initializers) none ∷ v.calls)
  reconcile_target-initializes kept serves located named reaches fetches st p absent w q =
      let (s, p', made) =
        reconcile_target-absent (joined complete services) cfg target grants target.meta.name kept
          serves.provides st p absent in
      let c : Controller E S = record {
        named = controller_name;
        max_concurrent_reconciles = num_init_workers;
        skip_name_validation = true;
        reconciler = reconciler;
      } in
      let granted = grants.controller s p' in
      let (w', v, ran, removed) =
        reconcile_request-completes remote P reconciler cluster lc target serves located
          lc.meta.name named reaches fetches w q in
      unfold new_init_controller create new_init_target_provider in
      (
        c,
        s,
        (complete mgr c s).1,
        λ i. (granted i, (complete mgr c s).1),
        made,
        w',
        v,
        ran,
        removed,
      )
