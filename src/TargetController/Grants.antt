-- ===== src/TargetController/Grants.antt =====
-- The start of a controller where the servers grant what it asks for.
use init_agent.Base.{ℕ, ◌≡◌, ◌∙◌, Option, none, some, Text}
use init_agent.Go.Maps.{lookup}
use init_agent.Kcp.Rest.{RestConfig, cluster_config}
use init_agent.Effect.{ok}
use init_agent.Sdk.Types.{ObjectMeta, InitTarget}
use init_agent.Remote.{found}
use init_agent.TargetController.{
  State, Services, get_init_target_key, start_controller, workspace_type_cluster,
  get_workspace_type, create_multicluster_manager, create_init_controller, or_wrapped,
  fetched_or_raise, manager_or_wrapped, started_controller, new_init_target_provider,
  unless_running, ensure_init_controller, reconcile_target,
}
use init_agent.TargetController.Reachable.{reconcile_target-ensures}

-- The servers grant all that the start of a controller for the target asks for, from each admitted
-- state and into one.
pub record Grants {E S M R : Type 0} (services : Services E S M R) (cfg : RestConfig R)
    (target : InitTarget) (wst : ObjectMeta) (mgr : M) (P : S → Type 0) : Type 0 where
  pub tenancy : services.add_tenancy ≡ none
  pub core : services.add_core ≡ none
  pub client :
      (s : S)
      → P s
      → let config = cluster_config cfg (workspace_type_cluster services cfg target) in
        ((services.new_client config s).0 ≡ none) × P (services.new_client config s).1
  pub type :
      (s : S)
      → P s
      → let cluster = workspace_type_cluster services cfg target in
        let name = target.spec.workspace_type_reference.name in
        ((services.get_workspace_type cluster name s).0 ≡ found wst)
        × P (services.get_workspace_type cluster name s).1
  pub provider :
      (s : S)
      → P s
      → let config = cluster_config cfg (services.cluster_from wst) in
        ((services.new_provider config wst.name s).0 ≡ none)
        × P (services.new_provider config wst.name s).1
  pub manager :
      (s : S)
      → P s
      → let config = cluster_config cfg (services.cluster_from wst) in
        ((services.new_manager config s).0 ≡ found mgr) × P (services.new_manager config s).1
  pub controller :
      (s : S)
      → P s
      → let provider = new_init_target_provider services target.meta.name in
        (services.new_init_controller mgr provider (services.initializer_for_type wst) s).0 ≡ none

module _ {E S M R : Type 0} (services : Services E S M R) (cfg : RestConfig R) (target : InitTarget)
    {wst : ObjectMeta} {mgr : M} {P : S → Type 0}
    (grants : Grants services cfg target wst mgr P) where
  -- newInitController for the target, from a state of the servers.
  abbrev pub controller_made : S → Option E × S
  controller_made =
      services.new_init_controller mgr (new_init_target_provider services target.meta.name)
        (services.initializer_for_type wst)

  -- A start that is granted all it asks for makes a controller, and newInitController is its last
  -- call.
  pub create_init_controller-starts :
      (st : State S)
      → P st.server
      → (s : S) × P s
        × (create_init_controller services cfg target st ≡ (
          ok tt,
          start_controller
              (get_init_target_key target)
              (record st { server = (controller_made s).1 }),
        ))
  unfolding create_init_controller get_workspace_type create_multicluster_manager or_wrapped
      fetched_or_raise manager_or_wrapped started_controller
  create_init_controller-starts st p =
      let (c, p₁) = grants.client st.server p in
      let cluster = workspace_type_cluster services cfg target in
      let s₁ = (services.new_client (cluster_config cfg cluster) st.server).1 in
      let (t, p₂) = grants.type s₁ p₁ in
      let s₂ =
        (services.get_workspace_type cluster target.spec.workspace_type_reference.name s₁).1 in
      let config = cluster_config cfg (services.cluster_from wst) in
      let (v, p₃) = grants.provider s₂ p₂ in
      let s₃ = (services.new_provider config wst.name s₂).1 in
      let (m, p₄) = grants.manager s₃ p₃ in
      let s₄ = (services.new_manager config s₃).1 in
      let made = grants.controller s₄ p₄ in
      (s₄, p₄, rw (grants.tenancy, c, t, grants.core, v, m, made))

  module _ (name : Text) (kept : target.meta.deletion_timestamp ≡ none)
      (gets : (s : S)
        → P s
        → ((services.get_target name s).0 ≡ found target) × P (services.get_target name s).1) where
    -- A reconciliation of the target in a state with an entry for it, and in one without.
    pub reconcile_target-running :
        (u : State S) {id : ℕ}
        → P u.server
        → lookup (get_init_target_key target) u.ctrl_cancels ≡ some id
        → reconcile_target services cfg name u
          ≡ (ok tt, record u { server = (services.get_target name u.server).1 })
    reconcile_target-running u p e =
        let s = (services.get_target name u.server).1 in
        reconcile_target-ensures services cfg name u target s (λ i. ((gets u.server p).0 i, s)) kept
        ∙ (unfold ensure_init_controller unless_running in rw e)

    pub reconcile_target-absent :
        (u : State S)
        → P u.server
        → lookup (get_init_target_key target) u.ctrl_cancels ≡ none
        → (s : S) × P s
          × (reconcile_target services cfg name u ≡ (
            ok tt,
            start_controller
                (get_init_target_key target)
                (record u { server = (controller_made s).1 }),
          ))
    reconcile_target-absent u p e =
        let (f, q) = gets u.server p in
        let s = (services.get_target name u.server).1 in
        let (s', q', made) = create_init_controller-starts (record u { server = s }) q in
        (
          s',
          q',
          reconcile_target-ensures services cfg name u target s (λ i. (f i, s)) kept
              ∙ (unfold ensure_init_controller unless_running in rw e made),
        )
