-- ===== src/TargetController.antt =====
-- internal/controller/targetcontroller/controller.go: one multicluster manager for each
-- InitTarget. The functions here run without interruption: the controller has one worker, and the
-- goroutines that it starts are the events of TargetController.Events.
pub mod Events
pub mod Tracked
pub mod Moves
pub mod Ends
pub mod Invariant
pub mod Reachable
pub mod Grants
pub mod Results
pub mod Restart
pub mod Phases
use init_agent.Base.{
  ℕ, suc, Bool, true, false, not, ◌&&◌, Option, none, some, List, [], ◌∷◌, map, Text, ◌==◌, length,
  if◌then◌else◌,
}
use init_agent.Go.Strings.{is_empty}
use init_agent.Go.Maps.{Map, lookup, insert, delete}
use init_agent.Kcp.Rest.{RestConfig, cluster_config, cluster as cluster_client}
use init_agent.Effect.{
  Error, external, wrapped, Site, Outcome, ok, err, Action, pure, raise, wrap_run, ◌>>=◌,
  failed_to_retrieve_workspace_type, failed_to_create_client, failed_to_register_scheme,
  failed_to_create_manager, failed_to_create_provider, failed_to_create_multicluster_manager,
  failed_to_create_init_controller,
}
use init_agent.Sdk.Types.{ObjectMeta, InitTarget}
use init_agent.Remote.{Fetched, found, failed}

-- What the controller uses of code outside the repository. `M` stands for multicluster managers,
-- `R` for the fields of a rest.Config beside the host, `S` for the states of the servers.
pub record Services (E S M R : Type 0) : Type 0 where
  pub is_not_found : E → Bool
  -- Get of an InitTarget through the local client
  pub get_target : Text → S → Fetched E InitTarget × S
  -- logicalcluster.From(obj)
  pub cluster_from : ObjectMeta → Text
  -- AddToScheme of the tenancy and the core group
  pub add_tenancy : Option E
  pub add_core : Option E
  -- New of a client, which clusterClient.Cluster calls, and Get of a WorkspaceType through it
  pub new_client : RestConfig R → S → Option E × S
  pub get_workspace_type : Text → Text → S → Fetched E ObjectMeta × S
  -- InitializerForType
  pub initializer_for_type : ObjectMeta → Text
  -- initializingworkspaces.New and mcmanager.New
  pub new_provider : RestConfig R → Text → S → Option E × S
  pub new_manager : RestConfig R → S → Fetched E M × S
  -- newInitController, with the target provider and the initializer
  pub new_init_controller : M → (S → Fetched E InitTarget × S) → Text → S → Option E × S

-- A context derived from the root context, with the two goroutines that wait on it: whether it is
-- cancelled, and whether the cleanup goroutine has run.
pub record Context : Type 0 where
  pub id : ℕ
  pub key : Text
  pub cancelled : Bool
  pub reaped : Bool

-- The Reconciler's `ctrlCancels`, with the context that each cancel func cancels; the contexts
-- made so far, the newest first; and whether the root context is cancelled.
pub record State (S : Type 0) : Type 0 where
  pub server : S
  pub ctrl_cancels : Map ℕ
  pub started : List Context
  pub root_cancelled : Bool

abbrev pub get_init_target_key : InitTarget → Text
get_init_target_key target = target.meta.uid

-- A call of the cancel func of a context.
unfoldable pub cancel : ℕ → List Context → List Context
cancel id [] = []
cancel id (c ∷ cs) = (if c.id == id then record c { cancelled = true } else c) ∷ cancel id cs

-- context.WithCancelCause, the entry in `ctrlCancels`, and the two goroutines.
unfoldable pub start_controller : {S : Type 0} → Text → State S → State S
start_controller key st =
    let id = length st.started in
    record st {
      ctrl_cancels = insert key id st.ctrl_cancels;
      started =
          record { id = id; key = key; cancelled = st.root_cancelled; reaped = false } ∷ st.started;
    }

-- `cancel, ok := r.ctrlCancels[key]; if ok { … }`
cancel_entry : {S : Type 0} → Text → Option ℕ → State S → State S
cancel_entry key none st = st
cancel_entry key (some id) st = record st {
  ctrl_cancels = delete key st.ctrl_cancels;
  started = cancel id st.started;
}

unfoldable pub cleanup_controller : {S : Type 0} → InitTarget → State S → State S
unfolding cancel_entry cancel
cleanup_controller target st =
    let key = get_init_target_key target in cancel_entry key (lookup key st.ctrl_cancels) st

module _ {E S : Type 0} where
  -- A request to the servers.
  abbrev pub ask : {A : Type 0} → (S → A × S) → Action (State S) E A
  ask q st = let (a, s) = q st.server in (ok a, record st { server = s })

  or_wrapped : Site → Option E → Action (State S) E (Unit {0})
  or_wrapped site none = pure tt
  or_wrapped site (some e) = raise (wrapped site (external e))

  fetched_or_raise : {A : Type 0} → Fetched E A → Action (State S) E A
  fetched_or_raise (found a) = pure a
  fetched_or_raise (failed e) = raise (external e)

  manager_or_wrapped : {M : Type 0} → Fetched E M → Action (State S) E M
  manager_or_wrapped (found m) = pure m
  manager_or_wrapped (failed e) = raise (wrapped failed_to_create_manager (external e))

  started_controller : Text → Action (State S) E (Unit {0})
  unfolding start_controller
  started_controller key st = (ok tt, start_controller key st)

  unless_running : Option ℕ → Action (State S) E (Unit {0}) → Action (State S) E (Unit {0})
  unless_running (some id) create = pure tt
  unless_running none create = create

module _ {E S M R : Type 0} (services : Services E S M R) where
  -- The function that newInitTargetProvider returns.
  unfoldable pub new_init_target_provider : Text → S → Fetched E InitTarget × S
  new_init_target_provider name = services.get_target name

module _ {E S M R : Type 0} (services : Services E S M R) (cfg : RestConfig R) where
  -- `if wstCluster == "" { wstCluster = kcp.ClusterNameFromObject(target) }`
  unfoldable pub workspace_type_cluster : InitTarget → Text
  workspace_type_cluster target =
      let path = target.spec.workspace_type_reference.path in
      if is_empty path then services.cluster_from target.meta else path

  unfoldable pub get_workspace_type : InitTarget → Action (State S) E ObjectMeta
  unfolding or_wrapped fetched_or_raise workspace_type_cluster
  get_workspace_type target = do
    let cluster = workspace_type_cluster target
    registered ← or_wrapped failed_to_register_scheme services.add_tenancy
    failure ← ask (cluster_client services.new_client cfg cluster)
    client ← or_wrapped failed_to_create_client failure
    fetched ← ask (services.get_workspace_type cluster target.spec.workspace_type_reference.name)
    fetched_or_raise fetched

  unfoldable pub create_multicluster_manager : ObjectMeta → Action (State S) E M
  unfolding or_wrapped manager_or_wrapped
  create_multicluster_manager wst = do
    let wst_config = cluster_config cfg (services.cluster_from wst)
    tenancy ← or_wrapped failed_to_register_scheme services.add_tenancy
    core ← or_wrapped failed_to_register_scheme services.add_core
    failure ← ask (services.new_provider wst_config wst.name)
    provider ← or_wrapped failed_to_create_provider failure
    made ← ask (services.new_manager wst_config)
    manager_or_wrapped made

  -- What follows if the map has no entry for the key.
  unfoldable pub create_init_controller : InitTarget → Action (State S) E (Unit {0})
  unfolding started_controller or_wrapped new_init_target_provider
  create_init_controller target = do
    wst ← wrap_run failed_to_retrieve_workspace_type (get_workspace_type target)
    mgr ← wrap_run failed_to_create_multicluster_manager (create_multicluster_manager wst)
    failure ← ask (
        services.new_init_controller mgr (new_init_target_provider services target.meta.name)
          (services.initializer_for_type wst))
    created ← or_wrapped failed_to_create_init_controller failure
    started_controller (get_init_target_key target)

  unfoldable pub ensure_init_controller : InitTarget → Action (State S) E (Unit {0})
  unfolding unless_running create_init_controller
  ensure_init_controller target st =
      unless_running (lookup (get_init_target_key target) st.ctrl_cancels)
        (create_init_controller target) st

  -- `if target.DeletionTimestamp != nil`
  by_deletion : Option ℕ → InitTarget → Action (State S) E (Unit {0})
  unfolding ensure_init_controller cleanup_controller
  by_deletion (some t) target st = (ok tt, cleanup_controller target st)
  by_deletion none target st = ensure_init_controller target st

  pub on_target : Fetched E InitTarget → Action (State S) E (Unit {0})
  unfolding by_deletion
  on_target (found target) = by_deletion target.meta.deletion_timestamp target
  on_target (failed e) = if services.is_not_found e then pure tt else raise (external e)

  -- The method Reconcile; its Result is empty on every path.
  unfoldable pub reconcile_target : Text → Action (State S) E (Unit {0})
  unfolding on_target
  reconcile_target name = do fetched ← ask (services.get_target name); on_target fetched
