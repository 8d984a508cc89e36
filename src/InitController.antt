-- ===== src/InitController.antt =====
-- internal/controller/initcontroller/reconciler.go: one reconciliation of a LogicalCluster.
pub mod Sources
pub mod Removal
pub mod Safety
pub mod Success
pub mod Requests
pub mod Completion
pub mod Held
pub mod Errors
pub mod Results
pub mod Create
use init_agent.Base.{
  ℕ, zero, suc, Bool, true, false, not, Option, none, some, List, [], ◌∷◌, Text, text_eq, ◌==◌,
  length, if◌then◌else◌,
}
use init_agent.Go.Strings.{is_empty}
use init_agent.Go.Slices.{contains, delete_func}
use init_agent.Effect.{
  Error, external, wrapped, failed_to_get_cluster, failed_to_retrieve_logicalcluster,
  failed_to_get_init_target, failed_to_initialize_source, failed_to_render_source,
  failed_to_apply_source, failed_to_remove_initializer, Outcome, ok, err, panicked, patched,
  event_recorded, World, Run, pure, raise, lift, wrap_run, query, request, ◌>>=◌,
}
use init_agent.Sdk.Types.{InitSource, InitTarget}
use init_agent.Remote.{Remote, LogicalCluster, Fetched, found, failed}
use init_agent.Kcp.Annotations.{cluster_name_from_object, cluster_path_from_object}
use init_agent.Manifest.Apply.{apply}
use init_agent.Source.{new_for_init_source, manifests}

-- The fields of Reconciler that are not clients, loggers or factories.
pub record Reconciler (E S : Type 0) : Type 0 where
  pub target_provider : S → Fetched E InitTarget × S
  pub initializer : Text

pub record Request : Type 0 where
  pub cluster_name : Text
  pub name : Text

-- reconcile.Result, with RequeueAfter in seconds.
pub record Result : Type 0 where
  pub requeue_after : ℕ

abbrev pub done : Result
done = record { requeue_after = 0 }

-- `&kcpcorev1alpha1.LogicalCluster{}`
abbrev pub empty_cluster : LogicalCluster
empty_cluster = record {
  meta = record { name = []; uid = []; deletion_timestamp = none; labels = []; annotations = [] };
  initializers = [];
}

module _ {Object E S Tpl : Type 0} (remote : Remote Object E S Tpl) where
  -- The body of the loop over the sources for the source number `idx`; its result is
  -- `srcNeedRequeue`.
  unfoldable pub reconcile_source :
      Text → InitTarget → LogicalCluster → ℕ → InitSource → Run Object E S Bool
  unfolding cluster_name_from_object
  reconcile_source cluster target lc idx ref = do
    src ←
        wrap_run (failed_to_initialize_source idx)
          (new_for_init_source remote (cluster_name_from_object remote target.meta) ref)
    objects ← wrap_run (failed_to_render_source idx) (manifests remote src lc)
    wrap_run (failed_to_apply_source idx) (apply remote cluster objects)

  unfoldable pub reconcile_sources :
      Text → InitTarget → LogicalCluster → ℕ → Bool → List InitSource → Run Object E S Bool
  reconcile_sources cluster target lc idx requeue [] = pure requeue
  reconcile_sources cluster target lc idx requeue (ref ∷ refs) = do
    needs_requeue ← reconcile_source cluster target lc idx ref
    reconcile_sources cluster target lc (suc idx) (if needs_requeue then true else requeue) refs

  after_patch : Option E → Run Object E S (Unit {0})
  after_patch none = pure tt
  after_patch (some e) = raise (wrapped failed_to_remove_initializer (external e))

  unfoldable pub remove_initializer : Text → Text → LogicalCluster → Run Object E S (Unit {0})
  unfolding delete_func after_patch
  remove_initializer cluster initializer lc =
      let remaining = delete_func (λ i. text_eq i initializer) lc.initializers in
      let lc' = record lc { initializers = remaining } in
      if length remaining == length lc.initializers then pure tt else do
        failure ← request (remote.patch_status cluster lc lc') (patched remaining)
        after_patch failure

  -- `if !requeue { return false, r.removeInitializer(…) }`
  finish : Text → Text → LogicalCluster → Bool → Run Object E S Bool
  unfolding remove_initializer
  finish cluster initializer lc true = pure true
  finish cluster initializer lc false = do
    removed ← remove_initializer cluster initializer lc
    pure false

  target_of : Fetched E InitTarget → Run Object E S InitTarget
  target_of (found target) = pure target
  target_of (failed e) = raise (wrapped failed_to_get_init_target (external e))

  -- The method `reconcile`.
  unfoldable pub reconcile : Reconciler E S → Text → LogicalCluster → Run Object E S Bool
  unfolding finish target_of
  reconcile r cluster lc = do
    fetched ← query r.target_provider
    target ← target_of fetched
    requeue ← reconcile_sources cluster target lc 0 false target.spec.sources
    finish cluster r.initializer lc requeue

  -- The event that Reconcile records on an error.
  report : Outcome E Bool → Run Object E S Bool
  report (ok requeue) w = (ok requeue, w)
  report (err e) w = (err e, record w { calls = event_recorded e ∷ w.calls })
  report panicked w = (panicked, w)

  reported : Run Object E S Bool → Run Object E S Bool
  unfolding report
  reported m w = let (r, w') = m w in report r w'

  got_cluster : Option E → Run Object E S (Unit {0})
  got_cluster none = pure tt
  got_cluster (some e) = raise (wrapped failed_to_get_cluster (external e))

  -- `ctrlruntimeclient.IgnoreNotFound(err) != nil`
  fetched_cluster : Fetched E LogicalCluster → Run Object E S LogicalCluster
  fetched_cluster (found lc) = pure lc
  fetched_cluster (failed e) =
      if remote.is_not_found e
      then pure empty_cluster
      else raise (wrapped failed_to_retrieve_logicalcluster (external e))

  -- From `workspace := kcp.ClusterPathFromObject(lc)` on.
  unfoldable pub initialize_cluster : Reconciler E S → Text → LogicalCluster → Run Object E S Result
  unfolding cluster_path_from_object reported
  initialize_cluster r cluster lc = do
    workspace ← lift (cluster_path_from_object remote lc.meta)
    requeue ← reported (reconcile r cluster lc)
    pure (if requeue then record { requeue_after = 5 } else done)

  -- The method `Reconcile`.
  unfoldable pub reconcile_request : Reconciler E S → Request → Run Object E S Result
  unfolding got_cluster fetched_cluster contains
  reconcile_request r req = do
    failure ← query (remote.get_cluster req.cluster_name)
    cluster ← got_cluster failure
    fetched ← query (remote.get_logical_cluster req.cluster_name req.name)
    lc ← fetched_cluster fetched
    if is_empty lc.meta.name
        then pure done
        else if not (contains lc.initializers r.initializer)
        then pure done
        else initialize_cluster r req.cluster_name lc
