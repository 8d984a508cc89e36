-- ===== src/Examples/Initializing.antt =====
-- One reconciliation of a logical cluster with the initializer.
use init_agent.Base.{
  ℕ, ◌≡◌, refl, Bool, true, false, none, some, ◌⊎◌, List, [], ◌∷◌, Text, codes, text_eq, some,
  if◌then◌else◌,
}
use init_agent.Go.Slices.{contains, delete_func}
use init_agent.Go.Context.{
  Context, background, from_context, cluster_from_context, workspace_path_from_context,
}
use init_agent.Go.Context.Settings.{
  Setting, after, last_log, last_cluster, last_path, context_settings,
}
use init_agent.Effect.{ok, created, patched, World}
use init_agent.Go.Maps.{lookup}
use init_agent.Manifest.{object_weight, sort_objects_by_hierarchy}
use init_agent.Manifest.Apply.{apply}
use init_agent.Source.Laws.{Rendered, rendered_lem}
use init_agent.Source.{new_for_init_source, manifests}
use init_agent.Effect.Quiet.{patches}
use init_agent.InitController.{
  reconcile, reconcile_source, reconcile_sources, remove_initializer, Request, done,
  initialize_cluster, reconcile_request,
}
use init_agent.InitController.Removal.{without, removal_outcome, remove_initializer_lem}
use init_agent.InitController.Safety.{Completed, reconcile-Safe}
use init_agent.Examples.Doubles.{double, namespace, target, lc, kcp_initializer, reconciler, start}
use init_agent.InitController.Success.{Succeeded}
use init_agent.InitController.Requests.{reconcile_request-ok}

abbrev settings : List (Setting ℕ)
settings =
    Setting.log 2 ∷ Setting.log 1 ∷ Setting.path (codes "root") ∷ Setting.cluster (codes "c") ∷ []

context_settings_example :
    let ctx : Context ℕ = after settings background in
    (from_context 0 ctx ≡ last_log settings (from_context 0 background))
    × (cluster_from_context ctx ≡ last_cluster settings (cluster_from_context {L = ℕ} background))
    × (workspace_path_from_context [] ctx
        ≡ last_path settings (workspace_path_from_context {L = ℕ} [] background))
context_settings_example = context_settings settings background 0 []

abbrev cluster : Text
cluster = codes "cluster"

run_of_target :
    reconcile_sources double cluster target lc 0 false target.spec.sources start
    ≡ (ok false, record { server = 1; calls = created (codes "Namespace") none ∷ [] })
unfolding reconcile_sources reconcile_source new_for_init_source manifests lookup text_eq apply
    sort_objects_by_hierarchy object_weight
run_of_target = refl

lc_has_initializer : contains lc.initializers kcp_initializer ≡ true
unfolding contains text_eq
lc_has_initializer = refl

remove_initializer_lem_example :
    (remove_initializer double cluster kcp_initializer lc start ≡ (
      removal_outcome none,
      record { server = 1; calls = patched (without kcp_initializer lc.initializers) none ∷ [] },
    ))
    × (contains (without kcp_initializer lc.initializers) kcp_initializer ≡ false)
    × ((other : Text)
        → text_eq other kcp_initializer ≡ false
        → contains (without kcp_initializer lc.initializers) other ≡ contains lc.initializers other)
remove_initializer_lem_example =
    remove_initializer_lem double cluster kcp_initializer lc start lc_has_initializer

reconcile-Safe_example :
    (patches (reconcile double reconciler cluster lc start).1.calls ≡ patches start.calls)
    ⊎ Completed double reconciler cluster lc start (reconcile double reconciler cluster lc start).1
reconcile-Safe_example = reconcile-Safe double reconciler cluster lc start

abbrev request : Request
request = record { cluster_name = cluster; name = codes "cluster" }

abbrev after_request : World Text ℕ ℕ
after_request = record {
  server = 2;
  calls = patched (codes "other" ∷ []) none ∷ created (codes "Namespace") none ∷ [];
}

run_of_request : reconcile_request double reconciler request start ≡ (ok done, after_request)
unfolding reconcile_request initialize_cluster reconcile remove_initializer reconcile_sources
    reconcile_source new_for_init_source manifests lookup text_eq apply sort_objects_by_hierarchy
    object_weight contains delete_func
run_of_request = refl

reconcile_request-ok_example :
    (b : Bool) × Succeeded double reconciler cluster lc start after_request b
    × (done ≡ (if b then record { requeue_after = 5 } else done))
reconcile_request-ok_example =
    reconcile_request-ok double reconciler request start lc 0 0 refl refl refl lc_has_initializer
      run_of_request

rendered_lem_example :
    Rendered double cluster
      (record { template = some (record { name = codes "base" }) })
      lc
      start
      start
      (namespace ∷ [])
unfolding new_for_init_source manifests lookup text_eq
rendered_lem_example =
    rendered_lem double cluster (record { template = some (record { name = codes "base" }) }) lc
      start start (namespace ∷ []) refl
