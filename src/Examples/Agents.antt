-- ===== src/Examples/Agents.antt =====
-- An InitTarget that is reconciled once, and a logical cluster of its type, on the cluster of
-- Examples/Clusters.
use init_agent.Base.{ℕ, ◌≡◌, refl, none, some, List, [], ◌∷◌, Option, Text, codes, text_eq, ◌==◌}
use init_agent.Go.Maps.{lookup}
use init_agent.Kcp.Annotations.{cluster_path_from_object}
use init_agent.Effect.{World, ok, patched}
use init_agent.Remote.{found}
use init_agent.TargetController.{Services, get_init_target_key, start_controller, reconcile_target}
use init_agent.TargetController.Grants.{Grants}
use init_agent.TargetController.Reachable.{init}
use init_agent.InitController.{done, reconcile_request}
use init_agent.InitController.Create.{Controller, create}
use init_agent.InitController.Removal.{without}
use init_agent.Agent.{joined, new_init_controller}
use init_agent.Agent.Initializes.{reconcile_target-initializes}
use init_agent.Examples.Doubles.{meta_of, lc, target, cfg, kcp_initializer}
use init_agent.Examples.Clusters.{holding, holding-Serves, cluster, start, Any}

-- A multicluster manager is a number, and each controller is taken.
abbrev services : Services ℕ (List Text) ℕ ℕ
services = record {
  is_not_found = λ e. e == 1;
  get_target = λ name s. (found target, s);
  cluster_from = λ meta. codes "cluster";
  add_tenancy = none;
  add_core = none;
  new_client = λ cfg s. (none, s);
  get_workspace_type = λ cluster name s. (found (meta_of name), s);
  initializer_for_type = λ meta. kcp_initializer;
  new_provider = λ cfg name s. (none, s);
  new_manager = λ cfg s. (found 7, s);
  new_init_controller = λ mgr target_provider initializer s. (some 1, s);
}

abbrev complete : ℕ → Controller ℕ (List Text) → List Text → Option ℕ × List Text
complete mgr controller s = (none, s)

joined-Grants : Grants (joined complete services) cfg target (meta_of (codes "team")) 7 Any
unfolding new_init_controller create
joined-Grants = record {
  tenancy = refl;
  core = refl;
  client = λ s p. (refl, tt);
  type = λ s p. (refl, tt);
  provider = λ s p. (refl, tt);
  manager = λ s p. (refl, tt);
  controller = λ s p. refl;
}

reconcile_target-initializes_example :
    (c : Controller ℕ (List Text)) × (s s' : List Text) × (complete 7 c s ≡ (none, s'))
    × (reconcile_target (joined complete services) cfg target.meta.name (init [])
        ≡ (ok tt, start_controller (get_init_target_key target) (record (init []) { server = s' })))
    × (w' v : World Text ℕ (List Text)) × (reconcile_request holding c.reconciler
          (record { cluster_name = cluster; name = lc.meta.name })
          start
        ≡ (ok done, w'))
    × (w'.calls ≡ patched (without kcp_initializer lc.initializers) none ∷ v.calls)
unfolding lookup text_eq cluster_path_from_object
reconcile_target-initializes_example =
    reconcile_target-initializes services complete cfg target joined-Grants holding cluster lc refl
      holding-Serves refl refl (λ s p. (refl, tt)) (λ s p. (refl, tt)) (init []) tt refl start tt
