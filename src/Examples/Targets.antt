-- ===== src/Examples/Targets.antt =====
-- An InitTarget that is fetched once, and the REST configurations of clusters.
use init_agent.Base.{
  ℕ, ◌≡◌, refl, false, some, ◌↔◌, [], ◌∷◌, ◌++◌, Text, codes, text_eq, get_elem?, length,
}
use init_agent.Go.Slices.{contains}
use init_agent.Go.Maps.{lookup}
use init_agent.Go.Strings.{trim_right}
use init_agent.Kcp.Rest.{has_slash, slash, strip_cluster, cluster_config, retarget_rest_config}
use init_agent.Kcp.Rest.Laws.{IsSegment, cluster_forgotten, strip_cluster-trailing_slash}
use init_agent.Effect.{ok}
use init_agent.TargetController.{
  State, Context, start_controller, reconcile_target, get_workspace_type,
  create_multicluster_manager,
}
use init_agent.TargetController.Results.{Ended, reconcile_target-Ended}
use init_agent.TargetController.Reachable.{init, Reach, here, next, ensured, one_live_controller}
use init_agent.TargetController.Grants.{Grants}
use init_agent.TargetController.Phases.{Phase, Moves, fleet}
use init_agent.TargetController.Phases.Refines.{at_rest, HasLive, reachable-Moves}
use init_agent.TargetController.Events.{manager_failed, reap}
use init_agent.TargetController.Restart.{manager_failed-restarts}
use init_agent.Examples.Doubles.{services, cfg, target, meta_of}

abbrev root : Text
root = codes "root"

root-IsSegment : IsSegment root
unfolding has_slash
root-IsSegment = record { filled = refl; whole = refl }

cluster_forgotten_example :
    (strip_cluster (cluster_config cfg root) ≡ record cfg { host = trim_right slash cfg.host })
    × (retarget_rest_config (retarget_rest_config cfg root) (codes "org")
        ≡ retarget_rest_config cfg (codes "org"))
cluster_forgotten_example = cluster_forgotten cfg root (codes "org") root-IsSegment

strip_cluster-trailing_slash_example :
    strip_cluster (record cfg { host = codes "https://kcp/clusters/root" ++ slash ∷ [] })
    ≡ record cfg { host = trim_right slash (codes "https://kcp/clusters/root") }
strip_cluster-trailing_slash_example =
    strip_cluster-trailing_slash cfg (codes "https://kcp/clusters/root")

abbrev empty : State ℕ
empty = init 0

abbrev running : State ℕ
running = (reconcile_target services cfg (codes "prod") empty).1

running-Reach : Reach services cfg 0 [] running
unfolding text_eq
running-Reach =
    next here (ensured (codes "prod") target 0 refl refl (unfold contains in refl) refl refl)

abbrev first : Context
first = record { id = 0; key = codes "prod"; cancelled = false; reaped = false }

first_started : get_elem? running.started 0 ≡ some first
unfolding reconcile_target text_eq lookup get_workspace_type create_multicluster_manager
first_started = refl

one_live_controller_example :
    (first.id ≡ first.id)
    × (lookup first.key running.ctrl_cancels ≡ some 0)
    × (contains [] first.key ≡ false)
one_live_controller_example =
    one_live_controller services cfg running-Reach 0 0 first first first_started first_started refl
      refl refl

reconcile_target-Ended_example :
    let (fetched, s) = services.get_target (codes "prod") empty.server in
    Ended services cfg fetched
      (record empty { server = s })
      (reconcile_target services cfg (codes "prod") empty)
reconcile_target-Ended_example = reconcile_target-Ended services cfg (codes "prod") empty

reachable-Moves_example :
    Moves at_rest (fleet [] running)
    × ((key : Text)
        → (((fleet [] running).phase key ≡ Phase.running) ↔ HasLive running key)
          × ((fleet [] running).phase key ≡ Phase.running
              → (contains [] key ≡ false) × (running.root_cancelled ≡ false)))
reachable-Moves_example = reachable-Moves services cfg running-Reach

services-Grants : Grants services cfg target (meta_of (codes "team")) 7 (λ s. Unit {0})
services-Grants = record {
  tenancy = refl;
  core = refl;
  client = λ s p. (refl, tt);
  type = λ s p. (refl, tt);
  provider = λ s p. (refl, tt);
  manager = λ s p. (refl, tt);
  controller = λ s p. refl;
}

manager_failed-restarts_example :
    let failed = manager_failed first.id running in
    let cleaned = reap first.id failed in
    (reconcile_target services cfg (codes "prod") failed
      ≡ (ok tt, record failed { server = (services.get_target (codes "prod") running.server).1 }))
    × (s' : ℕ) × (reconcile_target services cfg (codes "prod") cleaned
        ≡ (ok tt, start_controller first.key (record cleaned { server = s' })))
    × ((start_controller first.key (record cleaned { server = s' })).started
        ≡ record {
          id = length cleaned.started;
          key = first.key;
          cancelled = running.root_cancelled;
          reaped = false;
        }
          ∷ cleaned.started)
unfolding text_eq
manager_failed-restarts_example =
    manager_failed-restarts services cfg running-Reach target services-Grants (codes "prod") refl
      (λ s p. (refl, tt)) 0 first first_started refl refl tt
