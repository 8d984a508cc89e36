-- ===== src/InitController/Results.antt =====
-- Every way in which Reconcile of the init controller ends.
use init_agent.Base.{◌≡◌, Bool, true, false, ◌∷◌, Text, ◌⊎◌, if◌then◌else◌}
use init_agent.Go.Slices.{contains}
use init_agent.Go.Strings.{is_empty}
use init_agent.Kcp.Annotations.{cluster_path_from_object}
use init_agent.Effect.{
  Error, external, wrapped, event_recorded, Outcome, ok, err, panicked, World,
  failed_to_retrieve_logicalcluster,
}
use init_agent.Remote.{Remote, LogicalCluster, Fetched, found, failed}
use init_agent.InitController.{Reconciler, Request, Result, done, reconcile}
use init_agent.InitController.Errors.{IsStepError}
use init_agent.InitController.Success.{Succeeded}

module _ {Object E S Tpl : Type 0} (remote : Remote Object E S Tpl) (r : Reconciler E S)
    (cluster : Text) where
  -- A logical cluster with the initializer: the request panics if it has no path. Else all sources
  -- went through, and the result is as Succeeded says; or a step failed, with its error, and an
  -- event with the error was recorded after all that the reconciliation did.
  abbrev pub Tried :
      LogicalCluster → World Object E S → Outcome E Result × World Object E S → Type 0
  Tried lc v result =
      ((cluster_path_from_object remote lc.meta ≡ panicked) × (result ≡ (panicked, v)))
      ⊎ ((path : Text) × (cluster_path_from_object remote lc.meta ≡ ok path)
          × (((b : Bool) × (w' : World Object E S) × Succeeded remote r cluster lc v w' b
                × (result ≡ (ok (if b then record { requeue_after = 5 } else done), w')))
              ⊎ ((e : Error E) × (w' : World Object E S) × IsStepError e
                  × (reconcile remote r cluster lc v ≡ (err e, w'))
                  × (result ≡ (err e, record w' { calls = event_recorded e ∷ w'.calls })))))

  -- What follows the answer for the logical cluster.
  abbrev pub Answered :
      Fetched E LogicalCluster → World Object E S → Outcome E Result × World Object E S → Type 0
  Answered (failed e) v result =
      ((remote.is_not_found e ≡ true) × (result ≡ (ok done, v)))
      ⊎ ((remote.is_not_found e ≡ false)
          × (result ≡ (err (wrapped failed_to_retrieve_logicalcluster (external e)), v)))
  Answered (found lc) v result =
      (((is_empty lc.meta.name ≡ true) ⊎ (contains lc.initializers r.initializer ≡ false))
        × (result ≡ (ok done, v)))
      ⊎ ((is_empty lc.meta.name ≡ false)
          × (contains lc.initializers r.initializer ≡ true)
          × Tried lc v result)

  module _ (name : Text) where
    abbrev request : Request
    request = record { cluster_name = cluster; name = name }
