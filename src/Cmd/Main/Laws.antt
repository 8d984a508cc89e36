-- ===== src/Cmd/Main/Laws.antt =====
-- What the command sets up, whatever configuration it starts with.
use init_agent.Base.{◌≡◌, refl, sym, ◌∙◌, ◌++◌, ap, List, [], Text, true, some, ◌⊎◌, inl, inr}
use init_agent.Go.Strings.{is_empty}
use init_agent.Remote.{found}
use init_agent.Kcp.Rest.{clusters, RestConfig, strip_cluster, retarget_rest_config, cluster_config}
use init_agent.Kcp.Rest.Laws.{IsSegment, strip_cluster-cluster_config}
use init_agent.Controllerutil.{by_labels}
use init_agent.Cmd.Options.{Options, validate, IsValid, validate-complete}
use init_agent.Cmd.Main.{
  Libraries, Setup, Controller, ManagerOptions, ran, labels_of, setup_manager, run, main_parsed,
}

module _ {R : Type 0} (cfg : RestConfig R) (name other : Text) (v : IsSegment name)
    (w : IsSegment other) where
  same_stripped : strip_cluster (cluster_config cfg name) ≡ strip_cluster (cluster_config cfg other)
  same_stripped =
      strip_cluster-cluster_config cfg name v ∙ sym (strip_cluster-cluster_config cfg other w)

  same_retargeted :
      (workspace : Text)
      → retarget_rest_config (cluster_config cfg name) workspace
        ≡ retarget_rest_config (cluster_config cfg other) workspace
  unfolding retarget_rest_config
  same_retargeted workspace =
      ap (λ (c : RestConfig R). record c { host = c.host ++ (clusters ++ workspace) }) same_stripped

module _ {E Sel R M : Type 0} (libraries : Libraries E Sel R M) (opts : Options Sel) where
  same_manager :
      (cfg cfg' : RestConfig R)
      → retarget_rest_config cfg opts.config_workspace
        ≡ retarget_rest_config cfg' opts.config_workspace
      → setup_manager libraries cfg opts ≡ setup_manager libraries cfg' opts
  unfolding setup_manager
  same_manager cfg cfg' e = rw e

  -- The agent does the same whichever logical cluster its configuration points at: with two
  -- configurations of one host, for two clusters with valid names, it sets up the same managers,
  -- controllers and clients, and ends in the same way.
  pub run-cluster_config :
      (cfg : RestConfig R) (name other : Text) (done : List (Setup R M))
      → IsSegment name
      → IsSegment other
      → run libraries (cluster_config cfg name) opts done
        ≡ run libraries (cluster_config cfg other) opts done
  unfolding run
  run-cluster_config cfg name other done v w =
      let managers =
        same_manager (cluster_config cfg name) (cluster_config cfg other)
          (same_retargeted cfg name other v w opts.config_workspace) in
      rw (managers, same_stripped cfg name other v w)

  abbrev pub manager_options : ManagerOptions
  manager_options = record {
    metrics_bind_address = opts.metrics_addr;
    leader_election = opts.enable_leader_election;
    health_probe_bind_address = opts.health_addr;
  }

  abbrev pub controller : RestConfig R → Sel → Controller R
  controller cfg selector = record {
    max_concurrent_reconciles = 1;
    predicates = by_labels libraries.matches labels_of selector;
    cluster_client = strip_cluster cfg;
    source_factory = record { cluster_client = strip_cluster cfg };
  }

  -- With options that Validate accepts, which name a known log format and a workspace, main
  -- reports no error of Complete and runs: with these options if the text of no selector is given,
  -- and else with the parsed selector in them.
  pub main_valid_lem :
      (cfg : RestConfig R)
      → validate libraries.parse opts ≡ []
      → IsValid libraries.parse opts
        × ((is_empty opts.init_target_selector_string ≡ true)
              × (main_parsed libraries (some cfg) opts ≡ ran (run libraries cfg opts []).0)
            ⊎ ((sel : Sel) × (libraries.parse opts.init_target_selector_string ≡ found sel)
                × (main_parsed libraries (some cfg) opts
                    ≡ ran
                        (run libraries cfg
                          (record opts { init_target_selector = some sel })
                          []).0)))
  unfolding main_parsed
  main_valid_lem cfg h =
      let (valid, completed) = validate-complete libraries.parse opts h in
      (
        valid,
        elim completed [
          | inl (absent, same) ↦ inl (absent, rw (h, same) refl)
          | inr (sel, parses, same) ↦ inr (sel, parses, rw (h, same) refl)
        ],
      )
