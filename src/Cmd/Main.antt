-- ===== src/Cmd/Main.antt =====
-- cmd/init-agent/main.go and Add of internal/controller/targetcontroller/controller.go: the start
-- of the agent. The state of a run is the list of what was set up, the last first.
pub mod Laws
pub mod Started
use init_agent.Base.{ℕ, Bool, Option, none, some, List, [], ◌∷◌, Text, if◌then◌else◌}
use init_agent.Go.Maps.{Map}
use init_agent.Kcp.Rest.{RestConfig, strip_cluster, retarget_rest_config}
use init_agent.Controllerutil.{Funcs, by_labels}
use init_agent.Sdk.Types.{InitTarget}
use init_agent.Remote.{Fetched, found, failed}
use init_agent.Effect.{
  Error, external, wrapped, Outcome, ok, panicked, Action, pure, raise, lift, wrap_run, ◌>>=◌,
  failed_to_setup_source_factory, failed_to_setup_local_manager, failed_to_register_local_scheme,
  failed_to_add_targetcontroller,
}
use init_agent.Go.Flags.{Flag}
use init_agent.Cmd.Options.{Options, OptionError, new_options, add_flags, validate, complete}

-- The fields of manager.Options that the command sets from its own options.
pub record ManagerOptions : Type 0 where
  pub metrics_bind_address : Text
  pub leader_election : Bool
  pub health_probe_bind_address : Text

-- source.Factory by the configuration of its cluster client.
pub record SourceFactory (R : Type 0) : Type 0 where
  pub cluster_client : RestConfig R

-- The controller that Add builds: its workers, the filter of its events, and the configuration of
-- the cluster client that its Reconciler has; `source_factory` is what the closure
-- newInitController holds.
pub record Controller (R : Type 0) : Type 0 where
  pub max_concurrent_reconciles : ℕ
  pub predicates : Funcs InitTarget
  pub cluster_client : RestConfig R
  pub source_factory : SourceFactory R

pub data Setup (R M : Type 0) : Type 0 where
  manager_made : RestConfig R → ManagerOptions → Setup R M
  controller_built : M → Controller R → Setup R M
  manager_started : M → Setup R M

-- What the command uses of libraries: AddToScheme of the core group and of the agent's group,
-- manager.New, Complete of the builder, Start of a manager, Matches of a selector and labels.Parse.
pub record Libraries (E Sel R M : Type 0) : Type 0 where
  pub add_core : Option E
  pub add_initialization : Option E
  pub new_manager : RestConfig R → ManagerOptions → Fetched E M
  pub complete_builder : M → Controller R → Option E
  pub start_manager : M → Option E
  pub matches : Sel → Map Text → Bool
  pub parse : Text → Fetched E Sel

-- How the process ends: in pflag.Parse, with the errors of the command line, without a
-- configuration, or with the result of `run`.
pub data Ending (E : Type 0) : Type 0 where
  flags_refused : Ending E
  invalid_options : List (OptionError E) → Ending E
  no_config : Ending E
  ran : Outcome E (Unit {0}) → Ending E

abbrev pub labels_of : InitTarget → Map Text
labels_of target = target.meta.labels

module _ {E Sel R M : Type 0} (libraries : Libraries E Sel R M) where
  registered : Option E → Action (List (Setup R M)) E (Unit {0})
  registered none = pure tt
  registered (some e) = raise (wrapped failed_to_register_local_scheme (external e))

  returned : Option E → Action (List (Setup R M)) E (Unit {0})
  returned none = pure tt
  returned (some e) = raise (external e)

  created : Fetched E M → Action (List (Setup R M)) E M
  created (found mgr) = pure mgr
  created (failed e) = raise (external e)

  noted : Setup R M → Action (List (Setup R M)) E (Unit {0})
  noted s done = (ok tt, s ∷ done)

  setup_source_factory : RestConfig R → Action (List (Setup R M)) E (SourceFactory R)
  setup_source_factory cluster_client = pure (record { cluster_client = cluster_client })

  unfoldable pub setup_manager : RestConfig R → Options Sel → Action (List (Setup R M)) E M
  unfolding registered created noted
  setup_manager cfg opts = do
    let config = retarget_rest_config cfg opts.config_workspace
    let options : ManagerOptions = record {
      metrics_bind_address = opts.metrics_addr;
      leader_election = opts.enable_leader_election;
      health_probe_bind_address = opts.health_addr;
    }
    core ← registered libraries.add_core
    initialization ← registered libraries.add_initialization
    made ← noted (manager_made config options)
    created (libraries.new_manager config options)

  -- Add of the target controller.
  unfoldable pub add :
      M → Funcs InitTarget → RestConfig R → SourceFactory R → Action (List (Setup R M)) E (Unit {0})
  unfolding returned noted
  add mgr predicates cluster_client source_factory = do
    let controller : Controller R = record {
      max_concurrent_reconciles = 1;
      predicates = predicates;
      cluster_client = cluster_client;
      source_factory = source_factory;
    }
    built ← noted (controller_built mgr controller)
    returned (libraries.complete_builder mgr controller)

  -- `opts.InitTargetSelector.String()` panics on a nil selector.
  selector_of : Option Sel → Outcome E Sel
  selector_of none = panicked
  selector_of (some selector) = ok selector

  -- From the configuration that GetConfigOrDie returns to the end of `mgr.Start`.
  unfoldable pub run : RestConfig R → Options Sel → Action (List (Setup R M)) E (Unit {0})
  unfolding selector_of setup_source_factory returned noted
  run cfg opts = do
    selector ← lift (selector_of opts.init_target_selector)
    let cluster_client = strip_cluster cfg
    source_factory ← wrap_run failed_to_setup_source_factory (setup_source_factory cluster_client)
    mgr ← wrap_run failed_to_setup_local_manager (setup_manager cfg opts)
    added ←
        wrap_run failed_to_add_targetcontroller
          (add mgr (by_labels libraries.matches labels_of selector) cluster_client source_factory)
    started ← noted (manager_started mgr)
    returned (libraries.start_manager mgr)

  run_completed : Option (RestConfig R) → Options Sel × List (OptionError E) → Ending E
  unfolding run
  run_completed config (opts, e ∷ errors) = invalid_options (e ∷ errors)
  run_completed none (opts, []) = no_config
  run_completed (some cfg) (opts, []) = ran (run cfg opts []).0

  main_valid : Option (RestConfig R) → Options Sel → List (OptionError E) → Ending E
  unfolding run_completed
  main_valid config opts [] = run_completed config (complete libraries.parse opts)
  main_valid config opts (e ∷ errors) = invalid_options (e ∷ errors)

  -- What main does with the parsed options; `config` is what the flags and the environment give to
  -- GetConfigOrDie.
  unfoldable pub main_parsed : Option (RestConfig R) → Options Sel → Ending E
  unfolding main_valid
  main_parsed config opts = main_valid config opts (validate libraries.parse opts)

  main_flags : Option (RestConfig R) → Option (Options Sel) → Ending E
  unfolding main_parsed
  main_flags config none = flags_refused
  main_flags config (some opts) = main_parsed config opts

  -- `parse_flags` is pflag.Parse on the registered flags and the options that they write, which
  -- exits on an error; `everything` is labels.Everything() and `unicode` is unicode.ToLower.
  unfoldable pub main :
      (ℕ → ℕ)
      → Sel
      → (List (Flag (Options Sel)) → Options Sel → Option (Options Sel))
      → Option (RestConfig R)
      → Ending E
  unfolding new_options add_flags main_flags
  main unicode everything parse_flags config =
      let opts = new_options everything in
      main_flags config (parse_flags (add_flags unicode opts) opts)
