-- ===== src/Agent.antt =====
-- How cmd/init-agent/main.go joins the two controllers: the closure newInitController of `run`,
-- which the target controller calls.
pub mod Initializes
use init_agent.Base.{ℕ, Option, Text}
use init_agent.Sdk.Types.{InitTarget}
use init_agent.Remote.{Fetched}
use init_agent.TargetController.{Services}
use init_agent.InitController.Create.{Controller, create}

abbrev pub num_init_workers : ℕ
num_init_workers = 4

module _ {E S M : Type 0} (complete : M → Controller E S → S → Option E × S) where
  -- The closure; `complete` is Complete of the multicluster builder.
  unfoldable pub new_init_controller : M → (S → Fetched E InitTarget × S) → Text → S → Option E × S
  unfolding create
  new_init_controller remote_manager target_provider initializer =
      create complete remote_manager target_provider initializer num_init_workers

  -- The services of the target controller with the closure that `run` gives to Add.
  abbrev pub joined : {R : Type 0} → Services E S M R → Services E S M R
  joined services = record services { new_init_controller = new_init_controller }
