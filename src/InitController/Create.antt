-- ===== src/InitController/Create.antt =====
-- internal/controller/initcontroller/controller.go: Create, which hands a Reconciler to the builder
-- of a multicluster manager.
use init_agent.Base.{ℕ, Bool, true, Option, Text, codes}
use init_agent.Sdk.Types.{InitTarget}
use init_agent.Remote.{Fetched}
use init_agent.InitController.{Reconciler}

-- What the builder is given: the name and the options of the controller, and its Reconciler.
pub record Controller (E S : Type 0) : Type 0 where
  pub named : Text
  pub max_concurrent_reconciles : ℕ
  pub skip_name_validation : Bool
  pub reconciler : Reconciler E S

abbrev pub controller_name : Text
controller_name = codes "initagent-init"

-- `complete` is Complete of the builder for a manager; the result is its error.
unfoldable pub create :
    {E S M : Type 0}
    → (M → Controller E S → S → Option E × S)
    → M
    → (S → Fetched E InitTarget × S)
    → Text
    → ℕ
    → S
    → Option E × S
create complete remote_manager target_provider initializer num_workers =
    complete remote_manager (record {
      named = controller_name;
      max_concurrent_reconciles = num_workers;
      skip_name_validation = true;
      reconciler = record { target_provider = target_provider; initializer = initializer };
    })
