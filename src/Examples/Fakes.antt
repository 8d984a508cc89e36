-- ===== src/Examples/Fakes.antt =====
-- A fake client whose server knows one InitTarget.
use init_agent.Base.{
  ℕ, zero, suc, ◌≡◌, ◌≢◌, ◌⊎◌, true, none, some, [], ◌∷◌, ◌++◌, List, Text, codes,
}
use init_agent.Effect.{ok, panicked}
use init_agent.Remote.{found}
use init_agent.Sdk.Types.{InitTarget, InitTemplate}
use init_agent.Sdk.ApplyConfiguration.{InitTargetApplyConfiguration, init_target}
use init_agent.Sdk.Fakes.{Testing}
use init_agent.Sdk.Fakes.Targets
use init_agent.Sdk.Fakes.Templates
use init_agent.Sdk.TemplateConfiguration.{InitTemplateApplyConfiguration, init_template}
use init_agent.Go.Maps.{Map}
use init_agent.Sdk.Fakes.Clientset.{Trackers, ClusterClientset, new_simple_clientset}
use init_agent.Sdk.Fakes.Scoping.{TargetsEnd, TemplatesEnd, scoped_clients_agree}
use init_agent.Sdk.Fakes.Simple
use init_agent.Sdk.Fakes.Simple.{Tracking}
use init_agent.Sdk.Fakes.Filled.{Accepts, Refuses, new_simple_clientset-ends}
use init_agent.Sdk.Fakes.Laws.{Applies, apply-Applies}
use init_agent.Examples.Doubles.{target}

-- An action is a list of texts, as are the bytes of a configuration; the state counts the actions.
abbrev testing_of :
    {T Cfg : Type 0} → T → (T → Map Text) → Testing T Cfg (List Text) T ℕ ℕ ℕ ℕ ℕ ℕ (List Text) ℕ ℕ
testing_of object labels = record {
  wildcard = codes "*";
  list_action = λ resource kind cluster opts. codes "list" ∷ resource ∷ cluster ∷ [];
  watch_action = λ resource cluster opts. codes "watch" ∷ resource ∷ cluster ∷ [];
  create_action = λ resource cluster obj. codes "create" ∷ resource ∷ cluster ∷ [];
  update_action = λ resource cluster obj. codes "update" ∷ resource ∷ cluster ∷ [];
  update_subresource_action =
      λ resource cluster subresource obj. codes "update" ∷ resource ∷ cluster ∷ subresource ∷ [];
  delete_action = λ resource cluster name opts. codes "delete" ∷ resource ∷ cluster ∷ name ∷ [];
  delete_collection_action = λ resource cluster opts. codes "delete" ∷ resource ∷ cluster ∷ [];
  get_action = λ resource cluster name. codes "get" ∷ resource ∷ cluster ∷ name ∷ [];
  patch_subresource_action = λ resource cluster name pt bytes subresources.
      codes "patch" ∷ resource ∷ cluster ∷ name ∷ (bytes ++ subresources);
  apply_patch_type = 4;
  invokes = λ action empty actions. ((some object, none), suc actions);
  invokes_watch = λ action actions. ((some 1, none), suc actions);
  empty_object = object;
  empty_list = object;
  as_object = λ obj. some obj;
  as_list = λ obj. some (record { list_meta = 0; items = obj ∷ [] });
  labels_of = labels;
  label_selector = λ opts. none;
  everything = 0;
  matches = λ selector labels. true;
  marshal = λ configuration. found (codes "configuration" ∷ []);
}

abbrev testing :
    Testing InitTarget
      (InitTargetApplyConfiguration ℕ)
      (List Text)
      InitTarget
      ℕ
      ℕ
      ℕ
      ℕ
      ℕ
      ℕ
      (List Text)
      ℕ
      ℕ
testing = testing_of target (λ obj. obj.meta.labels)

abbrev template : InitTemplate
template = record { meta = target.meta; spec = record { template = codes "a" } }

abbrev templates_testing :
    Testing InitTemplate
      (InitTemplateApplyConfiguration ℕ)
      (List Text)
      InitTemplate
      ℕ
      ℕ
      ℕ
      ℕ
      ℕ
      ℕ
      (List Text)
      ℕ
      ℕ
templates_testing = testing_of template (λ obj. obj.meta.labels)

abbrev configuration : InitTargetApplyConfiguration ℕ
configuration = init_target (codes "prod")

abbrev template_configuration : InitTemplateApplyConfiguration ℕ
template_configuration = init_template (codes "base")

apply-Applies_example :
    Applies testing.marshal
      (Targets.patch testing (codes "root"))
      testing.apply_patch_type
      []
      (Targets.apply testing (codes "root"))
      configuration.object_meta
      configuration
      0
    × Applies testing.marshal
        (Targets.patch testing (codes "root"))
        testing.apply_patch_type
        (codes "status" ∷ [])
        (Targets.apply_status testing (codes "root"))
        configuration.object_meta
        configuration
        0
    × Applies templates_testing.marshal
        (Templates.patch templates_testing (codes "root"))
        templates_testing.apply_patch_type
        []
        (Templates.apply templates_testing (codes "root"))
        template_configuration.object_meta
        template_configuration
        0
    × Applies templates_testing.marshal
        (Templates.patch templates_testing (codes "root"))
        templates_testing.apply_patch_type
        (codes "status" ∷ [])
        (Templates.apply_status templates_testing (codes "root"))
        template_configuration.object_meta
        template_configuration
        0
apply-Applies_example =
    apply-Applies testing templates_testing (codes "root") configuration template_configuration 0

abbrev trackers : Trackers ℕ ℕ (ℕ × Text) ℕ ℕ InitTarget ℕ
trackers = record {
  wildcard = codes "*";
  new_object_tracker = λ w. (w, suc w);
  add_all = λ o objects w. w;
  new_fake = λ w. (w, suc w);
  object_reaction = λ o. o;
  watch_reaction = λ o. o;
  add_reactor = λ fake verb resource reaction w. suc w;
  add_watch_reactor = λ fake resource reaction w. suc w;
  tracker_of = λ o path. (o, path);
}

abbrev clientset : ClusterClientset ℕ ℕ
clientset = (new_simple_clientset trackers (target ∷ []) 0).0

scoped_clients_agree_example :
    ((codes "root" ≡ codes "*")
      × TargetsEnd {E = ℕ} trackers clientset (codes "root") panicked
      × TemplatesEnd {E = ℕ} trackers clientset (codes "root") panicked)
    ⊎ ((codes "root" ≢ codes "*")
        × TargetsEnd {E = ℕ} trackers clientset
            (codes "root")
            (ok (record { fake = clientset.fake; cluster_path = codes "root" }))
        × TemplatesEnd {E = ℕ} trackers clientset
            (codes "root")
            (ok (record { fake = clientset.fake; cluster_path = codes "root" })))
scoped_clients_agree_example = scoped_clients_agree trackers clientset (codes "root")

-- A tracker that accepts one object and refuses the second.
abbrev tracking : Tracking ℕ ℕ ℕ InitTarget ℕ ℕ ℕ ℕ ℕ ℕ
tracking = record {
  new_object_tracker = λ w. (7, 0);
  add = λ o obj w. elim w [ zero ↦ (none, 1) | suc n ↦ (some 5, suc n) ];
  new_fake = λ w. (w, suc w);
  object_reaction = λ o. o;
  add_reactor = λ fake verb resource reaction w. suc w;
  add_watch_reactor = λ fake resource reaction w. suc w;
  watch_options = λ action. none;
  no_options = 0;
  get_resource = λ action. action;
  get_namespace = λ action. [];
  watch = λ o resource namespace options w. (found 3, w);
}

new_simple_clientset-ends_example :
    ((w' : ℕ) × (cs : Simple.Clientset ℕ ℕ) × (w'' : ℕ) × Accepts tracking 7
        (target ∷ target ∷ [])
        0
        w'
      × (Simple.clientset_of tracking 7 w' ≡ (ok cs, w''))
      × (Simple.new_simple_clientset tracking (target ∷ target ∷ []) 0 ≡ (ok cs, w''))
      × (cs.tracker ≡ 7)
      × (cs.discovery ≡ cs.fake))
    ⊎ ((w' : ℕ) × Refuses tracking 7 (target ∷ target ∷ []) 0 w'
        × (Simple.new_simple_clientset tracking (target ∷ target ∷ []) 0 ≡ (panicked, w')))
new_simple_clientset-ends_example = new_simple_clientset-ends tracking (target ∷ target ∷ []) 0
