-- ===== src/Sdk/Fakes/Templates.antt =====
-- sdk/clientset/versioned/cluster/typed/initialization/v1alpha1/fake/inittemplate.go.
use init_agent.Base.{Option, none, some, List, [], ◌∷◌, Text, codes}
use init_agent.Effect.{external, plain, Outcome, apply_configuration_required, name_required}
use init_agent.Remote.{found, failed}
use init_agent.Sdk.Types.{InitTemplate}
use init_agent.Sdk.TemplateConfiguration.{InitTemplateApplyConfiguration}
use init_agent.Sdk.Fakes.{
  Testing, ListOf, Returned, returns, panics, typed, error_of, scoped, selector_or, listed,
}

abbrev pub resource : Text
resource = codes "inittemplates"

abbrev pub kind : Text
kind = codes "InitTemplate"

module _ {O Act Any V M LO Sel DO Pt B E W : Type 0}
    (testing : Testing InitTemplate
      (InitTemplateApplyConfiguration O)
      Act
      Any
      V
      M
      LO
      Sel
      DO
      Pt
      B
      E
      W) where
  -- Cluster, List and Watch of the client for all clusters.
  unfoldable pub cluster : Text → Outcome E Text
  unfolding scoped
  cluster cluster_path = scoped testing.wildcard cluster_path

  unfoldable pub cluster_list : LO → W → Returned E (ListOf M InitTemplate) × W
  cluster_list opts w =
      listed testing.as_list
        (λ item.
          testing.matches (selector_or testing.everything (testing.label_selector opts))
            (testing.labels_of item))
        (testing.invokes (testing.list_action resource kind testing.wildcard opts)
          testing.empty_list w)

  unfoldable pub cluster_watch : LO → W → (Option V × Option E) × W
  cluster_watch opts = testing.invokes_watch (testing.watch_action resource testing.wildcard opts)

  -- The methods of the client for one cluster.
  unfoldable pub create : Text → InitTemplate → W → Returned E InitTemplate × W
  create cluster_path obj w =
      typed testing.as_object
        (testing.invokes (testing.create_action resource cluster_path obj) testing.empty_object w)

  unfoldable pub update : Text → InitTemplate → W → Returned E InitTemplate × W
  update cluster_path obj w =
      typed testing.as_object
        (testing.invokes (testing.update_action resource cluster_path obj) testing.empty_object w)

  unfoldable pub update_status : Text → InitTemplate → W → Returned E InitTemplate × W
  update_status cluster_path obj w = typed testing.as_object (
      testing.invokes (testing.update_subresource_action resource cluster_path (codes "status") obj)
        testing.empty_object w)

  unfoldable pub delete : Text → Text → DO → W → Option E × W
  delete cluster_path name opts w = error_of (
      testing.invokes (testing.delete_action resource cluster_path name opts) testing.empty_object
        w)

  unfoldable pub delete_collection : Text → LO → W → Option E × W
  delete_collection cluster_path list_opts w = error_of (
      testing.invokes (testing.delete_collection_action resource cluster_path list_opts)
        testing.empty_list w)

  unfoldable pub get : Text → Text → W → Returned E InitTemplate × W
  get cluster_path name w =
      typed testing.as_object
        (testing.invokes (testing.get_action resource cluster_path name) testing.empty_object w)

  unfoldable pub list : Text → LO → W → Returned E (ListOf M InitTemplate) × W
  list cluster_path opts w =
      listed testing.as_list
        (λ item.
          testing.matches (selector_or testing.everything (testing.label_selector opts))
            (testing.labels_of item))
        (testing.invokes (testing.list_action resource kind cluster_path opts) testing.empty_list w)

  unfoldable pub watch : Text → LO → W → (Option V × Option E) × W
  watch cluster_path opts = testing.invokes_watch (testing.watch_action resource cluster_path opts)

  unfoldable pub patch : Text → Text → Pt → B → List Text → W → Returned E InitTemplate × W
  patch cluster_path name pt bytes subresources w = typed testing.as_object (
      testing.invokes
        (testing.patch_subresource_action resource cluster_path name pt bytes subresources)
        testing.empty_object w)

  -- Apply and ApplyStatus. `name := applyConfiguration.Name` reads a field of the embedded metadata,
  -- which panics on nil.
  unfoldable pub apply :
      Text → Option (InitTemplateApplyConfiguration O) → W → Returned E InitTemplate × W
  apply cluster_path none w = (returns none (some (plain apply_configuration_required)), w)
  apply cluster_path (some configuration) w = elim (testing.marshal configuration) [
    | failed e ↦ (returns none (some (external e)), w)
    | found bytes ↦ elim configuration.object_meta [
      | none ↦ (panics, w)
      | some meta ↦ elim meta.name [
        | none ↦ (returns none (some (plain name_required)), w)
        | some name ↦ typed testing.as_object (
            testing.invokes
              (testing.patch_subresource_action resource cluster_path name testing.apply_patch_type
                bytes [])
              testing.empty_object w)
      ]
    ]
  ]

  unfoldable pub apply_status :
      Text → Option (InitTemplateApplyConfiguration O) → W → Returned E InitTemplate × W
  apply_status cluster_path none w = (returns none (some (plain apply_configuration_required)), w)
  apply_status cluster_path (some configuration) w = elim (testing.marshal configuration) [
    | failed e ↦ (returns none (some (external e)), w)
    | found bytes ↦ elim configuration.object_meta [
      | none ↦ (panics, w)
      | some meta ↦ elim meta.name [
        | none ↦ (returns none (some (plain name_required)), w)
        | some name ↦ typed testing.as_object (
            testing.invokes
              (testing.patch_subresource_action resource cluster_path name testing.apply_patch_type
                bytes (codes "status" ∷ []))
              testing.empty_object w)
      ]
    ]
  ]
