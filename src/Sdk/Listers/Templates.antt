-- ===== src/Sdk/Listers/Templates.antt =====
-- sdk/listers/initialization/v1alpha1/inittemplate.go.
use init_agent.Base.{List, Option, Text, codes}
use init_agent.Sdk.Types.{InitTemplate}
use init_agent.Sdk.Listers.{Indexer, Got, returned, got_of}

abbrev pub resource : Text
resource = codes "inittemplates"

module _ {Ix Sel E : Type 0} (indexer : Indexer Ix Sel InitTemplate E) (ix : Ix) where
  -- List of the lister across workspaces.
  unfoldable pub cluster_list : Sel → List InitTemplate × Option E
  unfolding returned
  cluster_list selector = returned (indexer.list_all ix selector)

  -- List and Get of the lister of one workspace.
  unfoldable pub list : Text → Sel → List InitTemplate × Option E
  unfolding returned
  list cluster selector = returned (indexer.list_all_by_cluster ix cluster selector)

  unfoldable pub get : Text → Text → Got InitTemplate E
  unfolding got_of
  get cluster name =
      let key = indexer.to_cluster_aware_key cluster name in
      got_of resource name (indexer.get_by_key ix key)

  -- List and Get of the lister whose keys are names.
  unfoldable pub scoped_list : Sel → List InitTemplate × Option E
  unfolding returned
  scoped_list selector = returned (indexer.list_all ix selector)

  unfoldable pub scoped_get : Text → Got InitTemplate E
  unfolding got_of
  scoped_get name = got_of resource name (indexer.get_by_key ix name)
