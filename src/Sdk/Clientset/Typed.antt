-- ===== src/Sdk/Clientset/Typed.antt =====
-- The clients of the two types on client-go's gentype: typed/initialization/v1alpha1/inittarget.go and
-- inittemplate.go, and cluster/typed/initialization/v1alpha1/inittarget.go and inittemplate.go for all
-- clusters; with New and the accessors of the clientsets.
use init_agent.Base.{Option, none, some, [], Text, codes}
use init_agent.Effect.{Action, pure, ◌>>=◌}
use init_agent.Remote.{Fetched}
use init_agent.Sdk.Types.{ObjectMeta, InitTarget, InitTemplate}
use init_agent.Sdk.Clientset.{Clientset, call}
use init_agent.Sdk.Clientset.Cluster.{Cache, ClusterClientset, scoped_client}
use init_agent.Sdk.Fakes.{ListOf}

-- gentype.NewClientWithList for objects `T`, with the name of the resource, the REST client, the
-- namespace, an empty object and an empty list; and the methods that reach all clusters. `Cl` stands
-- for its clients, `M` for the metadata of lists, `V` for watches and `LO` for list options.
pub record GenType (T C Cl M V LO E W : Type 0) : Type 0 where
  pub empty_list_meta : M
  pub new_client_with_list : Text → C → Text → T → ListOf M T → Cl
  pub list : Cl → LO → W → Fetched E (ListOf M T) × W
  pub watch : Cl → LO → W → Fetched E V × W

abbrev no_meta : ObjectMeta
no_meta = record { name = []; uid = []; deletion_timestamp = none; labels = []; annotations = [] }

-- `&InitTarget{}` and `&InitTemplate{}`
abbrev pub empty_init_target : InitTarget
empty_init_target = record {
  meta = no_meta;
  spec = record { workspace_type_reference = record { path = []; name = [] }; sources = [] };
}

abbrev pub empty_init_template : InitTemplate
empty_init_template = record { meta = no_meta; spec = record { template = [] } }

module _ {C Cl M V LO E W : Type 0} where
  -- newInitTargets, for InitTargets of a client of the group.
  unfoldable pub new_init_targets : GenType InitTarget C Cl M V LO E W → C → Cl
  new_init_targets gentype c =
      gentype.new_client_with_list (codes "inittargets") c [] empty_init_target
        (record { list_meta = gentype.empty_list_meta; items = [] })

  unfoldable pub new_init_templates : GenType InitTemplate C Cl M V LO E W → C → Cl
  new_init_templates gentype c =
      gentype.new_client_with_list (codes "inittemplates") c [] empty_init_template
        (record { list_meta = gentype.empty_list_meta; items = [] })

module _ {Cfg H C K Cl M V LO E W : Type 0} (caches : Cache Cfg H C K E W) (wildcard : Text) where
  module _ (gentype : GenType InitTarget C Cl M V LO E W) where
    -- Cluster, List and Watch of the InitTargets of all clusters.
    unfoldable pub init_targets_cluster : K → Text → Action W E Cl
    unfolding scoped_client new_init_targets
    init_targets_cluster cache cluster_path = do
      c ← scoped_client caches wildcard cache cluster_path
      pure (new_init_targets gentype c)

    unfoldable pub init_targets_list : K → LO → Action W E (ListOf M InitTarget)
    unfolding new_init_targets
    init_targets_list cache opts = do
      c ← caches.cluster_or_die cache wildcard
      call (gentype.list (new_init_targets gentype c) opts)

    unfoldable pub init_targets_watch : K → LO → Action W E V
    unfolding new_init_targets
    init_targets_watch cache opts = do
      c ← caches.cluster_or_die cache wildcard
      call (gentype.watch (new_init_targets gentype c) opts)

  module _ (gentype : GenType InitTemplate C Cl M V LO E W) where
    -- The same of the InitTemplates.
    unfoldable pub init_templates_cluster : K → Text → Action W E Cl
    unfolding scoped_client new_init_templates
    init_templates_cluster cache cluster_path = do
      c ← scoped_client caches wildcard cache cluster_path
      pure (new_init_templates gentype c)

    unfoldable pub init_templates_list : K → LO → Action W E (ListOf M InitTemplate)
    unfolding new_init_templates
    init_templates_list cache opts = do
      c ← caches.cluster_or_die cache wildcard
      call (gentype.list (new_init_templates gentype c) opts)

    unfoldable pub init_templates_watch : K → LO → Action W E V
    unfolding new_init_templates
    init_templates_watch cache opts = do
      c ← caches.cluster_or_die cache wildcard
      call (gentype.watch (new_init_templates gentype c) opts)

-- New of a clientset, with NewDiscoveryClient; Discovery of a clientset that may be nil, for one
-- cluster and for all.
unfoldable pub new : {C D : Type 0} → (C → D) → C → Clientset C D
new new_discovery_client c = record {
  discovery_client = new_discovery_client c;
  initialization_v1alpha1 = c;
}

unfoldable pub discovery : {C D : Type 0} → Option (Clientset C D) → Option D
discovery none = none
discovery (some c) = some c.discovery_client

unfoldable pub cluster_discovery : {K J D : Type 0} → Option (ClusterClientset K J D) → Option D
cluster_discovery none = none
cluster_discovery (some c) = some c.discovery_client
