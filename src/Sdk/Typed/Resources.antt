-- ===== src/Sdk/Typed/Resources.antt =====
-- sdk/informers/externalversions/generic.go, the interface.go files of the informers, and the
-- accessors of the factories: from a factory to the informer of a resource.
use init_agent.Base.{Bool, ◌&&◌, Option, none, some, Text, text_eq, if◌then◌else◌}
use init_agent.Sdk.Types.{scheme_group_version}
use init_agent.Sdk.Informers.{SharedInformerFactory}
use init_agent.Sdk.Informers.Scoped.{SharedScopedInformerFactory}
use init_agent.Sdk.Typed.{InformerLibrary}
use init_agent.Sdk.Typed.Targets
use init_agent.Sdk.Typed.Templates

-- schema.GroupVersionResource and schema.GroupResource.
pub record GroupVersionResource : Type 0 where
  pub group : Text
  pub version : Text
  pub resource : Text

pub record GroupResource : Type 0 where
  pub group : Text
  pub resource : Text

-- `==` of two such structs, which `switch` uses.
abbrev pub gvr_eq : GroupVersionResource → GroupVersionResource → Bool
gvr_eq a b =
    text_eq a.group b.group && (text_eq a.version b.version && text_eq a.resource b.resource)

-- `SchemeGroupVersion.WithResource` and `GroupResource`.
abbrev pub with_resource : Text → GroupVersionResource
with_resource resource = record {
  group = scheme_group_version.0;
  version = scheme_group_version.1;
  resource = resource;
}

abbrev pub group_resource : GroupVersionResource → GroupResource
group_resource gvr = record { group = gvr.group; resource = gvr.resource }

-- genericClusterInformer
pub record GenericClusterInformer (I : Type 0) : Type 0 where
  pub informer : I
  pub resource : GroupResource

-- A generic lister: an indexer, a resource, and the cluster if it is limited to one.
pub record GenericLister (Ix : Type 0) : Type 0 where
  pub indexer : Ix
  pub resource : GroupResource
  pub cluster : Option Text

-- genericInformer
pub record GenericInformer (J Ix : Type 0) : Type 0 where
  pub informer : J
  pub lister : GenericLister Ix

-- V1alpha1, InitTargets and InitTemplates of the interface.go files; a struct that they return
-- holds the tweak that they pass on.
unfoldable pub v1alpha1 : {O : Type 0} → Option (O → O) → Option (O → O)
v1alpha1 tweak = tweak

unfoldable pub init_targets : {O : Type 0} → Option (O → O) → Option (O → O)
init_targets tweak = tweak

unfoldable pub init_templates : {O : Type 0} → Option (O → O) → Option (O → O)
init_templates tweak = tweak

-- What NewScoped of the two files stores beside the factory.
pub record ScopedGroup (O : Type 0) : Type 0 where
  pub tweak_list_options : Option (O → O)
  pub namespace : Text

pub record ScopedVersion (O : Type 0) : Type 0 where
  pub tweak_list_options : Option (O → O)
  pub namespace : Text

module _ {O : Type 0} where
  unfoldable pub new_scoped_group : Text → Option (O → O) → ScopedGroup O
  new_scoped_group namespace tweak = record { tweak_list_options = tweak; namespace = namespace }

  unfoldable pub new_scoped_version : Text → Option (O → O) → ScopedVersion O
  new_scoped_version namespace tweak = record { tweak_list_options = tweak; namespace = namespace }

  unfoldable pub scoped_v1alpha1 : ScopedGroup O → ScopedVersion O
  unfolding new_scoped_version
  scoped_v1alpha1 g = new_scoped_version g.namespace g.tweak_list_options

  -- The informers of the two types know nothing of the namespace.
  unfoldable pub scoped_init_targets : ScopedVersion O → Option (O → O)
  scoped_init_targets v = v.tweak_list_options

  unfoldable pub scoped_init_templates : ScopedVersion O → Option (O → O)
  scoped_init_templates v = v.tweak_list_options

module _ {C I D O X : Type 0} where
  -- Initialization of the two factories.
  unfoldable pub initialization : SharedInformerFactory C I D (O → O) X → Option (O → O)
  initialization f = f.tweak_list_options

  unfoldable pub scoped_initialization : SharedScopedInformerFactory C I D (O → O) X → ScopedGroup O
  unfolding new_scoped_group
  scoped_initialization f = new_scoped_group f.namespace f.tweak_list_options

  abbrev pub generic :
      GroupVersionResource
      → I × SharedInformerFactory C I D (O → O) X
      → Option (GenericClusterInformer I) × SharedInformerFactory C I D (O → O) X
  generic gvr (i, f) = (some (record { informer = i; resource = group_resource gvr }), f)

module _ {C I J Ix D O A X : Type 0} (library : InformerLibrary C I J Ix D O A) where
  -- ForResource of the shared factory; `none` is the error "no informer found".
  unfoldable pub for_resource :
      GroupVersionResource
      → SharedInformerFactory C I D (O → O) X
      → Option (GenericClusterInformer I) × SharedInformerFactory C I D (O → O) X
  unfolding initialization v1alpha1 init_targets init_templates
  for_resource gvr f =
      if gvr_eq gvr (with_resource Targets.resource)
      then generic gvr (Targets.informer library (init_targets (v1alpha1 (initialization f))) f)
      else if gvr_eq gvr (with_resource Templates.resource)
      then generic gvr (Templates.informer library (init_templates (v1alpha1 (initialization f))) f)
      else (none, f)

  scoped_generic :
      GroupVersionResource
      → I × SharedScopedInformerFactory C I D (O → O) X
      → Option (GenericInformer I Ix) × SharedScopedInformerFactory C I D (O → O) X
  scoped_generic gvr (i, f) = (
    some (record {
      informer = i;
      lister = record {
        indexer = library.get_indexer i;
        resource = group_resource gvr;
        cluster = none;
      };
    }),
    f,
  )

  -- ForResource of the scoped factory.
  unfoldable pub scoped_for_resource :
      (Option X → I → I)
      → GroupVersionResource
      → SharedScopedInformerFactory C I D (O → O) X
      → Option (GenericInformer I Ix) × SharedScopedInformerFactory C I D (O → O) X
  unfolding scoped_generic scoped_initialization scoped_v1alpha1 scoped_init_targets
      scoped_init_templates
  scoped_for_resource set_transform gvr f =
      if gvr_eq gvr (with_resource Targets.resource)
      then scoped_generic gvr (
          Targets.scoped_informer library set_transform
            (scoped_init_targets (scoped_v1alpha1 (scoped_initialization f))) f)
      else if gvr_eq gvr (with_resource Templates.resource)
      then scoped_generic gvr (
          Templates.scoped_informer library set_transform
            (scoped_init_templates (scoped_v1alpha1 (scoped_initialization f))) f)
      else (none, f)

module _ {C I J Ix D O A : Type 0} (library : InformerLibrary C I J Ix D O A) where
  -- Cluster of a genericClusterInformer.
  unfoldable pub generic_cluster : Text → GenericClusterInformer I → GenericInformer J Ix
  generic_cluster name i = record {
    informer = library.scoped_to name i.informer;
    lister = record {
      indexer = library.get_indexer i.informer;
      resource = i.resource;
      cluster = some name;
    };
  }

module _ {C I J Ix D O A X : Type 0} (library : InformerLibrary C I J Ix D O A) where
  unfoldable pub clustered :
      Text
      → Option (GenericClusterInformer I) × SharedInformerFactory C I D (O → O) X
      → Option (GenericInformer J Ix) × SharedInformerFactory C I D (O → O) X
  unfolding generic_cluster
  clustered name (none, f) = (none, f)
  clustered name (some i, f) = (some (generic_cluster library name i), f)

  -- ForResource of the factory that Cluster returns.
  unfoldable pub cluster_for_resource :
      Text
      → GroupVersionResource
      → SharedInformerFactory C I D (O → O) X
      → Option (GenericInformer J Ix) × SharedInformerFactory C I D (O → O) X
  unfolding clustered for_resource
  cluster_for_resource name gvr f = clustered name (for_resource library gvr f)
