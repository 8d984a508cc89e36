-- ===== src/Sdk/Typed.antt =====
-- sdk/informers/externalversions/initialization: the informers of the two types, on the factories of
-- Sdk/Informers. A struct of this package holds a pointer to its factory and the tweak of list
-- options: the factory is the state that is passed on, so the struct is the tweak.
pub mod Targets
pub mod Templates
pub mod Resources
pub mod Laws
use init_agent.Base.{Option, none, some, List, Text, codes}

-- cache.ListWatch, on options `O` and with answers `A`.
pub record ListWatch (O A : Type 0) : Type 0 where
  pub list : O → A
  pub watch : O → A

-- The clients of a type, NewSharedIndexInformer, GetIndexer and Cluster of an informer: the types
-- `C` of clients, `I` of informers, `J` of informers of one cluster, `Ix` of indexers, and `D` of
-- durations. An object's Go type and an index are given by their names.
pub record InformerLibrary (C I J Ix D O A : Type 0) : Type 0 where
  pub list : Text → C → O → A
  pub watch : Text → C → O → A
  pub new_shared_index_informer : ListWatch O A → Text → D → List Text → I
  pub get_indexer : I → Ix
  pub scoped_to : Text → I → J

-- `if tweakListOptions != nil { tweakListOptions(&options) }`
abbrev pub tweaked : {O : Type 0} → Option (O → O) → O → O
tweaked none options = options
tweaked (some tweak) options = tweak options

abbrev pub cluster_index_name : Text
cluster_index_name = codes "cluster"

-- An informer of one cluster, with the indexer and the cluster of its lister.
pub record ClusterScoped (J Ix : Type 0) : Type 0 where
  pub informer : J
  pub indexer : Ix
  pub cluster : Text
