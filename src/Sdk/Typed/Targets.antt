-- ===== src/Sdk/Typed/Targets.antt =====
-- sdk/informers/externalversions/initialization/v1alpha1/inittarget.go.
use init_agent.Base.{Option, none, List, [], ◌∷◌, Text, codes}
use init_agent.Sdk.Informers.{SharedInformerFactory, informer_for}
use init_agent.Sdk.Informers.Scoped.{SharedScopedInformerFactory, scoped_informer_for}
use init_agent.Sdk.Typed.{InformerLibrary, tweaked, cluster_index_name, ClusterScoped}

abbrev pub type : Text
type = codes "InitTarget"

abbrev pub resource : Text
resource = codes "inittargets"

module _ {C I J Ix D O A : Type 0} (library : InformerLibrary C I J Ix D O A) where
  -- NewFilteredInitTargetClusterInformer
  unfoldable pub new_filtered_cluster_informer : C → D → List Text → Option (O → O) → I
  new_filtered_cluster_informer client resync indexers tweak =
      library.new_shared_index_informer
        (record {
          list = λ options. library.list resource client (tweaked tweak options);
          watch = λ options. library.watch resource client (tweaked tweak options);
        })
        type resync indexers

  -- NewInitTargetClusterInformer
  unfoldable pub new_cluster_informer : C → D → List Text → I
  unfolding new_filtered_cluster_informer
  new_cluster_informer client resync indexers =
      new_filtered_cluster_informer client resync indexers none

  unfoldable pub default_informer : Option (O → O) → C → D → I
  unfolding new_filtered_cluster_informer
  default_informer tweak client resync =
      new_filtered_cluster_informer client resync (cluster_index_name ∷ []) tweak

  -- NewFilteredInitTargetInformer, with the client and the informer of one cluster.
  unfoldable pub new_filtered_informer : C → D → List Text → Option (O → O) → I
  new_filtered_informer client resync indexers tweak =
      library.new_shared_index_informer
        (record {
          list = λ options. library.list resource client (tweaked tweak options);
          watch = λ options. library.watch resource client (tweaked tweak options);
        })
        type resync indexers

  -- NewInitTargetInformer
  unfoldable pub new_informer : C → D → List Text → I
  unfolding new_filtered_informer
  new_informer client resync indexers = new_filtered_informer client resync indexers none

  unfoldable pub scoped_default_informer : Option (O → O) → C → D → I
  unfolding new_filtered_informer
  scoped_default_informer tweak client resync = new_filtered_informer client resync [] tweak

module _ {C I J Ix D O A X : Type 0} (library : InformerLibrary C I J Ix D O A) where
  -- Informer and Lister of the cluster informer; the lister is its indexer.
  unfoldable pub informer :
      Option (O → O)
      → SharedInformerFactory C I D (O → O) X
      → I × SharedInformerFactory C I D (O → O) X
  unfolding default_informer
  informer tweak f = informer_for type (default_informer library tweak) f

  unfoldable pub lister :
      Option (O → O)
      → SharedInformerFactory C I D (O → O) X
      → Ix × SharedInformerFactory C I D (O → O) X
  unfolding informer
  lister tweak f = let (i, f') = informer tweak f in (library.get_indexer i, f')

  -- Cluster, which calls Informer and then Lister.
  unfoldable pub cluster :
      Option (O → O)
      → Text
      → SharedInformerFactory C I D (O → O) X
      → ClusterScoped J Ix × SharedInformerFactory C I D (O → O) X
  unfolding informer lister
  cluster tweak name f =
      let (i, f') = informer tweak f in
      let (indexer, f'') = lister tweak f' in
      (record { informer = library.scoped_to name i; indexer = indexer; cluster = name }, f'')

  -- Informer and Lister of the scoped informer.
  unfoldable pub scoped_informer :
      (Option X → I → I)
      → Option (O → O)
      → SharedScopedInformerFactory C I D (O → O) X
      → I × SharedScopedInformerFactory C I D (O → O) X
  unfolding scoped_default_informer
  scoped_informer set_transform tweak f =
      scoped_informer_for set_transform type (scoped_default_informer library tweak) f

  unfoldable pub scoped_lister :
      (Option X → I → I)
      → Option (O → O)
      → SharedScopedInformerFactory C I D (O → O) X
      → Ix × SharedScopedInformerFactory C I D (O → O) X
  unfolding scoped_informer
  scoped_lister set_transform tweak f =
      let (i, f') = scoped_informer set_transform tweak f in (library.get_indexer i, f')
