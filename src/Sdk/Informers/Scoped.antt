-- ===== src/Sdk/Informers/Scoped.antt =====
-- sdk/informers/externalversions/factory.go: the informer factory of one cluster, which has no
-- Shutdown and no wait group.
use init_agent.Base.{Bool, Option, none, some, List, [], ◌∷◌, Text, true, if◌then◌else◌}
use init_agent.Go.Maps.{Map, lookup, insert}
use init_agent.Sdk.Informers.{
  SharedInformerOption, apply_options, no_options, with_namespace, is_true, or_default, sync_all,
}

pub record SharedScopedInformerFactory (C I D W X : Type 0) : Type 0 where
  pub client : C
  pub namespace : Text
  pub tweak_list_options : Option W
  pub default_resync : D
  pub custom_resync : Map D
  pub transform : Option X
  pub informers : Map I
  pub started_informers : Map Bool
  pub runs : List (Text × I)

module _ {C I D W X : Type 0} where
  -- The scoped factory forwards the namespace, and not the transform.
  unfoldable pub new_shared_scoped_informer_factory_with_options :
      C → D → List (SharedInformerOption D W X) → SharedScopedInformerFactory C I D W X
  unfolding apply_options
  new_shared_scoped_informer_factory_with_options client default_resync options =
      let opts = apply_options options no_options in
      record {
        client = client;
        namespace = opts.namespace;
        tweak_list_options = opts.tweak_list_options;
        default_resync = default_resync;
        custom_resync = opts.custom_resync;
        transform = none;
        informers = [];
        started_informers = [];
        runs = [];
      }

  -- The constructor with a namespace.
  unfoldable pub new_shared_scoped_informer_factory :
      C → D → Text → SharedScopedInformerFactory C I D W X
  unfolding new_shared_scoped_informer_factory_with_options with_namespace
  new_shared_scoped_informer_factory client default_resync namespace =
      new_shared_scoped_informer_factory_with_options client default_resync
        (with_namespace namespace ∷ [])

  unfoldable pub scoped_start_one :
      Text → I → SharedScopedInformerFactory C I D W X → SharedScopedInformerFactory C I D W X
  unfolding lookup insert
  scoped_start_one type informer f =
      if is_true (lookup type f.started_informers) then f else record f {
        runs = (type, informer) ∷ f.runs;
        started_informers = insert type true f.started_informers;
      }

  unfoldable pub scoped_start_all :
      Map I → SharedScopedInformerFactory C I D W X → SharedScopedInformerFactory C I D W X
  scoped_start_all [] f = f
  scoped_start_all ((type, informer) ∷ informers) f =
      scoped_start_all informers (scoped_start_one type informer f)

  -- Start of the scoped factory, which has no Shutdown.
  unfoldable pub scoped_start :
      SharedScopedInformerFactory C I D W X → SharedScopedInformerFactory C I D W X
  unfolding scoped_start_all scoped_start_one
  scoped_start f = scoped_start_all f.informers f

  unfoldable pub scoped_wait_for_cache_sync :
      (I → Bool) → SharedScopedInformerFactory C I D W X → Map Bool
  unfolding sync_all
  scoped_wait_for_cache_sync synced f = sync_all synced f.started_informers f.informers

  -- InformerFor of the scoped factory; `set_transform` is the informer's SetTransform.
  unfoldable pub scoped_informer_for_entry :
      (Option X → I → I)
      → Option I
      → Text
      → (C → D → I)
      → SharedScopedInformerFactory C I D W X
      → I × SharedScopedInformerFactory C I D W X
  unfolding or_default
  scoped_informer_for_entry set_transform (some informer) type new f = (informer, f)
  scoped_informer_for_entry set_transform none type new f =
      let made = new f.client (or_default f.default_resync (lookup type f.custom_resync)) in
      let informer = set_transform f.transform made in
      (informer, record f { informers = insert type informer f.informers })

  unfoldable pub scoped_informer_for :
      (Option X → I → I)
      → Text
      → (C → D → I)
      → SharedScopedInformerFactory C I D W X
      → I × SharedScopedInformerFactory C I D W X
  unfolding scoped_informer_for_entry
  scoped_informer_for set_transform type new f =
      scoped_informer_for_entry set_transform (lookup type f.informers) type new f
