-- ===== src/Sdk/Informers/Transform.antt =====
-- What becomes of the option WithTransform.
use init_agent.Base.{◌≡◌, refl, ap, Option, none, some, List, [], ◌∷◌, ◌++◌, Text}
use init_agent.Go.Maps.{lookup}
use init_agent.Sdk.Informers.{
  SharedInformerOptions, SharedInformerOption, apply_options, no_options, with_transform,
  new_shared_informer_factory_with_options, informer_for_entry, informer_for, or_default,
}
use init_agent.Sdk.Informers.Scoped.{
  new_shared_scoped_informer_factory_with_options, scoped_informer_for_entry, scoped_informer_for,
}

module _ {D W X : Type 0} where
  apply_options-append :
      (options : List (SharedInformerOption D W X)) (last : SharedInformerOption D W X)
      (opts : SharedInformerOptions D W X)
      → apply_options (options ++ last ∷ []) opts ≡ last (apply_options options opts)
  unfolding apply_options
  apply_options-append [] last opts = refl
  apply_options-append (option ∷ options) last opts =
      apply_options-append options last (option opts)

module _ {C I D W X : Type 0} where
  -- The option WithTransform, given last, is stored in the factory and reaches no informer: the
  -- factory has that transform, and the informers that it makes are those that the factory without
  -- the option makes. The scoped factory is the same with the option and without it, and sets the
  -- nil transform on a new informer, whatever its options.
  pub transform_ignored :
      (client : C) (default_resync : D) (options : List (SharedInformerOption D W X))
      (transform : X) (type : Text) (new : C → D → I) (set_transform : Option X → I → I)
      → let with_it = options ++ with_transform transform ∷ [] in
        let f = new_shared_informer_factory_with_options {I = I} client default_resync with_it in
        let f₀ = new_shared_informer_factory_with_options {I = I} client default_resync options in
        let g =
          new_shared_scoped_informer_factory_with_options {I = I} client default_resync with_it in
        let g₀ =
          new_shared_scoped_informer_factory_with_options {I = I} client default_resync options in
        (f.transform ≡ some transform)
        × ((informer_for type new f).0 ≡ (informer_for type new f₀).0)
        × (g ≡ g₀)
        × ((scoped_informer_for set_transform type new g).0
            ≡ set_transform none
                (new client (or_default default_resync (lookup type g.custom_resync))))
  unfolding new_shared_scoped_informer_factory_with_options scoped_informer_for
      scoped_informer_for_entry informer_for informer_for_entry lookup
      new_shared_informer_factory_with_options with_transform
  transform_ignored client default_resync options transform type new set_transform =
      let last = apply_options-append options (with_transform transform) no_options in
      (
        ap (λ o. o.transform) last,
        ap (λ o. new client (or_default default_resync (lookup type o.custom_resync))) last,
        λ i. record {
          client = client;
          namespace = (last i).namespace;
          tweak_list_options = (last i).tweak_list_options;
          default_resync = default_resync;
          custom_resync = (last i).custom_resync;
          transform = none;
          informers = [];
          started_informers = [];
          runs = [];
        },
        refl,
      )
