-- ===== src/Sdk/Informers/Agree.antt =====
-- The two informer factories side by side: the scoped one does what the other one does.
use init_agent.Base.{
  ◌≡◌, refl, ◌∙◌, ap, Bool, false, Option, none, some, List, [], ◌∷◌, Text, Bool-cases, inl, inr,
}
use init_agent.Go.Maps.{Map, lookup}
use init_agent.Sdk.Informers.{
  SharedInformerFactory, SharedInformerOption, apply_options, no_options, is_true, start_one,
  start_all, start, informer_for_entry, informer_for, wait_for_cache_sync,
  new_shared_informer_factory_with_options,
}
use init_agent.Sdk.Informers.Scoped.{
  SharedScopedInformerFactory, new_shared_scoped_informer_factory_with_options, scoped_start_one,
  scoped_start_all, scoped_start, scoped_informer_for_entry, scoped_informer_for,
  scoped_wait_for_cache_sync,
}
use init_agent.Sdk.Informers.Laws.{start_all-keeps, AllStarted, start_lem}

-- A call that both factories have.
pub data Use (C I D : Type 0) : Type 0 where
  starts : Use C I D
  asks : Text → (C → D → I) → Use C I D

module _ {C I D W X : Type 0} where
  -- A factory without its wait group, its shutdown and its transform.
  abbrev pub scoped : Text → SharedInformerFactory C I D W X → SharedScopedInformerFactory C I D W X
  scoped namespace f = record {
    client = f.client;
    namespace = namespace;
    tweak_list_options = f.tweak_list_options;
    default_resync = f.default_resync;
    custom_resync = f.custom_resync;
    transform = none;
    informers = f.informers;
    started_informers = f.started_informers;
    runs = f.runs;
  }

  unfoldable pub shared_after :
      List (Use C I D) → SharedInformerFactory C I D W X → SharedInformerFactory C I D W X
  shared_after [] f = f
  shared_after (starts ∷ uses) f = shared_after uses (start f)
  shared_after (asks type new ∷ uses) f = shared_after uses (informer_for type new f).1

  unfoldable pub scoped_after :
      (Option X → I → I)
      → List (Use C I D)
      → SharedScopedInformerFactory C I D W X
      → SharedScopedInformerFactory C I D W X
  scoped_after set_transform [] f = f
  scoped_after set_transform (starts ∷ uses) f = scoped_after set_transform uses (scoped_start f)
  scoped_after set_transform (asks type new ∷ uses) f =
      scoped_after set_transform uses (scoped_informer_for set_transform type new f).1

  start-up :
      (f : SharedInformerFactory C I D W X)
      → f.shutting_down ≡ false
      → (start f).shutting_down ≡ false
  unfolding start
  start-up f up = simp up ((start_all-keeps f.informers f).1 ∙ up)

  informer_for_entry-up :
      (entry : Option I) (type : Text) (new : C → D → I) (f : SharedInformerFactory C I D W X)
      → (informer_for_entry entry type new f).1.shutting_down ≡ f.shutting_down
  unfolding informer_for_entry
  informer_for_entry-up none type new f = refl
  informer_for_entry-up (some i) type new f = refl

  informer_for-up :
      (type : Text) (new : C → D → I) (f : SharedInformerFactory C I D W X)
      → (informer_for type new f).1.shutting_down ≡ f.shutting_down
  unfolding informer_for
  informer_for-up type new f = informer_for_entry-up (lookup type f.informers) type new f

  shared_after-up :
      (uses : List (Use C I D)) (f : SharedInformerFactory C I D W X)
      → f.shutting_down ≡ false
      → (shared_after uses f).shutting_down ≡ false
  unfolding shared_after
  shared_after-up [] f up = up
  shared_after-up (starts ∷ uses) f up = shared_after-up uses (start f) (start-up f up)
  shared_after-up (asks type new ∷ uses) f up =
      shared_after-up uses (informer_for type new f).1 (informer_for-up type new f ∙ up)

  module _ (namespace : Text) where
    scoped_start_one-scoped :
        (type : Text) (informer : I) (f : SharedInformerFactory C I D W X)
        → scoped_start_one type informer (scoped namespace f)
          ≡ scoped namespace (start_one type informer f)
    unfolding scoped_start_one start_one
    scoped_start_one-scoped type informer f =
        elim (Bool-cases (is_true (lookup type f.started_informers))) [
          | inl old ↦ rw old
          | inr new ↦ rw new
        ]

    scoped_start_all-scoped :
        (l : Map I) (f : SharedInformerFactory C I D W X)
        → scoped_start_all l (scoped namespace f) ≡ scoped namespace (start_all l f)
    unfolding scoped_start_all start_all
    scoped_start_all-scoped [] f = refl
    scoped_start_all-scoped ((type, informer) ∷ l) f =
        ap (scoped_start_all l) (scoped_start_one-scoped type informer f)
        ∙ scoped_start_all-scoped l (start_one type informer f)

    scoped_start-scoped :
        (f : SharedInformerFactory C I D W X)
        → f.shutting_down ≡ false
        → scoped_start (scoped namespace f) ≡ scoped namespace (start f)
    unfolding scoped_start start
    scoped_start-scoped f up = simp up (scoped_start_all-scoped f.informers f)

    module _ (set_transform : Option X → I → I) (plain : (i : I) → set_transform none i ≡ i) where
      scoped_entry :
          (entry : Option I) (type : Text) (new : C → D → I) (f : SharedInformerFactory C I D W X)
          → let (i, f') = informer_for_entry entry type new f in
            scoped_informer_for_entry set_transform entry type new (scoped namespace f)
            ≡ (i, scoped namespace f')
      unfolding scoped_informer_for_entry informer_for_entry
      scoped_entry none type new f = rw (plain _)
      scoped_entry (some i) type new f = refl

      scoped_informer_for-scoped :
          (type : Text) (new : C → D → I) (f : SharedInformerFactory C I D W X)
          → let (i, f') = informer_for type new f in
            scoped_informer_for set_transform type new (scoped namespace f)
            ≡ (i, scoped namespace f')
      unfolding scoped_informer_for informer_for
      scoped_informer_for-scoped type new f = scoped_entry (lookup type f.informers) type new f

      scoped_after-scoped :
          (uses : List (Use C I D)) (f : SharedInformerFactory C I D W X)
          → f.shutting_down ≡ false
          → scoped_after set_transform uses (scoped namespace f)
            ≡ scoped namespace (shared_after uses f)
      unfolding scoped_after shared_after
      scoped_after-scoped [] f up = refl
      scoped_after-scoped (starts ∷ uses) f up =
          ap (scoped_after set_transform uses) (scoped_start-scoped f up)
          ∙ scoped_after-scoped uses (start f) (start-up f up)
      scoped_after-scoped (asks type new ∷ uses) f up =
          ap (λ a. scoped_after set_transform uses a.1) (scoped_informer_for-scoped type new f)
          ∙ scoped_after-scoped uses (informer_for type new f).1 (informer_for-up type new f ∙ up)

  -- Two new factories, one of each kind, that are made with the same client, resync period and
  -- options go through the same calls of InformerFor and Start, where a nil transform leaves an
  -- informer as it is: then the scoped factory has the informers, the started types and the
  -- goroutines of the other one, gives the same informers, and WaitForCacheSync gives the same.
  -- Start then leaves every informer of the factory started, and a second Start of either factory
  -- changes nothing.
  pub factories_agree :
      (client : C) (default_resync : D) (options : List (SharedInformerOption D W X))
      (set_transform : Option X → I → I)
      → ((i : I) → set_transform none i ≡ i)
      → (uses : List (Use C I D)) (synced : I → Bool) (type : Text) (new : C → D → I)
      → let f =
          shared_after uses
            (new_shared_informer_factory_with_options client default_resync options) in
        let g =
          scoped_after set_transform uses
            (new_shared_scoped_informer_factory_with_options client default_resync options) in
        (g ≡ scoped (apply_options options no_options).namespace f)
        × ((scoped_informer_for set_transform type new g).0 ≡ (informer_for type new f).0)
        × (scoped_wait_for_cache_sync synced g ≡ wait_for_cache_sync synced f)
        × AllStarted f.informers (start f)
        × (start (start f) ≡ start f)
        × (scoped_start (scoped_start g) ≡ scoped_start g)
  unfolding new_shared_informer_factory_with_options new_shared_scoped_informer_factory_with_options
  factories_agree client default_resync options set_transform plain uses synced type new =
      let namespace = (apply_options options no_options).namespace in
      let f₀ : SharedInformerFactory C I D W X =
        new_shared_informer_factory_with_options client default_resync options in
      let f = shared_after uses f₀ in
      let up = shared_after-up uses f₀ refl in
      let same = scoped_after-scoped namespace set_transform plain uses f₀ refl in
      let (all, again) = start_lem f in
      let up' = start-up f up in
      let started = scoped_start-scoped namespace f up in
      (
        same,
        rw (same, scoped_informer_for-scoped namespace set_transform plain type new f),
        rw same (unfold scoped_wait_for_cache_sync wait_for_cache_sync in refl),
        all up,
        again,
        rw (same, started)
            (scoped_start-scoped namespace (start f) up' ∙ ap (scoped namespace) again),
      )
