-- ===== src/Sdk/Typed/Laws.antt =====
-- One informer for each resource, whatever is called on the factory in between.
use init_agent.Base.{
  ◌≡◌, refl, ◌∙◌, ap, Bool-cases, inl, inr, Option, none, some, List, [], ◌∷◌, Text, text_eq_iff,
  text_eq_refl, text_eq, arith,
}
use mathlib.Core.Option
use init_agent.Go.Maps.{lookup, insert, lookup-insert}
use init_agent.Sdk.Informers.{
  SharedInformerFactory, informer_for, informer_for_entry, start, shutdown, run_returned,
  or_default,
}
use init_agent.Sdk.Informers.History.{Call, started, shut_down, returned, asked, step, after}
use init_agent.Sdk.Informers.Laws.{start_all-keeps}
use init_agent.Sdk.Typed.{InformerLibrary}
use init_agent.Sdk.Typed.Resources.{
  GroupVersionResource, gvr_eq, with_resource, for_resource, cluster_for_resource, generic_cluster,
  generic, clustered, initialization, v1alpha1, init_targets, init_templates,
  GenericClusterInformer,
}
use init_agent.Sdk.Typed.Targets
use init_agent.Sdk.Typed.Templates

module _ {C I D W X : Type 0} where
  lookup_made :
      (made type : Text) (new i : I) (f : SharedInformerFactory C I D W X)
      → lookup made f.informers ≡ none
      → lookup type f.informers ≡ some i
      → lookup type (insert made new f.informers) ≡ some i
  lookup_made made type new i f missing h =
      ground (arith, lookup-insert made type new f.informers, text_eq_iff made type)

  entry-keeps :
      (entry : Option I) (made type : Text) (i : I) (new : C → D → I)
      (f : SharedInformerFactory C I D W X)
      → lookup made f.informers ≡ entry
      → lookup type f.informers ≡ some i
      → lookup type (informer_for_entry entry made new f).1.informers ≡ some i
  unfolding informer_for_entry
  entry-keeps (some old) made type i new f found h = h
  entry-keeps none made type i new f found h =
      lookup_made made type
        (new f.client (or_default f.default_resync (lookup made f.custom_resync))) i f found h

  start-informers : (f : SharedInformerFactory C I D W X) → (start f).informers ≡ f.informers
  unfolding start
  start-informers f = elim (Bool-cases f.shutting_down) [
    | inl down ↦ simp down
    | inr up ↦ simp (up, (start_all-keeps f.informers f).0)
  ]

  returned-informers :
      (f : SharedInformerFactory C I D W X) → (step returned f).informers ≡ f.informers
  unfolding step run_returned
  returned-informers f = ground arith

  step-keeps :
      (call : Call C I D) (type : Text) (i : I) (f : SharedInformerFactory C I D W X)
      → lookup type f.informers ≡ some i
      → lookup type (step call f).informers ≡ some i
  step-keeps started type i f h = unfold step in ap (lookup type) (start-informers f) ∙ h
  step-keeps shut_down type i f h = unfold step shutdown in h
  step-keeps returned type i f h = ap (lookup type) (returned-informers f) ∙ h
  step-keeps (asked made new) type i f h =
      unfold step informer_for in entry-keeps (lookup made f.informers) made type i new f refl h

  after-keeps :
      (calls : List (Call C I D)) (type : Text) (i : I) (f : SharedInformerFactory C I D W X)
      → lookup type f.informers ≡ some i
      → lookup type (after calls f).informers ≡ some i
  unfolding after
  after-keeps [] type i f h = h
  after-keeps (call ∷ calls) type i f h =
      after-keeps calls type i (step call f) (step-keeps call type i f h)

  -- InformerFor leaves an entry of its informer.
  informer_for_entry-lookup :
      (entry : Option I) (type : Text) (new : C → D → I) (f : SharedInformerFactory C I D W X)
      → lookup type f.informers ≡ entry
      → let made = informer_for_entry entry type new f in lookup type made.1.informers ≡ some made.0
  unfolding informer_for_entry
  informer_for_entry-lookup (some i) type new f h = h
  informer_for_entry-lookup none type new f h =
      let informer = new f.client (or_default f.default_resync (lookup type f.custom_resync)) in
      ground (arith, lookup-insert type type informer f.informers, text_eq_refl type)

  informer_for-after :
      (type : Text) (new : C → D → I) (again : C → D → I) (calls : List (Call C I D))
      (f : SharedInformerFactory C I D W X)
      → let made = informer_for type new f in
        informer_for type again (after calls made.1) ≡ (made.0, after calls made.1)
  unfolding informer_for informer_for_entry
  informer_for-after type new again calls f =
      let made = informer_for type new f in
      simp (
        after-keeps calls type made.0 made.1
          (informer_for_entry-lookup (lookup type f.informers) type new f refl))

module _ {C I J Ix D O A X : Type 0} (library : InformerLibrary C I J Ix D O A) where
  target_again :
      (tweak : Option (O → O)) (again : Option (O → O)) (calls : List (Call C I D))
      (f : SharedInformerFactory C I D (O → O) X)
      → let (target, f') = Targets.informer library tweak f in
        Targets.informer library again (after calls f') ≡ (target, after calls f')
  unfolding Targets.informer
  target_again tweak again calls f =
      informer_for-after Targets.type (Targets.default_informer library tweak)
        (Targets.default_informer library again) calls f

  template_again :
      (tweak : Option (O → O)) (again : Option (O → O)) (calls : List (Call C I D))
      (f : SharedInformerFactory C I D (O → O) X)
      → let (template, f') = Templates.informer library tweak f in
        Templates.informer library again (after calls f') ≡ (template, after calls f')
  unfolding Templates.informer
  template_again tweak again calls f =
      informer_for-after Templates.type (Templates.default_informer library tweak)
        (Templates.default_informer library again) calls f

  for_resource_again :
      (gvr : GroupVersionResource) (calls : List (Call C I D))
      (f : SharedInformerFactory C I D (O → O) X)
      → let (found, f') = for_resource library gvr f in
        for_resource library gvr (after calls f') ≡ (found, after calls f')
  unfolding for_resource initialization v1alpha1 init_targets init_templates
  for_resource_again gvr calls f = elim (Bool-cases (gvr_eq gvr (with_resource Targets.resource))) [
    | inl target ↦ simp target (ap (generic gvr) (target_again f.tweak_list_options _ calls f))
    | inr other ↦ elim (Bool-cases (gvr_eq gvr (with_resource Templates.resource))) [
      | inl template ↦
          simp (other, template) (ap (generic gvr) (template_again f.tweak_list_options _ calls f))
      | inr unknown ↦ simp (other, unknown)
    ]
  ]

  cluster_for_resource-found :
      (name : Text) (found : Option (GenericClusterInformer I))
      (f : SharedInformerFactory C I D (O → O) X)
      → clustered library name (found, f) ≡ (Option.map (generic_cluster library name) found, f)
  unfolding clustered
  cluster_for_resource-found name none f = refl
  cluster_for_resource-found name (some i) f = refl

  -- Once ForResource was called, and whatever is called on the factory after that, ForResource gives
  -- for that resource what it gave before and leaves the factory as it is, and the factory of one
  -- cluster gives the same informer limited to the cluster. The informer that the accessors of the
  -- two types give is the one that ForResource gives after it, whatever the tweaks.
  pub for_resource-after :
      (gvr : GroupVersionResource) (name : Text) (tweak : Option (O → O))
      (calls : List (Call C I D)) (f : SharedInformerFactory C I D (O → O) X)
      → let (found, f') = for_resource library gvr f in
        let later = after calls f' in
        let (target, g) = Targets.informer library tweak f in
        let (template, h) = Templates.informer library tweak f in
        (for_resource library gvr later ≡ (found, later))
        × (cluster_for_resource library name gvr later
            ≡ (Option.map (generic_cluster library name) found, later))
        × (for_resource library (with_resource Targets.resource) (after calls g)
            ≡ generic (with_resource Targets.resource) (target, after calls g))
        × (for_resource library (with_resource Templates.resource) (after calls h)
            ≡ generic (with_resource Templates.resource) (template, after calls h))
  for_resource-after gvr name tweak calls f =
      let again = for_resource_again gvr calls f in
      let later = after calls (for_resource library gvr f).1 in
      unfold cluster_for_resource for_resource text_eq initialization v1alpha1 init_targets
        init_templates in
      (
        again,
        ap (clustered library name) again
            ∙ cluster_for_resource-found name (for_resource library gvr f).0 later,
        ap (generic (with_resource Targets.resource)) (target_again tweak _ calls f),
        ap (generic (with_resource Templates.resource)) (template_again tweak _ calls f),
      )
