-- ===== src/InitController/Sources.antt =====
-- The loop over the sources: what an outcome says of every source, and that it removes nothing.
use init_agent.Base.{
  subst, ℕ, suc, ◌≡◌, Bool, true, false, List, [], ◌∷◌, arith, Text, if◌then◌else◌,
}
use init_agent.Effect.{
  wrap_run, ok, World, Run, ◌>>=◌, failed_to_initialize_source, failed_to_render_source,
  failed_to_apply_source,
}
use init_agent.Effect.Laws.{>>=-eq-ok, wrap_run-eq-ok}
use init_agent.Sdk.Types.{InitSource, InitTarget}
use init_agent.Remote.{Remote, LogicalCluster}
use init_agent.Kcp.Annotations.{cluster_name_from_object}
use init_agent.Manifest.{sort_objects_by_hierarchy}
use init_agent.Manifest.Apply.{apply}
use init_agent.Manifest.Apply.Laws.{Settled, Explained, apply-Explained}
use init_agent.Source.{new_for_init_source, manifests}
use init_agent.InitController.{reconcile_source, reconcile_sources}

module _ {Object E S Tpl : Type 0} (remote : Remote Object E S Tpl) (cluster : Text)
    (target : InitTarget) (lc : LogicalCluster) where
  -- One source went through with this `srcNeedRequeue`: it was instantiated and rendered, and its
  -- manifests were applied.
  pub record SourceRan (ref : InitSource) (w w' : World Object E S) (needs_requeue : Bool)
      : Type 0 where
    pub source : Tpl
    pub objects : List Object
    pub made : World Object E S
    pub middle : World Object E S
    pub instantiated :
        new_for_init_source remote (cluster_name_from_object remote target.meta) ref w
        ≡ (ok source, made)
    pub rendered : manifests remote source lc made ≡ (ok objects, middle)
    pub applied : apply remote cluster objects middle ≡ (ok needs_requeue, w')

  -- Every source went through, one after the other, each with its flag.
  abbrev pub SourcesRan : List InitSource → World Object E S → World Object E S → List Bool → Type 0
  SourcesRan [] w w' [] = w' ≡ w
  SourcesRan [] w w' (b ∷ flags) = ⊥
  SourcesRan (ref ∷ refs) w w' [] = ⊥
  SourcesRan (ref ∷ refs) w w' (b ∷ flags) =
      (v : World Object E S) × SourceRan ref w v b × SourcesRan refs v w' flags

  abbrev pub any : List Bool → Bool
  any [] = false
  any (b ∷ flags) = if b then true else any flags

  -- The three steps of the loop's body.
  abbrev instantiate : ℕ → InitSource → Run Object E S Tpl
  instantiate idx ref =
      wrap_run (failed_to_initialize_source idx)
        (new_for_init_source remote (cluster_name_from_object remote target.meta) ref)

  abbrev rendering : ℕ → Tpl → Run Object E S (List Object)
  rendering idx src = wrap_run (failed_to_render_source idx) (manifests remote src lc)

  abbrev applying : ℕ → List Object → Run Object E S Bool
  applying idx objects = wrap_run (failed_to_apply_source idx) (apply remote cluster objects)

  reconcile_source-ok :
      (idx : ℕ) (ref : InitSource) (w : World Object E S) {b : Bool} {w' : World Object E S}
      → reconcile_source remote cluster target lc idx ref w ≡ (ok b, w')
      → SourceRan ref w w' b
  unfolding reconcile_source
  reconcile_source-ok idx ref w h =
      let (source, p, h₁) =
        >>=-eq-ok (instantiate idx ref) (λ src. rendering idx src >>= applying idx) w h in
      let made = (instantiate idx ref w).1 in
      let (objects, q, h₂) = >>=-eq-ok (rendering idx source) (applying idx) made h₁ in
      let middle = (rendering idx source made).1 in
      let instantiated =
        wrap_run-eq-ok (failed_to_initialize_source idx)
          (new_for_init_source remote (cluster_name_from_object remote target.meta) ref) w p in
      let rendered =
        wrap_run-eq-ok (failed_to_render_source idx) (manifests remote source lc) made q in
      record {
        source = source;
        objects = objects;
        made = made;
        middle = middle;
        instantiated = instantiated;
        rendered = rendered;
        applied =
            wrap_run-eq-ok (failed_to_apply_source idx) (apply remote cluster objects) middle h₂;
      }

  -- If the loop returns a flag, every source went through, also those after one that asked for a
  -- requeue, and the flag says whether it was set before or some source asked.
  pub reconcile_sources-ok :
      (idx : ℕ) (requeue : Bool) (refs : List InitSource) (w : World Object E S) {b : Bool}
      {w' : World Object E S}
      → reconcile_sources remote cluster target lc idx requeue refs w ≡ (ok b, w')
      → (flags : List Bool) × SourcesRan refs w w' flags
        × (b ≡ (if requeue then true else any flags))
  unfolding reconcile_sources
  reconcile_sources-ok idx requeue [] w h = ([], ground arith, ground arith)
  reconcile_sources-ok idx requeue (ref ∷ refs) w h =
      let (c, p, h₁) =
        >>=-eq-ok (reconcile_source remote cluster target lc idx ref)
          (λ c.
            reconcile_sources remote cluster target lc (suc idx) (if c then true else requeue) refs)
          w h in
      let v = (reconcile_source remote cluster target lc idx ref w).1 in
      let (flags, ran, e) =
        reconcile_sources-ok (suc idx) (if c then true else requeue) refs v h₁ in
      (c ∷ flags, (v, reconcile_source-ok idx ref w p, ran), ground arith)

  -- One source is done: its manifests, in the order of the hierarchy, are settled.
  pub record SourceSettled (ref : InitSource) (w w' : World Object E S) : Type 0 where
    pub source : Tpl
    pub objects : List Object
    pub made : World Object E S
    pub middle : World Object E S
    pub instantiated :
        new_for_init_source remote (cluster_name_from_object remote target.meta) ref w
        ≡ (ok source, made)
    pub rendered : manifests remote source lc made ≡ (ok objects, middle)
    pub settled : Settled remote (sort_objects_by_hierarchy remote objects) middle w'

  abbrev pub SourcesSettled : List InitSource → World Object E S → World Object E S → Type 0
  SourcesSettled [] w w' = w' ≡ w
  SourcesSettled (ref ∷ refs) w w' =
      (v : World Object E S) × SourceSettled ref w v × SourcesSettled refs v w'

  settled_of :
      (ref : InitSource) (w w' : World Object E S)
      → SourceRan ref w w' false
      → SourceSettled ref w w'
  settled_of ref w w' ran = record {
    source = ran.source;
    objects = ran.objects;
    made = ran.made;
    middle = ran.middle;
    instantiated = ran.instantiated;
    rendered = ran.rendered;
    settled =
        subst
          (λ r. Explained remote (sort_objects_by_hierarchy remote ran.objects) ran.middle r.1 r.0)
          ran.applied (apply-Explained remote cluster ran.objects ran.middle);
  }

  -- With no flag set every source is done.
  pub SourcesRan-SourcesSettled :
      (refs : List InitSource) (w w' : World Object E S) (flags : List Bool)
      → SourcesRan refs w w' flags
      → any flags ≡ false
      → SourcesSettled refs w w'
  SourcesRan-SourcesSettled [] w w' [] h n = h
  SourcesRan-SourcesSettled [] w w' (b ∷ flags) h n = elim h [ ]
  SourcesRan-SourcesSettled (ref ∷ refs) w w' [] h n = elim h [ ]
  SourcesRan-SourcesSettled (ref ∷ refs) w w' (true ∷ flags) h n = cc
  SourcesRan-SourcesSettled (ref ∷ refs) w w' (false ∷ flags) (v, ran, more) n =
      (v, settled_of ref w v ran, SourcesRan-SourcesSettled refs v w' flags more n)
