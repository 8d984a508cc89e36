-- ===== src/InitController/Held.antt =====
-- A request that removed the initializer, seen from the objects that the logical cluster holds.
use init_agent.Base.{
  ◌≡◌, refl, sym, ◌∙◌, ap, subst, Bool, true, false, none, List, [], ◌∷◌, Text, arith,
  if◌then◌else◌,
}
use init_agent.Go.Slices.{contains}
use init_agent.Go.Strings.{is_empty}
use init_agent.Go.Sort.{IsSort}
use init_agent.Kcp.Annotations.{cluster_name_from_object}
use init_agent.Effect.{ok, World}
use init_agent.Sdk.Types.{InitSource, InitTarget}
use init_agent.Remote.{Remote, LogicalCluster, found}
use init_agent.Manifest.Apply.{apply}
use init_agent.Manifest.Apply.Api.{IsApi, among}
use init_agent.Manifest.Apply.Objects.{apply-Holds}
use init_agent.Source.Laws.{Rendered, rendered_lem}
use init_agent.InitController.{Reconciler, Request, done, reconcile_request}
use init_agent.InitController.Sources.{SourceRan, SourcesRan, any}
use init_agent.InitController.Success.{Succeeded}
use init_agent.InitController.Requests.{no_requeue, reconcile_request-ok}

module _ {Object E S Tpl : Type 0} (remote : Remote Object E S Tpl) (same : Object → Object → Bool)
    (holds : S → Object → Bool) where
  -- Whoever changes the server while a template is read or executed removes no object of the cluster.
  pub record Undisturbed : Type 0 where
    pub client :
        (home : Text) (x : Object) (s : S)
        → holds s x ≡ true
        → holds (remote.new_client home s).1 x ≡ true
    pub template :
        (home name : Text) (x : Object) (s : S)
        → holds s x ≡ true
        → holds (remote.get_template home name s).1 x ≡ true
    pub execution :
        (tpl : Tpl) (values : Text × Text) (x : Object) (s : S)
        → holds s x ≡ true
        → holds (remote.execute tpl values s).1 x ≡ true

  module _ (cluster : Text) (target : InitTarget) (lc : LogicalCluster) (s : S) where
    -- A source was rendered for the logical cluster, its manifests were applied, and in `s` the
    -- cluster holds each of them.
    pub record SourceHeld (ref : InitSource) (w w' : World Object E S) : Type 0 where
      pub middle : World Object E S
      pub objects : List Object
      pub rendered :
          Rendered remote (cluster_name_from_object remote target.meta) ref lc w middle objects
      pub applied : apply remote cluster objects middle ≡ (ok false, w')
      pub all : (x : Object) → among same objects x ≡ true → holds s x ≡ true

    -- This was done for the sources one after the other.
    abbrev pub SourcesHeld : List InitSource → World Object E S → World Object E S → Type 0
    SourcesHeld [] w w' = w' ≡ w
    SourcesHeld (ref ∷ refs) w w' =
        (v : World Object E S) × SourceHeld ref w v × SourcesHeld refs v w'

module _ {Object E S Tpl : Type 0} (remote : Remote Object E S Tpl) (cluster : Text)
    {same : Object → Object → Bool} {holds : S → Object → Bool}
    (api : IsApi remote cluster same holds) (law : IsSort remote.large_sort)
    (undisturbed : Undisturbed remote same holds) where
  Grows : S → S → Type 0
  Grows s s' = (x : Object) → holds s x ≡ true → holds s' x ≡ true

  module _ (target : InitTarget) (lc : LogicalCluster) where
    abbrev home : Text
    home = cluster_name_from_object remote target.meta

    ran-Rendered :
        (ref : InitSource) (w w' : World Object E S) (b : Bool)
        (ran : SourceRan remote cluster target lc ref w w' b)
        → Rendered remote home ref lc w ran.middle ran.objects
    ran-Rendered ref w w' b ran =
        rendered_lem remote home ref lc w ran.middle ran.objects
          (rw (ran.instantiated, ran.rendered) refl)

    Rendered-Grows :
        (ref : InitSource) (w v : World Object E S) (objects : List Object)
        → Rendered remote home ref lc w v objects
        → Grows w.server v.server
    unfolding Grows
    Rendered-Grows ref w v objects h x k =
        let after_client : holds h.connected x ≡ true =
          ap (λ a. holds a.1 x) (sym h.client) ∙ undisturbed.client home x w.server k in
        let after_read : holds h.read x ≡ true =
          ap (λ a. holds a.1 x) (sym h.fetched)
          ∙ undisturbed.template home h.source.name x h.connected after_client in
        ap (λ a. holds a.1 x) (sym h.executed_to)
        ∙ undisturbed.execution h.parsed (cluster_name_from_object remote lc.meta, h.path) x h.read
            after_read

    applied_all :
        (objects : List Object) (v w' : World Object E S)
        → apply remote cluster objects v ≡ (ok false, w')
        → (x : Object)
        → holds w'.server x ≡ (if among same objects x then true else holds v.server x)
    applied_all objects v w' h x =
        let fine = (apply-Holds remote cluster api law objects v).1 (λ i. (h i).0) in
        ap (λ a. holds a.1.server x) (sym h) ∙ fine.0 x

    sources_held :
        (refs : List InitSource) (w w' : World Object E S) (flags : List Bool)
        → SourcesRan remote cluster target lc refs w w' flags
        → any remote cluster target lc flags ≡ false
        → Grows w.server w'.server
          × SourcesHeld remote same holds cluster target lc w'.server refs w w'
    unfolding Grows
    sources_held [] w w' [] h n = (λ x k. rw h k, h)
    sources_held [] w w' (b ∷ flags) h n = elim h [ ]
    sources_held (ref ∷ refs) w w' [] h n = elim h [ ]
    sources_held (ref ∷ refs) w w' (true ∷ flags) h n = cc
    sources_held (ref ∷ refs) w w' (false ∷ flags) (v, ran, more) n =
        let (grows, held) = sources_held refs v w' flags more n in
        let rendered = ran-Rendered ref w v false ran in
        let applied = applied_all ran.objects ran.middle v ran.applied in
        let step = Rendered-Grows ref w ran.middle ran.objects rendered in
        (
          λ x k. grows x (applied x ∙ rw (step x k) (ground arith)),
          (
            v,
            record {
              middle = ran.middle;
              objects = ran.objects;
              rendered = rendered;
              applied = ran.applied;
              all = λ x k. grows x (applied x ∙ rw k);
            },
            held,
          ),
        )

  -- If a request for a logical cluster with the initializer returns no error and asks for no
  -- requeue, on an API that keeps the promises of IsApi, with a library sort that sorts, and where
  -- nobody removes an object while templates are read or executed: its last call has removed the initializer,
  -- and before that call the cluster held, for each source of the InitTarget, each manifest that
  -- the source has rendered for it.
  pub reconcile_request-held :
      (r : Reconciler E S) (name : Text) (w : World Object E S) (lc : LogicalCluster) (s s' : S)
      {w' : World Object E S}
      → remote.get_cluster cluster w.server ≡ (none, s)
      → remote.get_logical_cluster cluster name s ≡ (found lc, s')
      → is_empty lc.meta.name ≡ false
      → contains lc.initializers r.initializer ≡ true
      → reconcile_request remote r (record { cluster_name = cluster; name = name }) w
        ≡ (ok done, w')
      → (run : Succeeded remote r cluster lc (record w { server = s' }) w' false) × SourcesHeld
          remote same holds cluster run.target lc run.ended.server run.target.spec.sources run.begun
          run.ended
  reconcile_request-held r name w lc s s' {w'} g f filled present h =
      let req : Request = record { cluster_name = cluster; name = name } in
      let (b, run, e) = reconcile_request-ok remote r req w lc s s' g f filled present h in
      let run' =
        subst (Succeeded remote r cluster lc (record w { server = s' }) w') (no_requeue b e) run in
      (
        run',
        (sources_held run'.target lc run'.target.spec.sources run'.begun run'.ended run'.flags
            run'.ran (sym run'.asked)).1,
      )
