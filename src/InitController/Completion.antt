-- ===== src/InitController/Completion.antt =====
-- When a request completes: on servers that grant what it asks for, the initializer is removed.
use init_agent.Base.{
  ◌≡◌, refl, ap, ◌∙◌, ℕ, suc, true, false, none, some, List, [], ◌∷◌, All, Text, if◌then◌else◌,
}
use init_agent.Go.Slices.{contains}
use init_agent.Go.Strings.{is_empty}
use init_agent.Kcp.Annotations.{cluster_name_from_object, cluster_path_from_object}
use init_agent.Effect.{
  ok, patched, World, pure, lift, query, wrap_run, ◌>>=◌, failed_to_initialize_source,
  failed_to_render_source, failed_to_apply_source,
}
use init_agent.Effect.Ends.{Ends, Ends-pure, Ends-lift, Ends-query, Ends-wrap_run, Ends->>=}
use init_agent.Sdk.Types.{InitSource, TemplateInitSource, InitTarget}
use init_agent.Remote.{Remote, LogicalCluster, found}
use init_agent.Manifest.Apply.{apply}
use init_agent.Manifest.Apply.Ends.{Creates, Ends-apply}
use init_agent.Source.{manifests, new_for_init_source}
use init_agent.Source.Ends.{Renders, Ends-new_for_init_source}
use init_agent.InitController.{
  Reconciler, Request, done, finish, target_of, reconcile_source, reconcile_sources,
  remove_initializer, reconcile, report, reported, initialize_cluster, reconcile_request,
}
use init_agent.InitController.Removal.{without, remove_initializer-present}
use init_agent.InitController.Requests.{no_requeue, reached, reconcile_request-ok}

module _ {Object E S Tpl : Type 0} (remote : Remote Object E S Tpl) (P : S → Type 0)
    (r : Reconciler E S) (cluster : Text) (lc : LogicalCluster) (target : InitTarget) where
  abbrev home : Text
  home = cluster_name_from_object remote target.meta

  abbrev Asked : InitSource → Type 0
  Asked ref = (src : TemplateInitSource) × (ref.template ≡ some src) × Renders remote P home lc src

  -- The servers grant all that a request for the logical cluster asks for, from each admitted state
  -- and into one: each source of the target renders, each creation is granted, or refused since the
  -- object exists, and so is the request that removes the initializer.
  pub record Serves : Type 0 where
    pub scheme : remote.add_to_scheme ≡ none
    pub provides :
        (s : S) → P s → ((r.target_provider s).0 ≡ found target) × P (r.target_provider s).1
    pub sources : All Asked target.spec.sources
    pub creates : Creates remote P cluster
    pub patches :
        (s : S)
        → P s
        → let lc' = record lc { initializers = without r.initializer lc.initializers } in
          ((remote.patch_status cluster lc lc' s).0 ≡ none)
          × P (remote.patch_status cluster lc lc' s).1
    pub initializing : contains lc.initializers r.initializer ≡ true

  module _ (h : Serves) where
    Ends-reconcile_source :
        (idx : ℕ) (ref : InitSource)
        → Asked ref
        → Ends P (λ b. b ≡ false) (reconcile_source remote cluster target lc idx ref)
    unfolding reconcile_source
    Ends-reconcile_source idx ref (src, e, renders) =
        Ends->>= (wrap_run (failed_to_initialize_source idx) (new_for_init_source remote home ref))
          (λ src. wrap_run (failed_to_render_source idx) (manifests remote src lc) >>= λ objects.
            wrap_run (failed_to_apply_source idx) (apply remote cluster objects))
          (Ends-wrap_run (failed_to_initialize_source idx) (new_for_init_source remote home ref)
            (Ends-new_for_init_source remote P home lc h.scheme ref src e renders))
          (λ tpl rendered.
            Ends->>= (wrap_run (failed_to_render_source idx) (manifests remote tpl lc))
              (λ objects. wrap_run (failed_to_apply_source idx) (apply remote cluster objects))
              (Ends-wrap_run (failed_to_render_source idx) (manifests remote tpl lc) rendered)
              (λ o q.
                Ends-wrap_run (failed_to_apply_source idx) (apply remote cluster o)
                  (Ends-apply remote P cluster h.creates o)))

    Ends-reconcile_sources :
        (idx : ℕ) (refs : List InitSource)
        → All Asked refs
        → Ends P (λ b. b ≡ false) (reconcile_sources remote cluster target lc idx false refs)
    unfolding reconcile_sources
    Ends-reconcile_sources idx [] a = Ends-pure false refl
    Ends-reconcile_sources idx (ref ∷ refs) (a, as') =
        Ends->>= (reconcile_source remote cluster target lc idx ref)
          (λ b.
            reconcile_sources remote cluster target lc (suc idx) (if b then true else false) refs)
          (Ends-reconcile_source idx ref a)
          (λ b e. rw e (Ends-reconcile_sources (suc idx) refs as'))

    Ends-remove_initializer :
        Ends P (λ u. Unit {0}) (remove_initializer remote cluster r.initializer lc)
    Ends-remove_initializer = record {
      from = λ w p.
          let (granted, p') = h.patches w.server p in
          let sent = remove_initializer-present remote cluster r.initializer lc w h.initializing in
          (tt, rw (sent, granted), tt, rw sent p');
    }

    Ends-finish : Ends P (λ b. b ≡ false) (finish remote cluster r.initializer lc false)
    unfolding finish
    Ends-finish =
        Ends->>= (remove_initializer remote cluster r.initializer lc) (λ removed. pure false)
          Ends-remove_initializer (λ u q. Ends-pure false refl)

    pub Ends-reconcile : Ends P (λ b. b ≡ false) (reconcile remote r cluster lc)
    unfolding reconcile target_of
    Ends-reconcile =
        Ends->>= (query r.target_provider)
          (λ f. target_of remote f >>= λ t.
            reconcile_sources remote cluster t lc 0 false t.spec.sources
            >>= finish remote cluster r.initializer lc)
          (Ends-query {Q = λ f. f ≡ found target} r.target_provider h.provides)
          (λ f e. rw e (
            Ends->>= (reconcile_sources remote cluster target lc 0 false target.spec.sources)
              (finish remote cluster r.initializer lc)
              (Ends-reconcile_sources 0 target.spec.sources h.sources) (λ b e'. rw e' Ends-finish)))

    Ends-reported : Ends P (λ b. b ≡ false) (reported remote (reconcile remote r cluster lc))
    unfolding reported report
    Ends-reported = record {
      from = λ w p. let (b, e, q, p') = Ends-reconcile.from w p in (b, rw e, q, rw e p');
    }

    module _ {path : Text} (located : cluster_path_from_object remote lc.meta ≡ ok path) where
      Ends-initialize_cluster : Ends P (λ res. res ≡ done) (initialize_cluster remote r cluster lc)
      unfolding initialize_cluster
      Ends-initialize_cluster =
          Ends->>= (lift (cluster_path_from_object remote lc.meta))
            (λ path. reported remote (reconcile remote r cluster lc) >>= λ requeue.
              pure (if requeue then record { requeue_after = 5 } else done))
            (Ends-lift {Q = λ q. Unit {0}} (cluster_path_from_object remote lc.meta) path located
              tt)
            (λ q u.
              Ends->>= (reported remote (reconcile remote r cluster lc))
                (λ requeue. pure (if requeue then record { requeue_after = 5 } else done))
                Ends-reported
                (λ b e. Ends-pure (if b then record { requeue_after = 5 } else done) (rw e)))

      module _ (name : Text) (named : is_empty lc.meta.name ≡ false)
          (reaches : (s : S)
            → P s
            → ((remote.get_cluster cluster s).0 ≡ none) × P (remote.get_cluster cluster s).1)
          (fetches : (s : S)
            → P s
            → ((remote.get_logical_cluster cluster name s).0 ≡ found lc)
              × P (remote.get_logical_cluster cluster name s).1) where
        abbrev request : Request
        request = record { cluster_name = cluster; name = name }

        -- On servers that grant what a request for a logical cluster with the initializer asks for,
        -- the request returns no error and asks for no requeue, and its last call has removed the
        -- initializer.
        pub reconcile_request-completes :
            (w : World Object E S)
            → P w.server
            → (w' : World Object E S) × (v : World Object E S) × (reconcile_request remote r request
                  w
                ≡ (ok done, w'))
              × (w'.calls ≡ patched (without r.initializer lc.initializers) none ∷ v.calls)
        reconcile_request-completes w p =
            let (c, p₁) = reaches w.server p in
            let s = (remote.get_cluster cluster w.server).1 in
            let (f, p₂) = fetches s p₁ in
            let s' = (remote.get_logical_cluster cluster name s).1 in
            let v : World Object E S = record w { server = s' } in
            let w' = (initialize_cluster remote r cluster lc v).1 in
            let (res, e, q, p₃) = Ends-initialize_cluster.from v p₂ in
            let initializing = h.initializing in
            let ran =
              reached remote r request w lc s s' (λ i. (c i, s)) (λ i. (f i, s')) named initializing
              ∙ (λ i. ((e ∙ ap ok q) i, w')) in
            let (b, fine, no_wait) =
              reconcile_request-ok remote r request w lc s s' (λ i. (c i, s)) (λ i. (f i, s')) named
                initializing ran in
            (w', fine.ended, ran, fine.removes (no_requeue b no_wait))
