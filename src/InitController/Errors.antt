-- ===== src/InitController/Errors.antt =====
-- The errors of one reconciliation of a logical cluster that has its path: those of its steps.
use init_agent.Base.{
  ℕ, suc, ◌≡◌, Bool, true, false, Option, none, some, List, [], ◌∷◌, Text, text_eq, ◌==◌, length,
  if◌then◌else◌,
}
use init_agent.Effect.{
  Error, external, plain, wrapped, Outcome, ok, err, panicked, World, patched, pure, query, request,
  ◌>>=◌, failed_to_get_init_target, failed_to_initialize_source, failed_to_render_source,
  failed_to_apply_source, failed_to_remove_initializer,
}
use init_agent.Effect.Errors.{
  Answers, Errs, Errs-pure, Errs-raise, Errs-query, Errs-request, Errs->>=, Errs-wrap_run, Errs-if,
}
use init_agent.Go.Slices.{delete_func}
use init_agent.Kcp.Annotations.{cluster_name_from_object, cluster_path_from_object}
use init_agent.Sdk.Types.{InitSource, InitTarget}
use init_agent.Remote.{Remote, LogicalCluster, Fetched, found, failed}
use init_agent.Manifest.{sort_objects_by_hierarchy}
use init_agent.Manifest.Apply.{apply}
use init_agent.Manifest.Apply.Laws.{Explained, apply-Explained}
use init_agent.Source.Errors.{Any, new_for_init_source-Errs, manifests-Errs}
use init_agent.InitController.{
  Reconciler, reconcile_source, reconcile_sources, after_patch, remove_initializer, finish,
  target_of, reconcile,
}

-- The errors that a reconciliation can return: of the InitTarget, of the making, the rendering or
-- the applying of a source, and of the removal of the initializer, each wrapped by its step.
abbrev pub IsStepError : {E : Type 0} → Error E → Type 0
IsStepError (external e) = ⊥
IsStepError (plain s) = ⊥
IsStepError (wrapped failed_to_get_init_target e) = Unit
IsStepError (wrapped (failed_to_initialize_source idx) e) = Unit
IsStepError (wrapped (failed_to_render_source idx) e) = Unit
IsStepError (wrapped (failed_to_apply_source idx) e) = Unit
IsStepError (wrapped failed_to_remove_initializer e) = Unit
IsStepError (wrapped s e) = ⊥

module _ {Object E S Tpl : Type 0} (remote : Remote Object E S Tpl) (cluster : Text) where
  Explained-Answers :
      (objs : List Object) (w w' : World Object E S) (o : Outcome E Bool)
      → Explained remote objs w w' o
      → Answers Any o
  Explained-Answers objs w w' (ok b) h = tt
  Explained-Answers objs w w' (err e) h = tt
  Explained-Answers objs w w' panicked h = absurd h

  apply-Errs : (objs : List Object) → Errs Any (apply remote cluster objs)
  apply-Errs objs = record {
    at = λ w.
        Explained-Answers (sort_objects_by_hierarchy remote objs) w (apply remote cluster objs w).1
          (apply remote cluster objs w).0 (apply-Explained remote cluster objs w);
  }

  after_patch-Errs : (failure : Option E) → Errs IsStepError (after_patch remote failure)
  unfolding after_patch
  after_patch-Errs none = Errs-pure tt
  after_patch-Errs (some e) = Errs-raise _ tt

  remove_initializer-Errs :
      (initializer : Text) (lc : LogicalCluster)
      → Errs IsStepError (remove_initializer remote cluster initializer lc)
  unfolding remove_initializer
  remove_initializer-Errs initializer lc =
      let remaining = delete_func (λ i. text_eq i initializer) lc.initializers in
      let lc' : LogicalCluster = record lc { initializers = remaining } in
      Errs-if (length remaining == length lc.initializers) (pure tt)
        (request (remote.patch_status cluster lc lc') (patched remaining) >>= λ failure.
          after_patch remote failure)
        (Errs-pure tt)
        (Errs->>= (request (remote.patch_status cluster lc lc') (patched remaining)) _
          (Errs-request (remote.patch_status cluster lc lc') (patched remaining))
          (λ failure. after_patch-Errs failure))

  finish-Errs :
      (initializer : Text) (lc : LogicalCluster) (requeue : Bool)
      → Errs IsStepError (finish remote cluster initializer lc requeue)
  unfolding finish
  finish-Errs initializer lc true = Errs-pure true
  finish-Errs initializer lc false =
      Errs->>= (remove_initializer remote cluster initializer lc) (λ removed. pure false)
        (remove_initializer-Errs initializer lc) (λ removed. Errs-pure false)

  target_of-Errs : (f : Fetched E InitTarget) → Errs IsStepError (target_of remote f)
  unfolding target_of
  target_of-Errs (found t) = Errs-pure t
  target_of-Errs (failed e) = Errs-raise _ tt

  module _ (lc : LogicalCluster) (path : Text)
      (located : cluster_path_from_object remote lc.meta ≡ ok path) where
    reconcile_source-Errs :
        (target : InitTarget) (idx : ℕ) (ref : InitSource)
        → Errs IsStepError (reconcile_source remote cluster target lc idx ref)
    unfolding reconcile_source
    reconcile_source-Errs target idx ref =
        Errs->>= _ _
          (Errs-wrap_run (failed_to_initialize_source idx) _
            (new_for_init_source-Errs remote (cluster_name_from_object remote target.meta) ref)
            (λ e. tt))
          λ src.
            Errs->>= _ _
              (Errs-wrap_run (failed_to_render_source idx) _
                (manifests-Errs remote src lc path located) (λ e. tt))
              λ objects. Errs-wrap_run (failed_to_apply_source idx) _ (apply-Errs objects) (λ e. tt)

    reconcile_sources-Errs :
        (target : InitTarget) (idx : ℕ) (requeue : Bool) (refs : List InitSource)
        → Errs IsStepError (reconcile_sources remote cluster target lc idx requeue refs)
    unfolding reconcile_sources
    reconcile_sources-Errs target idx requeue [] = Errs-pure requeue
    reconcile_sources-Errs target idx requeue (ref ∷ refs) =
        Errs->>= (reconcile_source remote cluster target lc idx ref) _
          (reconcile_source-Errs target idx ref)
          λ c. reconcile_sources-Errs target (suc idx) (if c then true else requeue) refs

    pub reconcile-Errs : (r : Reconciler E S) → Errs IsStepError (reconcile remote r cluster lc)
    unfolding reconcile
    reconcile-Errs r =
        Errs->>= (query r.target_provider) _ (Errs-query r.target_provider) λ fetched.
          Errs->>= (target_of remote fetched) _ (target_of-Errs fetched) λ target.
            Errs->>= (reconcile_sources remote cluster target lc 0 false target.spec.sources) _
              (reconcile_sources-Errs target 0 false target.spec.sources)
              λ requeue. finish-Errs r.initializer lc requeue
