-- ===== src/InitController/Safety.antt =====
-- The initializer is removed only from a cluster in which every object of every source is settled.
use init_agent.Base.{
  ℕ, suc, ◌≡◌, refl, sym, ap, ◌∙◌, Bool, true, false, Option, List, [], ◌∷◌, ◌⊎◌, inl, inr, Text,
  text_eq, Bool-cases, if◌then◌else◌,
}
use init_agent.Go.Slices.{delete_func, contains}
use init_agent.Effect.{Outcome, ok, err, panicked, patched, World, pure, continue, query, ◌>>=◌}
use init_agent.Effect.Quiet.{Quiet, quiet_rules, Quiet->>=, patches}
use init_agent.Sdk.Types.{InitSource, InitTarget}
use init_agent.Remote.{Remote, LogicalCluster, Fetched, found, failed}
use init_agent.Manifest.Apply.Quiet.{Quiet-apply}
use init_agent.Source.Quiet.{Quiet-new_for_init_source, Quiet-manifests}
use init_agent.InitController.{
  Reconciler, reconcile_source, reconcile_sources, finish, target_of, reconcile,
}
use init_agent.InitController.Removal.{
  removal_outcome, patch_answer, remove_initializer-present, remove_initializer-absent,
}
use init_agent.InitController.Sources.{
  SourcesSettled, SourcesRan-SourcesSettled, reconcile_sources-ok,
}

module _ {Object E S Tpl : Type 0} (remote : Remote Object E S Tpl) where
  Quiet-reconcile_source :
      (cluster : Text) (target : InitTarget) (lc : LogicalCluster) (idx : ℕ) (ref : InitSource)
      → Quiet (reconcile_source remote cluster target lc idx ref)
  unfolding reconcile_source
  Quiet-reconcile_source cluster target lc idx ref =
      search (quiet_rules, Quiet-apply, Quiet-new_for_init_source, Quiet-manifests)

  Quiet-reconcile_sources :
      (cluster : Text) (target : InitTarget) (lc : LogicalCluster) (idx : ℕ) (requeue : Bool)
      (refs : List InitSource)
      → Quiet (reconcile_sources remote cluster target lc idx requeue refs)
  unfolding reconcile_sources
  Quiet-reconcile_sources cluster target lc idx requeue [] = search quiet_rules
  Quiet-reconcile_sources cluster target lc idx requeue (ref ∷ refs) =
      Quiet->>= (reconcile_source remote cluster target lc idx ref)
        (λ b.
          reconcile_sources remote cluster target lc (suc idx) (if b then true else requeue) refs)
        (Quiet-reconcile_source cluster target lc idx ref)
        (λ b.
          Quiet-reconcile_sources cluster target lc (suc idx) (if b then true else requeue) refs)

  module _ (r : Reconciler E S) (cluster : Text) (lc : LogicalCluster) where
    abbrev pub remaining : List Text
    remaining = delete_func (λ i. text_eq i r.initializer) lc.initializers

    -- The run before a patch: the target was fetched, each of its sources is settled, and then
    -- the list of initializers without this one was sent, as the last request.
    pub record Completed (w w' : World Object E S) : Type 0 where
      pub target : InitTarget
      pub start : World Object E S
      pub ended : World Object E S
      pub failure : Option E
      pub fetched : query {Object = Object} {E = E} r.target_provider w ≡ (ok (found target), start)
      pub settled : SourcesSettled remote cluster target lc target.spec.sources start ended
      pub present : contains lc.initializers r.initializer ≡ true
      pub logged : w'.calls ≡ patched remaining failure ∷ ended.calls

    abbrev Safe : World Object E S → World Object E S → Type 0
    Safe w w' = (patches w'.calls ≡ patches w.calls) ⊎ Completed w w'

    ended_in :
        (o : Outcome E (Unit {0})) (u : World Object E S)
        → (continue o (λ removed. pure {W = World Object E S} {E = E} false) u).1 ≡ u
    ended_in (ok a) u = refl
    ended_in (err e) u = refl
    ended_in panicked u = refl

    patch_sent :
        (w v : World Object E S)
        → ((failure : Option E) (w' : World Object E S)
            → w'.calls ≡ patched remaining failure ∷ v.calls
            → contains lc.initializers r.initializer ≡ true
            → Completed w w')
        → patches v.calls ≡ patches w.calls
        → Safe w (finish remote cluster r.initializer lc false v).1
    unfolding finish
    patch_sent w v make same = elim (Bool-cases (contains lc.initializers r.initializer)) [
      | inl present ↦
          let sent = remove_initializer-present remote cluster r.initializer lc v present in
          let answer = patch_answer remote cluster r.initializer lc v in
          rw sent (
            inr (
              make answer.0 _
                (ap (λ q. q.calls)
                  (ended_in (removal_outcome answer.0)
                    (record { server = answer.1; calls = patched remaining answer.0 ∷ v.calls })))
                present))
      | inr absent ↦
          rw (remove_initializer-absent remote cluster r.initializer lc v absent) (inl same)
    ]

    finish-Safe :
        (target : InitTarget) (w start v : World Object E S) (b : Bool)
        → query {Object = Object} {E = E} r.target_provider w ≡ (ok (found target), start)
        → reconcile_sources remote cluster target lc 0 false target.spec.sources start ≡ (ok b, v)
        → patches v.calls ≡ patches w.calls
        → Safe w (finish remote cluster r.initializer lc b v).1
    unfolding finish
    finish-Safe target w start v true f e same = inl same
    finish-Safe target w start v false f e same =
        let (flags, ran, none_set) =
          reconcile_sources-ok remote cluster target lc 0 false target.spec.sources start e in
        patch_sent w v
          (λ failure w' logged present. record {
            target = target;
            start = start;
            ended = v;
            failure = failure;
            fetched = f;
            settled =
                SourcesRan-SourcesSettled remote cluster target lc target.spec.sources start v flags
                  ran (sym none_set);
            present = present;
            logged = logged;
          })
          same

    sources-Safe :
        (target : InitTarget) (w start : World Object E S) (o : Outcome E Bool)
        (v : World Object E S)
        → query {Object = Object} {E = E} r.target_provider w ≡ (ok (found target), start)
        → reconcile_sources remote cluster target lc 0 false target.spec.sources start ≡ (o, v)
        → patches v.calls ≡ patches w.calls
        → Safe w (continue o (finish remote cluster r.initializer lc) v).1
    sources-Safe target w start (ok b) v f e same = finish-Safe target w start v b f e same
    sources-Safe target w start (err x) v f e same = inl same
    sources-Safe target w start panicked v f e same = inl same

    target-Safe :
        (w start : World Object E S) (f : Fetched E InitTarget)
        → query {Object = Object} {E = E} r.target_provider w ≡ (ok f, start)
        → Safe w
            ((target_of remote f >>= λ target.
                reconcile_sources remote cluster target lc 0 false target.spec.sources
                >>= finish remote cluster r.initializer lc)
              start).1
    unfolding target_of
    target-Safe w start (failed x) e = inl (ap (λ q. patches q.1.calls) (sym e))
    target-Safe w start (found target) e =
        let ran = reconcile_sources remote cluster target lc 0 false target.spec.sources start in
        sources-Safe target w start ran.0 ran.1 e refl (
          (Quiet-reconcile_sources cluster target lc 0 false target.spec.sources).at start
          ∙ ap (λ q. patches q.1.calls) (sym e))

    -- The method `reconcile` patches the LogicalCluster at most once, and only after all sources.
    pub reconcile-Safe :
        (w : World Object E S)
        → (patches (reconcile remote r cluster lc w).1.calls ≡ patches w.calls)
          ⊎ Completed w (reconcile remote r cluster lc w).1
    unfolding reconcile
    reconcile-Safe w =
        let answer = r.target_provider w.server in
        target-Safe w (record w { server = answer.1 }) answer.0 refl
