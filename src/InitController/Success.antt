-- ===== src/InitController/Success.antt =====
-- What a reconciliation without an error has done, and the requests that have nothing to do.
use init_agent.Base.{
  ◌≡◌, refl, sym, ap, ◌∙◌, subst, Bool, true, false, Option, none, some, List, ◌∷◌, Text,
}
use init_agent.Go.Slices.{contains}
use init_agent.Effect.{ok, patched, World, query, ◌>>=◌, pure}
use init_agent.Effect.Laws.{>>=-eq-ok}
use init_agent.Sdk.Types.{InitTarget}
use init_agent.Remote.{Remote, LogicalCluster, Fetched, found, failed}
use init_agent.InitController.{
  Reconciler, finish, target_of, reconcile_sources, remove_initializer, reconcile,
}
use init_agent.InitController.Sources.{SourcesRan, any, reconcile_sources-ok}
use init_agent.InitController.Removal.{
  without, removal_outcome, patch_answer, remove_initializer-present,
}

module _ {Object E S Tpl : Type 0} (remote : Remote Object E S Tpl) where
  module _ (cluster initializer : Text) (lc : LogicalCluster)
      (present : contains lc.initializers initializer ≡ true) where
    removal_outcome-ok : (failure : Option E) → removal_outcome failure ≡ ok tt → failure ≡ none
    removal_outcome-ok none h = refl
    removal_outcome-ok (some e) h = cc

    removed :
        (v w' : World Object E S)
        → remove_initializer remote cluster initializer lc v ≡ (ok tt, w')
        → w'.calls ≡ patched (without initializer lc.initializers) none ∷ v.calls
    removed v w' h =
        let e = sym (remove_initializer-present remote cluster initializer lc v present) ∙ h in
        let failure = (patch_answer remote cluster initializer lc v).0 in
        let fine = removal_outcome-ok failure (λ i. (e i).0) in
        sym (λ i. (e i).1.calls)
        ∙ ap (λ x. patched (without initializer lc.initializers) x ∷ v.calls) fine

    finish-ok :
        (requeue : Bool) (v : World Object E S) {b : Bool} {w' : World Object E S}
        → finish remote cluster initializer lc requeue v ≡ (ok b, w')
        → (b ≡ requeue)
          × (requeue ≡ true → w' ≡ v)
          × (requeue ≡ false
              → w'.calls ≡ patched (without initializer lc.initializers) none ∷ v.calls)
    unfolding finish
    finish-ok true v h = (cc, λ p. sym (λ i. (h i).1), λ p. cc)
    finish-ok false v h =
        let (a, p, q) =
          >>=-eq-ok (remove_initializer remote cluster initializer lc) (λ removed. pure false) v
            h in
        let v' = (remove_initializer remote cluster initializer lc v).1 in
        let same = sym (λ i. (q i).1) in (cc, λ p. cc, λ n. ap (λ x. x.calls) same ∙ removed v v' p)

  module _ (r : Reconciler E S) (cluster : Text) (lc : LogicalCluster) where
    -- A run that returned the flag `b`: the target was fetched, every source went through with a
    -- flag of its own, and `b` says whether one of them asked for a requeue. If so, nothing
    -- followed; if not, one request followed, which sent the list without this initializer and
    -- succeeded.
    pub record Succeeded (w w' : World Object E S) (b : Bool) : Type 0 where
      pub target : InitTarget
      pub begun : World Object E S
      pub ended : World Object E S
      pub flags : List Bool
      pub fetched : query {Object = Object} {E = E} r.target_provider w ≡ (ok (found target), begun)
      pub ran : SourcesRan remote cluster target lc target.spec.sources begun ended flags
      pub asked : b ≡ any remote cluster target lc flags
      pub waits : b ≡ true → w' ≡ ended
      pub removes :
          b ≡ false → w'.calls ≡ patched (without r.initializer lc.initializers) none ∷ ended.calls

    target_of-ok :
        (f : Fetched E InitTarget) (w : World Object E S) {target : InitTarget}
        {w' : World Object E S}
        → target_of remote f w ≡ (ok target, w')
        → (f ≡ found target) × (w' ≡ w)
    unfolding target_of
    target_of-ok (found t) w h = (cc, sym (λ i. (h i).1))
    target_of-ok (failed e) w h = cc

    -- A reconciliation of a cluster with the initializer that returns no error has succeeded.
    pub reconcile-ok :
        (w : World Object E S) {b : Bool} {w' : World Object E S}
        → contains lc.initializers r.initializer ≡ true
        → reconcile remote r cluster lc w ≡ (ok b, w')
        → Succeeded w w' b
    unfolding reconcile
    reconcile-ok w {b} {w'} present h =
        let sources =
          λ (t : InitTarget). reconcile_sources remote cluster t lc 0 false t.spec.sources in
        let last = finish remote cluster r.initializer lc in
        let (f, p, h₁) =
          >>=-eq-ok (query r.target_provider) (λ f. target_of remote f >>= λ t. sources t >>= last)
            w h in
        let begun = (query {Object = Object} {E = E} r.target_provider w).1 in
        let (t, q, h₂) = >>=-eq-ok (target_of remote f) (λ t. sources t >>= last) begun h₁ in
        let (is_found, same) = target_of-ok f begun q in
        let (c, k, h₃) =
          >>=-eq-ok (sources t) last begun
            (subst (λ v. (sources t >>= last) v ≡ (ok b, w')) same h₂) in
        let ended = (sources t begun).1 in
        let (flags, ran, asked) =
          reconcile_sources-ok remote cluster t lc 0 false t.spec.sources begun k in
        let (flag, waits, removes) = finish-ok cluster r.initializer lc present c ended h₃ in
        record {
          target = t;
          begun = begun;
          ended = ended;
          flags = flags;
          fetched = subst (λ x. query r.target_provider w ≡ (ok x, begun)) is_found p;
          ran = ran;
          asked = flag ∙ asked;
          waits = λ e. waits (sym flag ∙ e);
          removes = λ e. removes (sym flag ∙ e);
        }
