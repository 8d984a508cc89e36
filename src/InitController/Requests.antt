-- ===== src/InitController/Requests.antt =====
-- A whole request: when nothing is to be done, and what an answer without an error means.
use init_agent.Base.{
  ◌≡◌, refl, sym, ◌∙◌, Bool, true, false, none, arith, ◌⊎◌, inl, inr, if◌then◌else◌,
}
use init_agent.Go.Slices.{contains}
use init_agent.Go.Strings.{is_empty}
use init_agent.Kcp.Annotations.{cluster_path_from_object}
use init_agent.Effect.{Outcome, ok, err, panicked, World, ◌>>=◌, pure, lift}
use init_agent.Effect.Laws.{>>=-eq-ok}
use init_agent.Remote.{Remote, LogicalCluster, Fetched, found, failed}
use init_agent.InitController.{
  Reconciler, Request, Result, done, reconcile, reconcile_request, got_cluster, fetched_cluster,
  initialize_cluster, report, reported,
}
use init_agent.InitController.Success.{Succeeded, reconcile-ok}

-- Whether a request asks for a requeue tells the flag.
pub no_requeue : (b : Bool) → done ≡ (if b then record { requeue_after = 5 } else done) → b ≡ false
no_requeue true e = ground arith
no_requeue false e = refl

module _ {Object E S Tpl : Type 0} (remote : Remote Object E S Tpl) (r : Reconciler E S)
    (req : Request) (w : World Object E S) where
  -- A logical cluster that is gone, or without the initializer.
  abbrev pub IsIdle : Fetched E LogicalCluster → Type 0
  IsIdle (found lc) =
      (is_empty lc.meta.name ≡ true) ⊎ (contains lc.initializers r.initializer ≡ false)
  IsIdle (failed e) = remote.is_not_found e ≡ true

  -- A request for a logical cluster that is gone, or has lost the initializer, sends nothing, asks
  -- for no requeue and returns no error.
  pub reconcile_request-idle :
      (answer : Fetched E LogicalCluster) (s s' : S)
      → remote.get_cluster req.cluster_name w.server ≡ (none, s)
      → remote.get_logical_cluster req.cluster_name req.name s ≡ (answer, s')
      → IsIdle answer
      → reconcile_request remote r req w ≡ (ok done, record w { server = s' })
  unfolding reconcile_request got_cluster fetched_cluster
  reconcile_request-idle (failed e) s s' g f i = rw (g, f, i)
  reconcile_request-idle (found lc) s s' g f (inl i) = rw (g, f, i)
  reconcile_request-idle (found lc) s s' g f (inr i) = rw (g, f, i) (ground arith)

  report-ok :
      (o : Outcome E Bool) (v : World Object E S) {b : Bool} {w' : World Object E S}
      → report remote o v ≡ (ok b, w')
      → (o ≡ ok b) × (v ≡ w')
  unfolding report
  report-ok (ok b) v h = (λ i. (h i).0, λ i. (h i).1)
  report-ok (err e) v h = cc
  report-ok panicked v h = cc

  answer-ok :
      (b : Bool) {u : World Object E S} {res : Result} {w' : World Object E S}
      → pure {W = World Object E S} {E = E} (if b then record { requeue_after = 5 } else done) u
        ≡ (ok res, w')
      → res ≡ (if b then record { requeue_after = 5 } else done)
  answer-ok b h = cc

  initialize_cluster-ok :
      (lc : LogicalCluster) (v : World Object E S) {res : Result} {w' : World Object E S}
      → contains lc.initializers r.initializer ≡ true
      → initialize_cluster remote r req.cluster_name lc v ≡ (ok res, w')
      → (b : Bool) × Succeeded remote r req.cluster_name lc v w' b
        × (res ≡ (if b then record { requeue_after = 5 } else done))
  unfolding initialize_cluster reported
  initialize_cluster-ok lc v {res} {w'} present h =
      let answer = λ (b : Bool).
        pure {W = World Object E S} {E = E} (if b then record { requeue_after = 5 } else done) in
      let run = reconcile remote r req.cluster_name lc in
      let (path, p, h₁) =
        >>=-eq-ok (lift (cluster_path_from_object remote lc.meta))
          (λ path. reported remote run >>= answer) v h in
      let (b, q, h₂) = >>=-eq-ok (reported remote run) answer v h₁ in
      let (o, e) = report-ok (run v).0 (run v).1 q in
      let ended = e ∙ (λ i. (h₂ i).1) in
      (b, reconcile-ok remote r req.cluster_name lc v present (λ i. (o i, ended i)), answer-ok b h₂)

  pub reached :
      (lc : LogicalCluster) (s s' : S)
      → remote.get_cluster req.cluster_name w.server ≡ (none, s)
      → remote.get_logical_cluster req.cluster_name req.name s ≡ (found lc, s')
      → is_empty lc.meta.name ≡ false
      → contains lc.initializers r.initializer ≡ true
      → reconcile_request remote r req w
        ≡ initialize_cluster remote r req.cluster_name lc (record w { server = s' })
  unfolding reconcile_request got_cluster fetched_cluster
  reached lc s s' g f named present = rw (g, f, named, present)

  -- If a request for a logical cluster with the initializer returns no error, then every source
  -- went through and either one of them asked for a requeue, which the result passes on in five
  -- seconds, or the result asks for none and the last request removed the initializer.
  pub reconcile_request-ok :
      (lc : LogicalCluster) (s s' : S) {res : Result} {w' : World Object E S}
      → remote.get_cluster req.cluster_name w.server ≡ (none, s)
      → remote.get_logical_cluster req.cluster_name req.name s ≡ (found lc, s')
      → is_empty lc.meta.name ≡ false
      → contains lc.initializers r.initializer ≡ true
      → reconcile_request remote r req w ≡ (ok res, w')
      → (b : Bool) × Succeeded remote r req.cluster_name lc (record w { server = s' }) w' b
        × (res ≡ (if b then record { requeue_after = 5 } else done))
  reconcile_request-ok lc s s' {res} {w'} g f named present h =
      initialize_cluster-ok lc (record w { server = s' }) present
        (sym (reached lc s s' g f named present) ∙ h)
