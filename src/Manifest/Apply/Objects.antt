-- ===== src/Manifest/Apply/Objects.antt =====
-- Apply seen from the API: which objects the cluster holds before and after it.
use init_agent.Base.{
  ◌≡◌, refl, sym, ◌∙◌, ap, Bool, true, false, List, [], ◌∷◌, ◌++◌, append-nil, Text, All, arith,
  if◌then◌else◌, ltb,
}
use init_agent.Go.Sort.{count_if, IsSort}
use init_agent.Effect.{ok, created, World, Run}
use init_agent.Remote.{Remote}
use init_agent.Manifest.{sort_objects_by_hierarchy}
use init_agent.Manifest.Order.{sort_objects_by_hierarchy-IsSorted}
use init_agent.Manifest.Apply.{unless_exists, proceed, apply_objects, apply}
use init_agent.Manifest.Apply.Api.{IsApi, among, Holds, apply_objects-Holds}

module _ {Object E S Tpl : Type 0} (remote : Remote Object E S Tpl) (cluster : Text)
    {same : Object → Object → Bool} {holds : S → Object → Bool}
    (api : IsApi remote cluster same holds) where
  among-count_if :
      (objs : List Object) (x : Object)
      → among same objs x ≡ ltb 0 (count_if (λ obj. same obj x) objs)
  unfolding count_if
  among-count_if [] x = ground arith
  among-count_if (obj ∷ objs) x = ground (arith, among-count_if objs x)

  unfoldable pub AllHeld : List Object → S → Type 0
  AllHeld objs s = All (λ obj. holds s obj ≡ true) objs

  AllHeld-grow :
      (objs : List Object) (s s' : S)
      → ((x : Object) → holds s x ≡ true → holds s' x ≡ true)
      → AllHeld objs s
      → AllHeld objs s'
  unfolding AllHeld
  AllHeld-grow [] s s' grow h = tt
  AllHeld-grow (obj ∷ objs) s s' grow h = (grow obj h.0, AllHeld-grow objs s s' grow h.1)

  pub AllHeld-among :
      (objs : List Object) (s : S)
      → ((x : Object) → among same objs x ≡ true → holds s x ≡ true)
      → AllHeld objs s
  unfolding AllHeld
  AllHeld-among [] s all = tt
  AllHeld-among (obj ∷ objs) s all =
      (all obj (rw (api.itself obj)), AllHeld-among objs s (λ x k. all x (ground arith)))

  proceed-held :
      (w v : World Object E S) (rest : Run Object E S Bool) (obj : Object)
      → holds w.server obj ≡ true
      → proceed remote rest (unless_exists remote (remote.create cluster obj w.server).0) v ≡ rest v
  unfolding proceed
  proceed-held w v rest obj h = let (e, p, q) = api.not_again obj w.server h in rw (p, q)

  -- Objects that are there are left alone.
  pub apply_objects-held :
      (objs : List Object) (w : World Object E S)
      → AllHeld objs w.server
      → ((apply_objects remote cluster objs w).0 ≡ ok false)
        × ((x : Object) → holds (apply_objects remote cluster objs w).1.server x ≡ holds w.server x)
  unfolding apply_objects AllHeld
  apply_objects-held [] w h = (refl, λ x. refl)
  apply_objects-held (obj ∷ objs) w h =
      let answer = remote.create cluster obj w.server in
      let v : World Object E S = record {
        server = answer.1;
        calls = created obj answer.0 ∷ w.calls;
      } in
      let (e, p, q) = api.not_again obj w.server h.0 in
      let same_set = λ (x : Object). api.refused obj x w.server e p in
      let (fine, kept) =
        apply_objects-held objs v
          (AllHeld-grow objs w.server v.server (λ x k. same_set x ∙ k) h.1) in
      rw (proceed-held w v (apply_objects remote cluster objs) obj h.0)
        (fine, λ x. kept x ∙ same_set x)

  module _ (law : IsSort remote.large_sort) where
    pub among-sort :
        (objs : List Object) (x : Object)
        → among same (sort_objects_by_hierarchy remote objs) x ≡ among same objs x
    among-sort objs x =
        among-count_if (sort_objects_by_hierarchy remote objs) x
        ∙ ap (ltb 0) ((sort_objects_by_hierarchy-IsSorted remote law objs).1 (λ obj. same obj x))
        ∙ sym (among-count_if objs x)

    -- On an API that keeps the promises of IsApi, and with a library sort that sorts: whatever
    -- Apply returns, the cluster holds what it held and the objects of a first part of the
    -- hierarchy, and nothing else. If it returns no error and no requeue, the cluster holds each of
    -- the manifests besides what it held, and to apply them again returns the same and leaves the
    -- same objects.
    pub apply-Holds :
        (objs : List Object) (w : World Object E S)
        → let (o, w') = apply remote cluster objs w in
          let (o', w'') = apply remote cluster objs w' in
          Holds same holds (sort_objects_by_hierarchy remote objs) w.server w'.server o
          × (o ≡ ok false
              → ((x : Object)
                  → holds w'.server x ≡ (if among same objs x then true else holds w.server x))
                × (o' ≡ ok false)
                × ((x : Object) → holds w''.server x ≡ holds w'.server x))
    unfolding apply
    apply-Holds objs w =
        let sorted = sort_objects_by_hierarchy remote objs in
        let w' = (apply_objects remote cluster sorted w).1 in
        let h = apply_objects-Holds remote cluster api sorted w in
        (
          h,
          λ fine.
              let all = λ (x : Object).
                h.held x
                ∙ ap (λ l. if among same l x then true else holds w.server x)
                    (sym (h.split ∙ ap (λ l. h.first ++ l) (h.whole fine) ∙ append-nil h.first))
                ∙ ap (λ b. if b then true else holds w.server x) (among-sort objs x) in
              let again = apply_objects-held sorted w' (
                AllHeld-among sorted w'.server (λ x k. all x ∙ rw (sym (among-sort objs x) ∙ k))) in
              (all, again.0, again.1),
        )
