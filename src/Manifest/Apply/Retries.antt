-- ===== src/Manifest/Apply/Retries.antt =====
-- Apply called again and again, as the requests of a workqueue do after an error or a requeue, with
-- whatever happens on the servers in between.
use init_agent.Base.{
  ◌≡◌, refl, sym, ◌∙◌, ap, Bool, true, false, not, Bool-cases, inl, inr, List, [], ◌++◌, append-nil,
  Text, arith, if◌then◌else◌,
}
use init_agent.Go.Sort.{IsSort}
use init_agent.Effect.{Outcome, ok, err, panicked, World}
use init_agent.Remote.{Remote}
use init_agent.Manifest.{sort_objects_by_hierarchy}
use init_agent.Manifest.Apply.{apply_objects, apply}
use init_agent.Manifest.Apply.Api.{IsApi, among, apply_objects-Holds}
use init_agent.Manifest.Apply.Objects.{AllHeld-among, apply_objects-held, among-sort}
use init_agent.Manifest.Apply.Parts.{longer}

-- Whether Apply returned no error and no requeue.
abbrev pub went_through : {E : Type 0} → Outcome E Bool → Bool
went_through (ok requeue) = not requeue
went_through (err e) = false
went_through panicked = false

went_through-ok : {E : Type 0} (o : Outcome E Bool) → went_through o ≡ true → o ≡ ok false
went_through-ok (ok true) e = cc
went_through-ok (ok false) e = refl
went_through-ok (err x) e = cc
went_through-ok panicked e = cc

earlier : (now before : Bool) → now ≡ false → (if now then true else before) ≡ true → before ≡ true
earlier now before short e = ground arith

module _ {Object E S Tpl : Type 0} (remote : Remote Object E S Tpl) (cluster : Text)
    (same : Object → Object → Bool) (holds : S → Object → Bool) (objs : List Object) where
  -- What can happen between one state of the world and another, and whether an attempt to apply the
  -- manifests went through: calls of Apply, and anything elsewhere that neither adds nor removes an
  -- object of the manifests.
  pub data Attempts (w₀ : World Object E S) : World Object E S → Bool → Type 0 where
    untried : Attempts w₀ w₀ false
    elsewhere :
        {w w' : World Object E S} {b : Bool}
        → Attempts w₀ w b
        → ((x : Object) → among same objs x ≡ true → holds w'.server x ≡ holds w.server x)
        → Attempts w₀ w' b
    attempt :
        {w : World Object E S} {b : Bool}
        → Attempts w₀ w b
        → Attempts w₀
            (apply remote cluster objs w).1
            (if went_through (apply remote cluster objs w).0 then true else b)

  -- Of the manifests, the cluster holds those that it held and a first part of the hierarchy, which
  -- is all of it once an attempt went through.
  pub record Settled (w₀ w : World Object E S) (b : Bool) : Type 0 where
    pub part : List Object
    pub left : List Object
    pub split : sort_objects_by_hierarchy remote objs ≡ part ++ left
    pub held :
        (x : Object)
        → among same objs x ≡ true
        → holds w.server x ≡ (if among same part x then true else holds w₀.server x)
    pub whole : b ≡ true → left ≡ []

module _ {Object E S Tpl : Type 0} (remote : Remote Object E S Tpl) (cluster : Text)
    {same : Object → Object → Bool} {holds : S → Object → Bool}
    (api : IsApi remote cluster same holds) (law : IsSort remote.large_sort)
    (objs : List Object) where
  abbrev sorted : List Object
  sorted = sort_objects_by_hierarchy remote objs

  attempt-Settled :
      (w₀ w : World Object E S) (b : Bool)
      → Settled remote cluster same holds objs w₀ w b
      → Settled remote cluster same holds objs w₀
          (apply remote cluster objs w).1
          (if went_through (apply remote cluster objs w).0 then true else b)
  unfolding apply
  attempt-Settled w₀ w b h =
      let o = (apply_objects remote cluster sorted w).0 in
      let new = apply_objects-Holds remote cluster api sorted w in
      let both = longer same sorted h.part h.left new.first new.rest h.split new.split in
      record {
        part = both.part;
        left = both.left;
        split = both.split;
        held = λ x k. ground (arith, new.held x, h.held x k, both.has x);
        whole = λ e. elim (Bool-cases (went_through o)) [
          | inl through ↦ both.whole_second (new.whole (went_through-ok o through))
          | inr short ↦ both.whole_first (h.whole (earlier (went_through o) b short e))
        ];
      }

  Attempts-Settled_first :
      {w₀ w : World Object E S} {b : Bool}
      → Attempts remote cluster same holds objs w₀ w b
      → Settled remote cluster same holds objs w₀ w b
  Attempts-Settled_first {w₀} untried = record {
    part = [];
    left = sorted;
    split = refl;
    held = λ x k. refl;
    whole = λ e. cc;
  }
  Attempts-Settled_first (elsewhere a kept) =
      let h = Attempts-Settled_first a in
      record {
        part = h.part;
        left = h.left;
        split = h.split;
        held = λ x k. kept x k ∙ h.held x k;
        whole = h.whole;
      }
  Attempts-Settled_first {w₀} (attempt {w} {b} a) =
      attempt-Settled w₀ w b (Attempts-Settled_first a)

  -- On an API that keeps the promises of IsApi, and with a library sort that sorts: however often
  -- Apply is called, wherever its calls stop, and whatever happens elsewhere to other objects, of
  -- the manifests the cluster holds those that it held and a first part of the hierarchy. Once a
  -- call has returned no error and no requeue, it holds each of them, and each later call returns
  -- no error and no requeue either.
  pub Attempts-Settled :
      {w₀ w : World Object E S} {b : Bool}
      → Attempts remote cluster same holds objs w₀ w b
      → Settled remote cluster same holds objs w₀ w b
        × (b ≡ true
            → ((x : Object) → among same objs x ≡ true → holds w.server x ≡ true)
              × ((apply remote cluster objs w).0 ≡ ok false))
  unfolding apply
  Attempts-Settled {w₀} {w} a =
      let h = Attempts-Settled_first a in
      (
        h,
        λ through.
            let full = h.split ∙ ap (λ l. h.part ++ l) (h.whole through) ∙ append-nil h.part in
            let all = λ (x : Object) (k : among same objs x ≡ true).
              h.held x k ∙ rw (sym full, among-sort remote cluster api law objs x, k) in
            (
              all,
              (apply_objects-held remote cluster api sorted w (
                  AllHeld-among remote cluster api sorted w.server
                    (λ x k. all x (sym (among-sort remote cluster api law objs x) ∙ k)))).0,
            ),
      )
