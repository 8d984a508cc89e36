-- ===== src/Manifest/Apply/Api.antt =====
-- What the API promises of a creation, and what Apply makes of it: the objects that the cluster
-- holds after any part of the list.
use init_agent.Base.{
  ◌≡◌, refl, ◌∙◌, ap, Bool, true, false, Option, none, some, List, [], ◌∷◌, ◌++◌, Text, arith,
  if◌then◌else◌, Bool-cases, inl, inr,
}
use init_agent.Effect.{Outcome, ok, created, World, Run}
use init_agent.Remote.{Remote}
use init_agent.Manifest.Apply.{unless_exists, proceed, apply_objects}

module _ {Object E S Tpl : Type 0} (remote : Remote Object E S Tpl) (cluster : Text) where
  -- What the API promises of the creation of an object, with `same` for two manifests of one object
  -- and `holds` for the objects that the cluster has: a creation that is granted adds the object,
  -- one that is refused changes nothing, and the error AlreadyExists is given just for an object
  -- that is there.
  pub record IsApi (same : Object → Object → Bool) (holds : S → Object → Bool) : Type 0 where
    pub itself : (x : Object) → same x x ≡ true
    pub congruent : (s : S) (x y : Object) → same x y ≡ true → holds s x ≡ holds s y
    pub granted :
        (obj x : Object) (s : S)
        → (remote.create cluster obj s).0 ≡ none
        → holds (remote.create cluster obj s).1 x ≡ (if same obj x then true else holds s x)
    pub refused :
        (obj x : Object) (s : S) (e : E)
        → (remote.create cluster obj s).0 ≡ some e
        → holds (remote.create cluster obj s).1 x ≡ holds s x
    pub there :
        (obj : Object) (s : S) (e : E)
        → (remote.create cluster obj s).0 ≡ some e
        → remote.is_already_exists e ≡ true
        → holds s obj ≡ true
    pub not_again :
        (obj : Object) (s : S)
        → holds s obj ≡ true
        → (e : E) × ((remote.create cluster obj s).0 ≡ some e) × (remote.is_already_exists e ≡ true)

-- Whether an object is among some manifests.
abbrev pub among : {Object : Type 0} → (Object → Object → Bool) → List Object → Object → Bool
among same [] x = false
among same (obj ∷ objs) x = if same obj x then true else among same objs x

-- The specification: the cluster holds what it held and the objects of a first part of the list,
-- which is the whole list if the result is no error and no requeue.
pub record Holds {Object E S : Type 0} (same : Object → Object → Bool) (holds : S → Object → Bool)
    (objs : List Object) (s s' : S) (o : Outcome E Bool) : Type 0 where
  pub first : List Object
  pub rest : List Object
  pub split : objs ≡ first ++ rest
  pub held : (x : Object) → holds s' x ≡ (if among same first x then true else holds s x)
  pub whole : o ≡ ok false → rest ≡ []

module _ {Object E S Tpl : Type 0} (remote : Remote Object E S Tpl) (cluster : Text)
    {same : Object → Object → Bool} {holds : S → Object → Bool}
    (api : IsApi remote cluster same holds) where
  stops :
      (objs : List Object) (s s' : S) (o : Outcome E Bool)
      → ((x : Object) → holds s' x ≡ holds s x)
      → (o ≡ ok false → objs ≡ [])
      → Holds same holds objs s s' o
  stops objs s s' o kept whole = record {
    first = [];
    rest = objs;
    split = refl;
    held = kept;
    whole = whole;
  }

  extends :
      (obj : Object) (objs : List Object) (s v s' : S) (o : Outcome E Bool)
      → ((x : Object) → holds v x ≡ (if same obj x then true else holds s x))
      → Holds same holds objs v s' o
      → Holds same holds (obj ∷ objs) s s' o
  extends obj objs s v s' o step h = record {
    first = obj ∷ h.first;
    rest = h.rest;
    split = cc (h.split);
    held = λ x. ground (arith, h.held x, step x);
    whole = h.whole;
  }

  refused_same :
      (obj x : Object) (s v : S)
      → holds v x ≡ holds s x
      → holds s obj ≡ true
      → holds v x ≡ (if same obj x then true else holds s x)
  refused_same obj x s v e old = ground (arith, api.congruent s obj x)

  proceed-Holds :
      (obj : Object) (objs : List Object) (w v : World Object E S) (rest : Run Object E S Bool)
      (result : Option E)
      → (remote.create cluster obj w.server).0 ≡ result
      → v.server ≡ (remote.create cluster obj w.server).1
      → Holds same holds objs v.server (rest v).1.server (rest v).0
      → Holds same holds
          (obj ∷ objs)
          w.server
          (proceed remote rest (unless_exists remote result) v).1.server
          (proceed remote rest (unless_exists remote result) v).0
  unfolding proceed
  proceed-Holds obj objs w v rest none e f h =
      extends obj objs w.server v.server (rest v).1.server (rest v).0
        (λ x. rw f (api.granted obj x w.server e)) h
  proceed-Holds obj objs w v rest (some x) e f h =
      let kept = λ (y : Object). ap (λ s. holds s y) f ∙ api.refused obj y w.server x e in
      elim (Bool-cases (remote.is_already_exists x)) [
        | inl old ↦ rw old (
            extends obj objs w.server v.server (rest v).1.server (rest v).0
              (λ y. refused_same obj y w.server v.server (kept y) (api.there obj w.server x e old))
              h)
        | inr new ↦ rw new (elim (Bool-cases (remote.is_no_kind_match x)) [
          | inl unknown ↦ rw unknown (stops (obj ∷ objs) w.server v.server _ kept (λ q. cc))
          | inr known ↦ rw known (stops (obj ∷ objs) w.server v.server _ kept (λ q. cc))
        ])
      ]

  pub apply_objects-Holds :
      (objs : List Object) (w : World Object E S)
      → Holds same holds objs w.server
          (apply_objects remote cluster objs w).1.server
          (apply_objects remote cluster objs w).0
  unfolding apply_objects
  apply_objects-Holds [] w = stops [] w.server w.server _ (λ x. refl) (λ q. refl)
  apply_objects-Holds (obj ∷ objs) w =
      let answer = remote.create cluster obj w.server in
      let v : World Object E S = record {
        server = answer.1;
        calls = created obj answer.0 ∷ w.calls;
      } in
      proceed-Holds obj objs w v (apply_objects remote cluster objs) answer.0 refl refl
        (apply_objects-Holds objs v)
