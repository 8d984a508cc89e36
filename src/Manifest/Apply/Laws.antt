-- ===== src/Manifest/Apply/Laws.antt =====
-- What an application of manifests has done, on every way out.
use init_agent.Base.{
  ◌≡◌, refl, Bool, true, false, Option, none, some, List, [], ◌∷◌, ◌++◌, Text, All, map, Bool-cases,
  inl, inr,
}
use init_agent.Effect.{external, Outcome, ok, err, panicked, Call, created, World, Run}
use init_agent.Remote.{Remote}
use init_agent.Manifest.{sort_objects_by_hierarchy}
use init_agent.Manifest.Apply.{unless_exists, proceed, apply_objects, apply}

module _ {Object E : Type 0} where
  -- The log after creating some objects with the results named.
  abbrev pub log : List (Object × Option E) → List (Call Object E) → List (Call Object E)
  log [] calls = calls
  log ((obj, result) ∷ tried) calls = log tried (created obj result ∷ calls)

  abbrev pub tried_object : Object × Option E → Object
  tried_object (obj, result) = obj

  abbrev pub tried_result : Object × Option E → Option E
  tried_result (obj, result) = result

module _ {Object E S Tpl : Type 0} (remote : Remote Object E S Tpl) where
  -- The request created the object, or it exists already.
  abbrev pub IsSettled : Option E → Type 0
  IsSettled none = Unit
  IsSettled (some e) = remote.is_already_exists e ≡ true

  -- Between two worlds just these objects were requested, in this order, and each is settled.
  pub record Settled (objs : List Object) (w w' : World Object E S) : Type 0 where
    pub tried : List (Object × Option E)
    pub objects : map tried_object tried ≡ objs
    pub each : All (λ t. IsSettled (tried_result t)) tried
    pub logged : w'.calls ≡ log tried w.calls

  -- The objects before one are settled, and the request for that one failed with `e`.
  pub record Stopped (objs : List Object) (w w' : World Object E S) (e : E) : Type 0 where
    pub done : List Object
    pub culprit : Object
    pub left : List Object
    pub middle : World Object E S
    pub split : objs ≡ done ++ culprit ∷ left
    pub settled : Settled done w middle
    pub logged : w'.calls ≡ created culprit (some e) ∷ middle.calls
    pub new : remote.is_already_exists e ≡ false

  -- What each result of Apply says of the world that it leaves.
  abbrev pub Explained : List Object → World Object E S → World Object E S → Outcome E Bool → Type 0
  Explained objs w w' (ok false) = Settled objs w w'
  Explained objs w w' (ok true) = (e : E) × Stopped objs w w' e × (remote.is_no_kind_match e ≡ true)
  Explained objs w w' (err x) =
      (e : E) × (x ≡ external e) × Stopped objs w w' e × (remote.is_no_kind_match e ≡ false)
  Explained objs w w' panicked = ⊥

  settle :
      (obj : Object) (result : Option E) (objs : List Object) (w v w' : World Object E S)
      → IsSettled result
      → v.calls ≡ created obj result ∷ w.calls
      → Settled objs v w'
      → Settled (obj ∷ objs) w w'
  settle obj result objs w v w' h l s = record {
    tried = (obj, result) ∷ s.tried;
    objects = cc (s.objects);
    each = (h, s.each);
    logged = rw (← l) s.logged;
  }

  later :
      (obj : Object) (result : Option E) (objs : List Object) (w v w' : World Object E S) (e : E)
      → IsSettled result
      → v.calls ≡ created obj result ∷ w.calls
      → Stopped objs v w' e
      → Stopped (obj ∷ objs) w w' e
  later obj result objs w v w' e h l s = record {
    done = obj ∷ s.done;
    culprit = s.culprit;
    left = s.left;
    middle = s.middle;
    split = cc (s.split);
    settled = settle obj result s.done w v s.middle h l s.settled;
    logged = s.logged;
    new = s.new;
  }

  extend :
      (obj : Object) (result : Option E) (objs : List Object) (w v w' : World Object E S)
      (o : Outcome E Bool)
      → IsSettled result
      → v.calls ≡ created obj result ∷ w.calls
      → Explained objs v w' o
      → Explained (obj ∷ objs) w w' o
  extend obj result objs w v w' (ok false) h l s = settle obj result objs w v w' h l s
  extend obj result objs w v w' (ok true) h l (e, s, k) =
      (e, later obj result objs w v w' e h l s, k)
  extend obj result objs w v w' (err x) h l (e, p, s, k) =
      (e, p, later obj result objs w v w' e h l s, k)
  extend obj result objs w v w' panicked h l s = s

  nothing : (w : World Object E S) → Settled [] w w
  nothing w = record { tried = []; objects = refl; each = tt; logged = refl }

  stop :
      (obj : Object) (objs : List Object) (w v : World Object E S) (e : E)
      → remote.is_already_exists e ≡ false
      → v.calls ≡ created obj (some e) ∷ w.calls
      → Stopped (obj ∷ objs) w v e
  stop obj objs w v e n l = record {
    done = [];
    culprit = obj;
    left = objs;
    middle = w;
    split = refl;
    settled = nothing w;
    logged = l;
    new = n;
  }

  -- One round of the loop, for every result of the request.
  proceed-Explained :
      (obj : Object) (objs : List Object) (w v : World Object E S) (rest : Run Object E S Bool)
      (result : Option E)
      → v.calls ≡ created obj result ∷ w.calls
      → Explained objs v (rest v).1 (rest v).0
      → Explained
          (obj ∷ objs)
          w
          (proceed remote rest (unless_exists remote result) v).1
          (proceed remote rest (unless_exists remote result) v).0
  unfolding proceed
  proceed-Explained obj objs w v rest none l s =
      extend obj none objs w v (rest v).1 (rest v).0 tt l s
  proceed-Explained obj objs w v rest (some e) l s =
      elim (Bool-cases (remote.is_already_exists e)) [
        | inl old ↦ rw old (extend obj (some e) objs w v (rest v).1 (rest v).0 old l s)
        | inr new ↦ rw new (elim (Bool-cases (remote.is_no_kind_match e)) [
          | inl unknown ↦ rw unknown (e, stop obj objs w v e new l, unknown)
          | inr known ↦ rw known (e, refl, stop obj objs w v e new l, known)
        ])
      ]

  apply_objects-Explained :
      (cluster : Text) (objs : List Object) (w : World Object E S)
      → Explained objs w
          (apply_objects remote cluster objs w).1
          (apply_objects remote cluster objs w).0
  unfolding apply_objects
  apply_objects-Explained cluster [] w = nothing w
  apply_objects-Explained cluster (obj ∷ objs) w =
      let answer = remote.create cluster obj w.server in
      let v : World Object E S = record {
        server = answer.1;
        calls = created obj answer.0 ∷ w.calls;
      } in
      proceed-Explained obj objs w v (apply_objects remote cluster objs) answer.0 refl
        (apply_objects-Explained cluster objs v)

  -- Apply requests the objects in the order of the hierarchy. If it returns no error and no
  -- requeue, each of them was requested once and was created or existed. If it asks for a requeue,
  -- it stopped at an object whose kind the server does not know; if it returns an error, at an
  -- object whose request failed otherwise, and with the error of that request. Then the objects
  -- before that one are settled, and none after it was requested. It never panics.
  pub apply-Explained :
      (cluster : Text) (objs : List Object) (w : World Object E S)
      → Explained
          (sort_objects_by_hierarchy remote objs)
          w
          (apply remote cluster objs w).1
          (apply remote cluster objs w).0
  unfolding apply
  apply-Explained cluster objs w =
      apply_objects-Explained cluster (sort_objects_by_hierarchy remote objs) w
