-- ===== src/Sdk/Fakes/Filled.antt =====
-- When NewSimpleClientset of one cluster returns, and when it panics.
use init_agent.Base.{
  ◌≡◌, refl, ap, ◌∙◌, ◌⊎◌, inl, inr, Option, Option-cases, none, some, List, [], ◌∷◌, ◌++◌,
}
use init_agent.Effect.{ok, panicked}
use init_agent.Sdk.Fakes.Simple.{
  Tracking, Clientset, after_add, add_each, clientset_of, new_simple_clientset,
}

module _ {Fk Tr Re Any Act Gvr LO V E W : Type 0}
    (tracking : Tracking Fk Tr Re Any Act Gvr LO V E W) where
  -- The tracker accepts the objects, one after the other.
  abbrev pub Accepts : Tr → List Any → W → W → Type 0
  Accepts o [] w w' = w' ≡ w
  Accepts o (obj ∷ objects) w w' =
      ((tracking.add o obj w).0 ≡ none) × Accepts o objects (tracking.add o obj w).1 w'

  -- It refuses an object, after those before it.
  pub record Refuses (o : Tr) (objects : List Any) (w w' : W) : Type 0 where
    pub before : List Any
    pub culprit : Any
    pub rest : List Any
    pub middle : W
    pub error : E
    pub split : objects ≡ before ++ culprit ∷ rest
    pub accepted : Accepts o before w middle
    pub refused : tracking.add o culprit middle ≡ (some error, w')

  later :
      (o : Tr) (obj : Any) (objects : List Any) (w w' : W)
      → (tracking.add o obj w).0 ≡ none
      → Refuses o objects (tracking.add o obj w).1 w'
      → Refuses o (obj ∷ objects) w w'
  later o obj objects w w' n r = record {
    before = obj ∷ r.before;
    culprit = r.culprit;
    rest = r.rest;
    middle = r.middle;
    error = r.error;
    split = ap (λ l. obj ∷ l) r.split;
    accepted = (n, r.accepted);
    refused = r.refused;
  }

  add_each-ends :
      (o : Tr) (objects : List Any) (w : W)
      → ((w' : W) × Accepts o objects w w' × (add_each tracking o objects w ≡ (ok tt, w')))
        ⊎ ((w' : W) × Refuses o objects w w' × (add_each tracking o objects w ≡ (panicked, w')))
  unfolding add_each
  add_each-ends o [] w = inl (w, refl, refl)
  add_each-ends o (obj ∷ objects) w = elim (Option-cases (tracking.add o obj w).0) [
    | inl n ↦
        let w₁ = (tracking.add o obj w).1 in
        let step = ap (λ (x : Option E). after_add (x, w₁) (add_each tracking o objects)) n in
        elim (add_each-ends o objects w₁) [
          | inl (w', a, e) ↦ inl (w', (n, a), step ∙ e)
          | inr (w', r, e) ↦ inr (w', later o obj objects w w' n r, step ∙ e)
        ]
    | inr (e, f) ↦
        let w₁ = (tracking.add o obj w).1 in
        inr (
          w₁,
          record {
            before = [];
            culprit = obj;
            rest = objects;
            middle = w;
            error = e;
            split = refl;
            accepted = refl;
            refused = λ i. (f i, w₁);
          },
          ap (λ (x : Option E). after_add (x, w₁) (add_each tracking o objects)) f,
        )
  ]

  -- NewSimpleClientset makes one tracker. If it accepts all objects, in their order, the clientset
  -- that is returned has this tracker, and its discovery client works on the Fake of the clientset.
  -- If it refuses one, the call panics there: the objects behind it are not added, and no Fake is
  -- made.
  pub new_simple_clientset-ends :
      (objects : List Any) (w : W)
      → let (o, made) = tracking.new_object_tracker w in
        ((w' : W) × (cs : Clientset Fk Tr) × (w'' : W) × Accepts o objects made w'
          × (clientset_of tracking o w' ≡ (ok cs, w''))
          × (new_simple_clientset tracking objects w ≡ (ok cs, w''))
          × (cs.tracker ≡ o)
          × (cs.discovery ≡ cs.fake))
        ⊎ ((w' : W) × Refuses o objects made w'
            × (new_simple_clientset tracking objects w ≡ (panicked, w')))
  unfolding new_simple_clientset clientset_of
  new_simple_clientset-ends objects w =
      let (o, made) = tracking.new_object_tracker w in
      elim (add_each-ends o objects made) [
        | inl (w', a, e) ↦ inl (
          w',
          record {
            fake = (tracking.new_fake w').0;
            discovery = (tracking.new_fake w').0;
            tracker = o;
          },
          (clientset_of tracking o w').1,
          a,
          refl,
          rw e refl,
          refl,
          refl,
        )
        | inr (w', r, e) ↦ inr (w', r, rw e refl)
      ]
