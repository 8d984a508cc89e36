-- ===== src/Manifest/Apply/Parts.antt =====
-- First parts of one list of manifests: of two of them one is the longer, and has what either has.
use init_agent.Base.{◌≡◌, refl, sym, ◌∙◌, Bool, true, List, [], ◌∷◌, ◌++◌, arith, if◌then◌else◌}
use init_agent.Manifest.Apply.Api.{among}

module _ {Object : Type 0} (same : Object → Object → Bool) where
  -- A first part of `whole` that has what the two first parts have, and that is the whole list as
  -- soon as one of them is.
  pub record Longer (whole first rest first' rest' : List Object) : Type 0 where
    pub part : List Object
    pub left : List Object
    pub split : whole ≡ part ++ left
    pub has :
        (x : Object)
        → among same part x ≡ (if among same first' x then true else among same first x)
    pub whole_first : rest ≡ [] → left ≡ []
    pub whole_second : rest' ≡ [] → left ≡ []

  behind_nothing : (l r : List Object) → l ++ r ≡ [] → r ≡ []
  behind_nothing [] r e = e
  behind_nothing (x ∷ l) r e = cc

  extended :
      (x : Object) (whole first rest first' rest' : List Object)
      → Longer whole first rest first' rest'
      → Longer (x ∷ whole) (x ∷ first) rest (x ∷ first') rest'
  extended x whole first rest first' rest' h = record {
    part = x ∷ h.part;
    left = h.left;
    split = cc (h.split);
    has = λ y. ground (arith, h.has y);
    whole_first = h.whole_first;
    whole_second = h.whole_second;
  }

  pub longer :
      (whole first rest first' rest' : List Object)
      → whole ≡ first ++ rest
      → whole ≡ first' ++ rest'
      → Longer whole first rest first' rest'
  longer whole [] rest first' rest' e e' = record {
    part = first';
    left = rest';
    split = e';
    has = λ x. ground arith;
    whole_first = λ h. behind_nothing first' rest' (sym e' ∙ e ∙ h);
    whole_second = λ h. h;
  }
  longer whole (x ∷ first) rest [] rest' e e' = record {
    part = x ∷ first;
    left = rest;
    split = e;
    has = λ y. refl;
    whole_first = λ h. h;
    whole_second = λ h. behind_nothing (x ∷ first) rest (sym e ∙ e' ∙ h);
  }
  longer [] (x ∷ first) rest (y ∷ first') rest' e e' = cc
  longer (z ∷ whole) (x ∷ first) rest (y ∷ first') rest' e e' =
      let at : z ≡ x = cc in
      let at' : z ≡ y = cc in
      let tail : whole ≡ first ++ rest = cc in
      let tail' : whole ≡ first' ++ rest' = cc in
      rw (sym at, sym at')
        (extended z whole first rest first' rest' (longer whole first rest first' rest' tail tail'))
