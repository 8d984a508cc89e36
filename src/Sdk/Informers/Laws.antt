-- ===== src/Sdk/Informers/Laws.antt =====
-- Starting informers.
use init_agent.Base.{
  ◌≡◌, refl, ◌∙◌, ap, Bool, true, false, [], ◌∷◌, arith, Text, text_eq, text_eq_iff, text_eq_refl,
  if◌then◌else◌, Bool-cases, inl, inr,
}
use init_agent.Go.Maps.{Map, lookup, lookup-insert}
use init_agent.Sdk.Informers.{SharedInformerFactory, is_true, start_one, start_all, start}

module _ {C I D W X : Type 0} where
  -- Whether an informer is marked as started.
  abbrev pub is_started : Text → SharedInformerFactory C I D W X → Bool
  is_started type f = is_true (lookup type f.started_informers)

  start_one-keeps :
      (type : Text) (informer : I) (f : SharedInformerFactory C I D W X)
      → ((start_one type informer f).informers ≡ f.informers)
        × ((start_one type informer f).shutting_down ≡ f.shutting_down)
  unfolding start_one
  start_one-keeps type informer f = ground arith

  pub start_all-keeps :
      (l : Map I) (f : SharedInformerFactory C I D W X)
      → ((start_all l f).informers ≡ f.informers)
        × ((start_all l f).shutting_down ≡ f.shutting_down)
  unfolding start_all
  start_all-keeps [] f = (refl, refl)
  start_all-keeps ((type, informer) ∷ l) f =
      let (a, b) = start_all-keeps l (start_one type informer f) in
      let (c, d) = start_one-keeps type informer f in (a ∙ c, b ∙ d)

  -- An informer is started after its own turn, and stays so.
  pub is_started-start_one :
      (type j : Text) (informer : I) (f : SharedInformerFactory C I D W X)
      → is_started j (start_one type informer f) ≡ (if text_eq type j then true else is_started j f)
  unfolding start_one
  is_started-start_one type j informer f =
      ground (arith, lookup-insert type j true f.started_informers, text_eq_iff type j)

  is_started-start_all :
      (j : Text) (l : Map I) (f : SharedInformerFactory C I D W X)
      → is_started j f ≡ true
      → is_started j (start_all l f) ≡ true
  unfolding start_all
  is_started-start_all j [] f h = h
  is_started-start_all j ((type, informer) ∷ l) f h =
      is_started-start_all j l (start_one type informer f)
        (ground (arith, is_started-start_one type j informer f))

  abbrev pub AllStarted : Map I → SharedInformerFactory C I D W X → Type 0
  AllStarted [] f = Unit
  AllStarted ((type, informer) ∷ l) f = (is_started type f ≡ true) × AllStarted l f

  start_all-AllStarted :
      (l : Map I) (f : SharedInformerFactory C I D W X) → AllStarted l (start_all l f)
  unfolding start_all
  start_all-AllStarted [] f = tt
  start_all-AllStarted ((type, informer) ∷ l) f = (
    is_started-start_all type l (start_one type informer f)
        (ground (arith, is_started-start_one type type informer f, text_eq_refl type)),
    start_all-AllStarted l (start_one type informer f),
  )

  start_one_again :
      (type : Text) (informer : I) (f : SharedInformerFactory C I D W X)
      → is_started type f ≡ true
      → start_one type informer f ≡ f
  unfolding start_one
  start_one_again type informer f h = rw h

  start_all_again :
      (l : Map I) (f : SharedInformerFactory C I D W X) → AllStarted l f → start_all l f ≡ f
  unfolding start_all
  start_all_again [] f h = refl
  start_all_again ((type, informer) ∷ l) f h =
      ap (start_all l) (start_one_again type informer f h.0) ∙ start_all_again l f h.1

  -- If the factory is not shutting down, Start leaves every informer of the factory started; and a
  -- second Start changes nothing, whether it is shutting down or not.
  pub start_lem :
      (f : SharedInformerFactory C I D W X)
      → (f.shutting_down ≡ false → AllStarted f.informers (start f)) × (start (start f) ≡ start f)
  unfolding start
  start_lem f = elim (Bool-cases f.shutting_down) [
    | inl down ↦ (λ up. cc, simp down)
    | inr up ↦
        let (same, still) = start_all-keeps f.informers f in
        (
          λ u. simp up (start_all-AllStarted f.informers f),
          simp (up, still, same)
              (start_all_again f.informers (start_all f.informers f)
                (start_all-AllStarted f.informers f)),
        )
  ]
