-- ===== src/Sdk/Informers/History.antt =====
-- What any sequence of calls keeps: each informer type is run at most once, and the wait group is
-- at most the number of goroutines.
use init_agent.Base.{
  ℕ, zero, suc, ◌≤◌, ◌≡◌, refl, Bool, true, false, Option, none, some, List, [], ◌∷◌, arith, Text,
  text_eq, text_eq_iff, length, if◌then◌else◌, Bool-cases, inl, inr,
}
use init_agent.Go.Maps.{Map, lookup, lookup-insert}
use init_agent.Sdk.Informers.{
  SharedInformerFactory, SharedInformerOption, start_one, start_all, start, shutdown, run_returned,
  informer_for_entry, informer_for, new_shared_informer_factory_with_options,
}
use init_agent.Sdk.Informers.Laws.{is_started}

-- How many goroutines were started for a type.
unfoldable pub runs_of : {I : Type 0} → Text → List (Text × I) → ℕ
runs_of type [] = 0
runs_of type ((t, informer) ∷ runs) =
    let rest = runs_of type runs in if text_eq t type then suc rest else rest

abbrev pub one_if : Bool → ℕ
one_if true = 1
one_if false = 0

-- A call of the factory; `returned` is a goroutine that ends, which needs one that runs.
pub data Call (C I D : Type 0) : Type 0 where
  started shut_down returned : Call C I D
  asked : Text → (C → D → I) → Call C I D

abbrev pub is_zero : ℕ → Bool
is_zero zero = true
is_zero (suc n) = false

module _ {C I D W X : Type 0} where
  returned_if : Bool → SharedInformerFactory C I D W X → SharedInformerFactory C I D W X
  returned_if true f = f
  returned_if false f = run_returned f

  unfoldable pub step :
      Call C I D → SharedInformerFactory C I D W X → SharedInformerFactory C I D W X
  unfolding returned_if
  step started f = start f
  step shut_down f = shutdown f
  step returned f = returned_if (is_zero f.wg) f
  step (asked type new) f = (informer_for type new f).1

  unfoldable pub after :
      List (Call C I D) → SharedInformerFactory C I D W X → SharedInformerFactory C I D W X
  after [] f = f
  after (call ∷ calls) f = after calls (step call f)

  pub record Inv (f : SharedInformerFactory C I D W X) : Type 0 where
    pub once : (type : Text) → runs_of type f.runs ≡ one_if (is_started type f)
    pub counted : f.wg ≤ length f.runs

  start_one-Inv :
      (type : Text) (informer : I) (f : SharedInformerFactory C I D W X)
      → Inv f
      → Inv (start_one type informer f)
  start_one-Inv type informer f h = elim (Bool-cases (is_started type f)) [
    | inl old ↦ unfold start_one in rw old h
    | inr new ↦ record {
      once = λ j.
          unfold start_one runs_of in
          ground
            (arith, lookup-insert type j true f.started_informers, text_eq_iff type j, h.once j);
      counted = unfold start_one in ground (arith, h.counted);
    }
  ]

  start_all-Inv : (l : Map I) (f : SharedInformerFactory C I D W X) → Inv f → Inv (start_all l f)
  unfolding start_all
  start_all-Inv [] f h = h
  start_all-Inv ((type, informer) ∷ l) f h =
      start_all-Inv l (start_one type informer f) (start_one-Inv type informer f h)

  start-Inv : (f : SharedInformerFactory C I D W X) → Inv f → Inv (start f)
  unfolding start
  start-Inv f h = elim (Bool-cases f.shutting_down) [
    | inl down ↦ simp down h
    | inr up ↦ simp up (start_all-Inv f.informers f h)
  ]

  pub informer_for-keeps :
      (entry : Option I) (type : Text) (new : C → D → I) (f : SharedInformerFactory C I D W X)
      → let f' = (informer_for_entry entry type new f).1 in
        (f'.runs ≡ f.runs)
        × (f'.started_informers ≡ f.started_informers)
        × (f'.wg ≡ f.wg)
        × (f'.shutting_down ≡ f.shutting_down)
  unfolding informer_for_entry
  informer_for-keeps none type new f = (refl, refl, refl, refl)
  informer_for-keeps (some i) type new f = (refl, refl, refl, refl)

  informer_for-Inv :
      (entry : Option I) (type : Text) (new : C → D → I) (f : SharedInformerFactory C I D W X)
      → Inv f
      → Inv (informer_for_entry entry type new f).1
  unfolding informer_for_entry
  informer_for-Inv none type new f h = record { once = h.once; counted = h.counted }
  informer_for-Inv (some i) type new f h = h

  returned-Inv : (f : SharedInformerFactory C I D W X) → Inv f → Inv (step returned f)
  unfolding step run_returned
  returned-Inv f h = elim (Bool-cases (is_zero f.wg)) [
    | inl none_left ↦ rw none_left h
    | inr some_left ↦ rw some_left (record { once = h.once; counted = omega (arith, h.counted) })
  ]

  step-Inv : (call : Call C I D) (f : SharedInformerFactory C I D W X) → Inv f → Inv (step call f)
  step-Inv started f h = unfold step in start-Inv f h
  step-Inv shut_down f h = unfold step shutdown in record { once = h.once; counted = h.counted }
  step-Inv returned f h = returned-Inv f h
  step-Inv (asked type new) f h =
      unfold step informer_for in informer_for-Inv (lookup type f.informers) type new f h

  after-Inv :
      (calls : List (Call C I D)) (f : SharedInformerFactory C I D W X)
      → Inv f
      → Inv (after calls f)
  unfolding after
  after-Inv [] f h = h
  after-Inv (call ∷ calls) f h = after-Inv calls (step call f) (step-Inv call f h)

  new-Inv :
      (client : C) (default_resync : D) (options : List (SharedInformerOption D W X))
      → Inv (new_shared_informer_factory_with_options client default_resync options)
  unfolding new_shared_informer_factory_with_options runs_of lookup
  new-Inv client default_resync options = record { once = λ type. refl; counted = omega arith }

  -- After any calls of a new factory, a type was run once if it is marked as started and never
  -- otherwise, and the wait group is at most the number of goroutines.
  pub runs_once :
      (client : C) (default_resync : D) (options : List (SharedInformerOption D W X))
      (calls : List (Call C I D)) (type : Text)
      → let f =
          after calls (new_shared_informer_factory_with_options client default_resync options) in
        (runs_of type f.runs ≡ one_if (is_started type f)) × (f.wg ≤ length f.runs)
  runs_once client default_resync options calls type =
      let h =
        after-Inv calls (new_shared_informer_factory_with_options client default_resync options)
          (new-Inv client default_resync options) in
      (h.once type, h.counted)
