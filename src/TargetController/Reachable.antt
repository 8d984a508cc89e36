-- ===== src/TargetController/Reachable.antt =====
-- The states that the target controller can reach, event by event.
use init_agent.Base.{
  zero, suc, ℕ, ◌≡◌, sym, ◌∙◌, ap, subst, true, false, none, some, List, [], ◌∷◌, Text, get_elem?,
  arith,
}
use init_agent.Go.Slices.{contains}
use init_agent.Go.Maps.{Map, lookup}
use init_agent.Kcp.Rest.{RestConfig}
use init_agent.Sdk.Types.{InitTarget}
use init_agent.Remote.{Fetched, found, failed}
use init_agent.Effect.{ok}
use init_agent.TargetController.{
  Context, State, Services, by_deletion, on_target, cleanup_controller, get_init_target_key,
  start_controller, ensure_init_controller, reconcile_target,
}
use init_agent.TargetController.Events.{Event, happens, background}
use init_agent.TargetController.Tracked.{IsTracked, AllTracked}
use init_agent.TargetController.Invariant.{
  Inv, server-Inv, cleanup_controller-Inv, start_controller-Inv, ensure_init_controller-Inv,
  happens-Inv, background-Inv, background-absent,
}

abbrev pub init : {S : Type 0} → S → State S
init s = record { server = s; ctrl_cancels = []; started = []; root_cancelled = false }

module _ {E S M R : Type 0} (services : Services E S M R) (cfg : RestConfig R) where
  -- One step, with the keys of the targets seen with a deletion timestamp before and after it. A
  -- deletion timestamp is never taken back and a UID is never used again, so no target that is
  -- gone comes without a timestamp. ensureInitController reads and writes the map without the lock:
  -- `interrupted` is a successful call of it with what happens elsewhere between the test of the map
  -- and the new entry.
  pub data Step (gone : List Text) (st : State S) (gone' : List Text) (st' : State S) : Type 0 where
    ensured :
        (name : Text) (target : InitTarget) (s : S)
        → services.get_target name st.server ≡ (found target, s)
        → target.meta.deletion_timestamp ≡ none
        → contains gone (get_init_target_key target) ≡ false
        → gone' ≡ gone
        → st' ≡ (reconcile_target services cfg name st).1
        → Step gone st gone' st'
    interrupted :
        (name : Text) (target : InitTarget) (s s' : S) (events : List (Event S))
        → services.get_target name st.server ≡ (found target, s)
        → target.meta.deletion_timestamp ≡ none
        → contains gone (get_init_target_key target) ≡ false
        → lookup (get_init_target_key target) st.ctrl_cancels ≡ none
        → gone' ≡ gone
        → st'
          ≡ start_controller
              (get_init_target_key target)
              (record (background events (record st { server = s })) { server = s' })
        → Step gone st gone' st'
    deleted :
        (name : Text) (target : InitTarget) (s : S) (t : ℕ)
        → services.get_target name st.server ≡ (found target, s)
        → target.meta.deletion_timestamp ≡ some t
        → gone' ≡ get_init_target_key target ∷ gone
        → st' ≡ (reconcile_target services cfg name st).1
        → Step gone st gone' st'
    missed :
        (name : Text) (e : E) (s : S)
        → services.get_target name st.server ≡ (failed e, s)
        → gone' ≡ gone
        → st' ≡ (reconcile_target services cfg name st).1
        → Step gone st gone' st'
    elsewhere : (event : Event S) → gone' ≡ gone → st' ≡ happens event st → Step gone st gone' st'

  pub data Reach (s : S) : List Text → State S → Type 0 where
    here : Reach s [] (init s)
    next :
        {gone : List Text} {st : State S} {gone' : List Text} {st' : State S}
        → Reach s gone st
        → Step gone st gone' st'
        → Reach s gone' st'

  -- What a reconciliation does once the target was fetched.
  pub reconcile_target-eq :
      (name : Text) (st : State S) (f : Fetched E InitTarget) (s : S)
      → services.get_target name st.server ≡ (f, s)
      → reconcile_target services cfg name st ≡ on_target services cfg f (record st { server = s })
  unfolding reconcile_target
  reconcile_target-eq name st f s e =
      ap (λ (q : Fetched E InitTarget × S). on_target services cfg q.0 (record st { server = q.1 }))
        e

  pub reconcile_target-ensures :
      (name : Text) (st : State S) (target : InitTarget) (s : S)
      → services.get_target name st.server ≡ (found target, s)
      → target.meta.deletion_timestamp ≡ none
      → reconcile_target services cfg name st
        ≡ ensure_init_controller services cfg target (record st { server = s })
  reconcile_target-ensures name st target s e d =
      reconcile_target-eq name st (found target) s e
      ∙ (unfold on_target in
          ap (λ o. by_deletion services cfg o target (record st { server = s })) d)

  pub reconcile_target-cleans :
      (name : Text) (st : State S) (target : InitTarget) (s : S) (t : ℕ)
      → services.get_target name st.server ≡ (found target, s)
      → target.meta.deletion_timestamp ≡ some t
      → reconcile_target services cfg name st
        ≡ (ok tt, cleanup_controller target (record st { server = s }))
  reconcile_target-cleans name st target s t e d =
      reconcile_target-eq name st (found target) s e
      ∙ (unfold on_target in
          ap (λ o. by_deletion services cfg o target (record st { server = s })) d)

  -- A target that is not found is left alone, and so is its controller: neither the table of
  -- running controllers nor any context changes.
  reconcile_target-not_found :
      (name : Text) (st : State S) (e : E) (s : S)
      → services.get_target name st.server ≡ (failed e, s)
      → services.is_not_found e ≡ true
      → reconcile_target services cfg name st ≡ (ok tt, record st { server = s })
  reconcile_target-not_found name st e s f n =
      reconcile_target-eq name st (failed e) s f ∙ (unfold on_target in rw n)

  pub reconcile_target-fails :
      (name : Text) (st : State S) (e : E) (s : S)
      → services.get_target name st.server ≡ (failed e, s)
      → (reconcile_target services cfg name st).1 ≡ record st { server = s }
  reconcile_target-fails name st e s f =
      rw (reconcile_target-eq name st (failed e) s f) (unfold on_target in ground arith)

  Step-Inv :
      {gone : List Text} {st : State S} {gone' : List Text} {st' : State S}
      → Step gone st gone' st'
      → Inv gone st
      → Inv gone' st'
  Step-Inv {gone} {st} (ensured name target s e d g p q) h =
      rw (p, q, reconcile_target-ensures name st target s e d)
        (ensure_init_controller-Inv services cfg target gone (record st { server = s }) g
          (server-Inv gone st h s))
  Step-Inv {gone} {st} (interrupted name target s s' events e d g n p q) h =
      let key = get_init_target_key target in
      let begun = record st { server = s } in
      let later = record (background events begun) { server = s' } in
      let kept = background-Inv gone events begun (server-Inv gone st h s) in
      rw (p, q)
        (start_controller-Inv gone later (server-Inv gone (background events begun) kept s') key
          (background-absent key events begun n) g)
  Step-Inv {gone} {st} (deleted name target s t e d p q) h =
      rw (p, q, reconcile_target-cleans name st target s t e d)
        (cleanup_controller-Inv gone (record st { server = s }) (server-Inv gone st h s) target)
  Step-Inv {gone} {st} (missed name e s f p q) h =
      rw (p, q, reconcile_target-fails name st e s f) (server-Inv gone st h s)
  Step-Inv {gone} {st} (elsewhere event p q) h = rw (p, q) (happens-Inv gone event st h)

  -- Every reachable state satisfies the invariant.
  pub Reach-Inv : {s : S} {gone : List Text} {st : State S} → Reach s gone st → Inv gone st
  unfolding contains
  Reach-Inv here = record { tracked = tt; numbered = tt; retired = λ key h. cc }
  Reach-Inv (next r step) = Step-Inv step (Reach-Inv r)

pub some_inj : {A : Type 0} {a b : A} → some a ≡ some b → a ≡ b
some_inj e = cc

pub IsTracked-get_elem? :
    (cancels : Map ℕ) (gone : List Text) (cs : List Context) (i : ℕ) {c : Context}
    → AllTracked cancels gone cs
    → get_elem? cs i ≡ some c
    → IsTracked cancels gone c
IsTracked-get_elem? cancels gone [] i h e = cc
IsTracked-get_elem? cancels gone (d ∷ cs) zero h e = subst (IsTracked cancels gone) (some_inj e) h.0
IsTracked-get_elem? cancels gone (d ∷ cs) (suc i) h e = IsTracked-get_elem? cancels gone cs i h.1 e

-- The context of a live controller is the one in the map, under its key.
pub live_entered :
    (cancels : Map ℕ) (gone : List Text) (c : Context)
    → IsTracked cancels gone c
    → c.cancelled ≡ false
    → (lookup c.key cancels ≡ some c.id) × (contains gone c.key ≡ false)
live_entered cancels gone c t l = ground arith

module _ {E S M R : Type 0} (services : Services E S M R) (cfg : RestConfig R) {s : S}
    {gone : List Text} {st : State S} (reached : Reach services cfg s gone st) where
  -- In a reachable state, of two live contexts of one InitTarget each is the one whose cancel func
  -- the map holds under the target's key, so the two are one; and the target was not seen with a
  -- deletion timestamp.
  pub one_live_controller :
      (i j : ℕ) (c d : Context)
      → get_elem? st.started i ≡ some c
      → get_elem? st.started j ≡ some d
      → c.cancelled ≡ false
      → d.cancelled ≡ false
      → c.key ≡ d.key
      → (c.id ≡ d.id) × (lookup c.key st.ctrl_cancels ≡ some c.id) × (contains gone c.key ≡ false)
  one_live_controller i j c d p q k l e =
      let inv = Reach-Inv services cfg reached in
      let (a, g) =
        live_entered st.ctrl_cancels gone c
          (IsTracked-get_elem? st.ctrl_cancels gone st.started i inv.tracked p) k in
      let (b, g') =
        live_entered st.ctrl_cancels gone d
          (IsTracked-get_elem? st.ctrl_cancels gone st.started j inv.tracked q) l in
      (some_inj (sym a ∙ (ap (λ key. lookup key st.ctrl_cancels) e ∙ b)), a, g)
