-- ===== src/TargetController/Tracked.antt =====
-- What ties the entries of `ctrlCancels` to the contexts, and why every operation keeps it.
use init_agent.Base.{
  ℕ, ◌≡◌, refl, ap, suc, ◌≤◌, ==_iff, true, false, none, some, List, [], ◌∷◌, All, Text,
  text_eq_iff, ◌==◌, length, arith, inl, inr, Bool-cases,
}
use init_agent.Go.Slices.{contains}
use init_agent.Go.Maps.{Map, lookup, insert, delete, lookup-insert, lookup-delete}
use init_agent.TargetController.{Context, cancel}
use init_agent.TargetController.Events.{find, mark_reaped, cancel_all}

-- `gone` lists the keys of the targets that were seen with a deletion timestamp. A context whose
-- cleanup goroutine has not run is the one in the map, unless its target is gone; one that was
-- cleaned up, or whose target is gone, is cancelled.
pub record IsTracked (cancels : Map ℕ) (gone : List Text) (c : Context) : Type 0 where
  pub entered : c.reaped ≡ false → contains gone c.key ≡ false → lookup c.key cancels ≡ some c.id
  pub reaped_cancelled : c.reaped ≡ true → c.cancelled ≡ true
  pub gone_cancelled : contains gone c.key ≡ true → c.cancelled ≡ true

abbrev pub AllTracked : Map ℕ → List Text → List Context → Type 0
AllTracked cancels gone cs = All (IsTracked cancels gone) cs

-- Cancelling keeps the tie.
pub cancel-AllTracked :
    (id : ℕ) (cancels : Map ℕ) (gone : List Text) (cs : List Context)
    → AllTracked cancels gone cs
    → AllTracked cancels gone (cancel id cs)
unfolding cancel
cancel-AllTracked id cancels gone [] h = tt
cancel-AllTracked id cancels gone (c ∷ cs) h =
    (ground arith, cancel-AllTracked id cancels gone cs h.1)

pub cancel_all-AllTracked :
    (cancels : Map ℕ) (gone : List Text) (cs : List Context)
    → AllTracked cancels gone cs
    → AllTracked cancels gone (cancel_all cs)
unfolding cancel_all
cancel_all-AllTracked cancels gone [] h = tt
cancel_all-AllTracked cancels gone (c ∷ cs) h =
    (ground arith, cancel_all-AllTracked cancels gone cs h.1)

-- A new entry for a key without one: the contexts of that key are cleaned up already.
pub insert-AllTracked :
    (key : Text) (id : ℕ) (cancels : Map ℕ) (gone : List Text) (cs : List Context)
    → lookup key cancels ≡ none
    → AllTracked cancels gone cs
    → AllTracked (insert key id cancels) gone cs
insert-AllTracked key id cancels gone [] n h = tt
insert-AllTracked key id cancels gone (c ∷ cs) n h = (
  ground (arith, lookup-insert key c.key id cancels, text_eq_iff key c.key),
  insert-AllTracked key id cancels gone cs n h.1,
)

-- The removal of a target: its context is cancelled, its entry deleted.
pub retire-AllTracked :
    (key : Text) (id : ℕ) (cancels : Map ℕ) (gone : List Text) (cs : List Context)
    → lookup key cancels ≡ some id
    → AllTracked cancels gone cs
    → AllTracked (delete key cancels) (key ∷ gone) (cancel id cs)
unfolding cancel contains
retire-AllTracked key id cancels gone [] n h = tt
retire-AllTracked key id cancels gone (c ∷ cs) n h = (
  ground (arith, lookup-delete key c.key cancels, text_eq_iff key c.key),
  retire-AllTracked key id cancels gone cs n h.1,
)

-- The same where the map has no entry.
pub retire_absent-AllTracked :
    (key : Text) (cancels : Map ℕ) (gone : List Text) (cs : List Context)
    → lookup key cancels ≡ none
    → AllTracked cancels gone cs
    → AllTracked cancels (key ∷ gone) cs
unfolding contains
retire_absent-AllTracked key cancels gone [] n h = tt
retire_absent-AllTracked key cancels gone (c ∷ cs) n h =
    (ground (arith, text_eq_iff key c.key), retire_absent-AllTracked key cancels gone cs n h.1)

-- The cleanup goroutine of the context with this id and key, which is entered or gone.
pub reap-AllTracked :
    (key : Text) (id : ℕ) (cancels : Map ℕ) (gone : List Text) (cs : List Context)
    → (contains gone key ≡ false → lookup key cancels ≡ some id)
    → AllTracked cancels gone cs
    → All (λ c. c.id ≡ id → c.cancelled ≡ true) cs
    → AllTracked (delete key cancels) gone (mark_reaped id cs)
unfolding mark_reaped
reap-AllTracked key id cancels gone [] e h k = tt
reap-AllTracked key id cancels gone (c ∷ cs) e h k = (
  ground (arith, lookup-delete key c.key cancels, text_eq_iff key c.key),
  reap-AllTracked key id cancels gone cs e h.1 k.1,
)

-- The contexts are numbered in the order in which they were made.
abbrev pub IsNumbered : List Context → Type 0
IsNumbered [] = Unit
IsNumbered (c ∷ cs) = (c.id ≡ length cs) × IsNumbered cs

length-cancel : (id : ℕ) (cs : List Context) → length (cancel id cs) ≡ length cs
unfolding cancel
length-cancel id [] = refl
length-cancel id (c ∷ cs) = ap suc (length-cancel id cs)

pub cancel-IsNumbered : (id : ℕ) (cs : List Context) → IsNumbered cs → IsNumbered (cancel id cs)
unfolding cancel
cancel-IsNumbered id [] h = tt
cancel-IsNumbered id (c ∷ cs) h = (ground (arith, length-cancel id cs), cancel-IsNumbered id cs h.1)

length-cancel_all : (cs : List Context) → length (cancel_all cs) ≡ length cs
unfolding cancel_all
length-cancel_all [] = refl
length-cancel_all (c ∷ cs) = ap suc (length-cancel_all cs)

pub cancel_all-IsNumbered : (cs : List Context) → IsNumbered cs → IsNumbered (cancel_all cs)
unfolding cancel_all
cancel_all-IsNumbered [] h = tt
cancel_all-IsNumbered (c ∷ cs) h =
    (ground (arith, length-cancel_all cs), cancel_all-IsNumbered cs h.1)

length-mark_reaped : (id : ℕ) (cs : List Context) → length (mark_reaped id cs) ≡ length cs
unfolding mark_reaped
length-mark_reaped id [] = refl
length-mark_reaped id (c ∷ cs) = ap suc (length-mark_reaped id cs)

pub mark_reaped-IsNumbered :
    (id : ℕ) (cs : List Context) → IsNumbered cs → IsNumbered (mark_reaped id cs)
unfolding mark_reaped
mark_reaped-IsNumbered id [] h = tt
mark_reaped-IsNumbered id (c ∷ cs) h =
    (ground (arith, length-mark_reaped id cs), mark_reaped-IsNumbered id cs h.1)

below :
    (n : ℕ) (c₀ : Context) (cs : List Context)
    → IsNumbered cs
    → length cs ≤ n
    → All (λ c. c.id ≡ n → c ≡ c₀) cs
below n c₀ [] h l = tt
below n c₀ (c ∷ cs) h l = (λ e. absurd (omega arith), below n c₀ cs h.1 (omega arith))

-- The context that is found is the only one with its number.
pub find_lem :
    (id : ℕ) (cs : List Context) {c₀ : Context}
    → IsNumbered cs
    → find id cs ≡ some c₀
    → All (λ c. c.id ≡ id → c ≡ c₀) cs
unfolding find
find_lem id [] h e = tt
find_lem id (c ∷ cs) {c₀} h e = elim (Bool-cases (c.id == id)) [
  | inl same ↦ (λ p. ground arith, below id c₀ cs h.1 (omega (arith, h.0, (==_iff c.id id).0 same)))
  | inr other ↦ (λ p. absurd (ground arith), find_lem id cs h.1 (ground arith))
]
