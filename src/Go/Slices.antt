-- ===== src/Go/Slices.antt =====
-- slices.Index, slices.Contains and slices.DeleteFunc, over texts where the agent calls them so.
use init_agent.Base.{
  ℕ, suc, ◌≤◌, ◌≡◌, refl, Bool, true, false, ◌||◌, Option, none, some, List, [], ◌∷◌, arith, Text,
  text_eq, text_eq_iff, if◌then◌else◌, length, get_elem?,
}

-- slices.Index: the position of the first occurrence, `none` for -1.
unfoldable pub index : List Text → Text → Option ℕ
index [] v = none
index (x ∷ xs) v =
    let rest = index xs v in
    if text_eq x v then some 0 else elim rest [ none ↦ none | some i ↦ some (suc i) ]

unfoldable pub contains : List Text → Text → Bool
contains [] v = false
contains (x ∷ xs) v = text_eq x v || contains xs v

-- slices.DeleteFunc: what stays, in order.
unfoldable pub delete_func {ℓ} : {A : Type ℓ} → (A → Bool) → List A → List A
delete_func del [] = []
delete_func del (x ∷ xs) = let rest = delete_func del xs in if del x then rest else x ∷ rest

pub length-delete_func-le {ℓ} :
    {A : Type ℓ} (del : A → Bool) (xs : List A) → length (delete_func del xs) ≤ length xs
unfolding delete_func
length-delete_func-le del [] = omega arith
length-delete_func-le del (x ∷ xs) = ground (arith, length-delete_func-le del xs)

-- Nothing goes exactly when nothing is to be deleted: the lengths tell.
pub contains-delete_func :
    (v : Text) (xs : List Text) → contains (delete_func (λ x. text_eq x v) xs) v ≡ false
unfolding contains delete_func
contains-delete_func v [] = refl
contains-delete_func v (x ∷ xs) = ground (arith, contains-delete_func v xs)

pub contains-delete_func_other :
    (v u : Text) (xs : List Text)
    → text_eq u v ≡ false
    → contains (delete_func (λ x. text_eq x v) xs) u ≡ contains xs u
unfolding contains delete_func
contains-delete_func_other v u [] h = refl
contains-delete_func_other v u (x ∷ xs) h =
    ground (
      arith,
      contains-delete_func_other v u xs h,
      text_eq_iff x u,
      text_eq_iff x v,
      text_eq_iff u v,
    )

pub delete_func-shorter :
    (v : Text) (xs : List Text)
    → contains xs v ≡ true
    → suc (length (delete_func (λ x. text_eq x v) xs)) ≤ length xs
unfolding contains delete_func
delete_func-shorter v [] h = ground arith
delete_func-shorter v (x ∷ xs) h =
    ground (arith, delete_func-shorter v xs, length-delete_func-le (λ y. text_eq y v) xs)

pub delete_func-absent :
    (v : Text) (xs : List Text) → contains xs v ≡ false → delete_func (λ x. text_eq x v) xs ≡ xs
unfolding contains delete_func
delete_func-absent v [] h = refl
delete_func-absent v (x ∷ xs) h = ground (arith, delete_func-absent v xs)

abbrev pub IsIndexed : List Text → Text → Option ℕ → Type 0
IsIndexed xs v none = contains xs v ≡ false
IsIndexed xs v (some i) = get_elem? xs i ≡ some v

-- A position that is returned holds the value; none is returned if the value is absent.
pub index_lem : (xs : List Text) (v : Text) → IsIndexed xs v (index xs v)
unfolding index contains
index_lem [] v = refl
index_lem (x ∷ xs) v = ground (arith, index_lem xs v, text_eq_iff x v)
