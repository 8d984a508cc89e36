-- ===== src/Go/Sort.antt =====
-- slices.SortFunc, with the comparison's int as an `Ordering`. Up to twelve elements it is the
-- insertion sort of the standard library; beyond, the documentation leaves the order of equal
-- elements open, and the routine is a parameter with the documented laws.
pub mod Laws
use init_agent.Base.{
  ℕ, zero, suc, ◌≤◌, ◌≡◌, Bool, List, [], ◌∷◌, reverse, compare, Ordering, leb, if◌then◌else◌,
  length, All,
}

unfoldable pub count_if {ℓ} : {A : Type ℓ} → (A → Bool) → List A → ℕ
count_if p [] = 0
count_if p (x ∷ xs) = let rest = count_if p xs in if p x then suc rest else rest

abbrev pub max_insertion : ℕ
max_insertion = 12

module _ {A : Type 0} where
  -- The inner loop: `x` moves down while it is less than its left neighbour. The sorted part
  -- stands with its last element first.
  insert_down : (A → A → Ordering) → A → List A → List A
  insert_down cmp x [] = x ∷ []
  insert_down cmp x (y ∷ ys) = elim (cmp x y) [
    | Ordering.lt ↦ y ∷ insert_down cmp x ys
    | _ ↦ x ∷ y ∷ ys
  ]

  -- The outer loop of insertionSortCmpFunc.
  insertion_from : (A → A → Ordering) → List A → List A → List A
  unfolding insert_down
  insertion_from cmp sorted [] = reverse sorted
  insertion_from cmp sorted (x ∷ xs) = insertion_from cmp (insert_down cmp x sorted) xs

  unfoldable pub insertion_sort : (A → A → Ordering) → List A → List A
  unfolding insertion_from
  insertion_sort cmp l = insertion_from cmp [] l

  abbrev pub by_key : (A → ℕ) → A → A → Ordering
  by_key key x y = compare (key x) (key y)

  -- Ascending by key.
  abbrev pub IsSorted : (A → ℕ) → List A → Type 0
  IsSorted key [] = Unit
  IsSorted key (x ∷ xs) = All (λ y. key x ≤ key y) xs × IsSorted key xs

  -- What the documentation promises of the routine for longer slices, for each comparison by a key:
  -- the result is a rearrangement (every test counts alike), ascending as the comparison says.
  pub record IsSort (sort : (A → A → Ordering) → List A → List A) : Type 0 where
    pub permutes :
        (key : A → ℕ) (p : A → Bool) (l : List A) → count_if p (sort (by_key key) l) ≡ count_if p l
    pub sorts : (key : A → ℕ) (l : List A) → IsSorted key (sort (by_key key) l)

  unfoldable pub sort_func :
      ((A → A → Ordering) → List A → List A) → (A → A → Ordering) → List A → List A
  unfolding insertion_sort
  sort_func large cmp l = if leb (length l) max_insertion then insertion_sort cmp l else large cmp l
