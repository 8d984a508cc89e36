-- ===== src/Go/Sort/Laws.antt =====
-- The insertion sort permutes, sorts by the key and keeps the order of equal elements.
use mathlib.Core.List.{reverse-cons}
use init_agent.Base.{
  ℕ, suc, ◌≤◌, ◌+◌, ◌≡◌, Ordering, ◌&&◌, refl, ◌∙◌, sym, ap, Bool, List, [], ◌∷◌, ◌++◌, reverse,
  append_assoc, arith, ◌≡⟨◌⟩◌, ◌∎, ◌==◌, leb, le→leb, append-nil, Bool-cases, inl, inr, length, All,
  select, select-append,
}
use init_agent.Go.Sort.{
  count_if, insert_down, insertion_from, insertion_sort, by_key, IsSorted, IsSort, sort_func,
  max_insertion,
}

-- Descending by key, as the sorted part stands in the loops.
module _ {A : Type 0} (key : A → ℕ) where
  abbrev IsFalling : List A → Type 0
  IsFalling [] = Unit
  IsFalling (x ∷ xs) = All (λ y. key y ≤ key x) xs × IsFalling xs

  All-insert_down :
      (k : ℕ) (x : A) (ys : List A)
      → key x ≤ k
      → All (λ y. key y ≤ k) ys
      → All (λ y. key y ≤ k) (insert_down (by_key key) x ys)
  unfolding insert_down
  All-insert_down k x [] h a = ground arith
  All-insert_down k x (y ∷ ys) h a = ground (arith, All-insert_down k x ys)

  All-le_trans : (k m : ℕ) (ys : List A) → k ≤ m → All (λ y. key y ≤ k) ys → All (λ y. key y ≤ m) ys
  All-le_trans k m [] h a = tt
  All-le_trans k m (y ∷ ys) h a = (omega arith, All-le_trans k m ys h a.1)

  insert_down-IsFalling :
      (x : A) (ys : List A) → IsFalling ys → IsFalling (insert_down (by_key key) x ys)
  unfolding insert_down
  insert_down-IsFalling x [] f = ground arith
  insert_down-IsFalling x (y ∷ ys) f = ground (
    arith,
    All-insert_down (key y) x ys,
    insert_down-IsFalling x ys,
    All-le_trans (key y) (key x) ys,
  )

  count_if-insert_down :
      (p : A → Bool) (x : A) (ys : List A)
      → count_if p (insert_down (by_key key) x ys) ≡ count_if p (x ∷ ys)
  unfolding insert_down count_if
  count_if-insert_down p x [] = refl
  count_if-insert_down p x (y ∷ ys) = ground (arith, count_if-insert_down p x ys)

  -- Among elements of one key, the inserted one comes first.
  select-insert_down :
      (k : ℕ) (x : A) (ys : List A)
      → select (λ y. key y == k) (insert_down (by_key key) x ys) ≡ select (λ y. key y == k) (x ∷ ys)
  unfolding insert_down select
  select-insert_down k x [] = refl
  select-insert_down k x (y ∷ ys) = ground (arith, select-insert_down k x ys)

  heads :
      (x : A) (xs acc : List A)
      → All (λ y. All (λ z. key z ≤ key y) (x ∷ xs)) acc
      → All (λ y. key x ≤ key y) acc
  heads x xs [] h = tt
  heads x xs (y ∷ acc) h = (h.0.0, heads x xs acc h.1)

  tails :
      (x : A) (xs acc : List A)
      → All (λ y. All (λ z. key z ≤ key y) (x ∷ xs)) acc
      → All (λ y. All (λ z. key z ≤ key y) xs) acc
  tails x xs [] h = tt
  tails x xs (y ∷ acc) h = (h.0.1, tails x xs acc h.1)

  IsSorted-reverse :
      (xs acc : List A)
      → IsFalling xs
      → IsSorted key acc
      → All (λ y. All (λ z. key z ≤ key y) xs) acc
      → IsSorted key (reverse xs ++ acc)
  IsSorted-reverse [] acc f s b = s
  IsSorted-reverse (x ∷ xs) acc f s b =
      rw (reverse-cons, append_assoc)
        (IsSorted-reverse xs (x ∷ acc) f.1 (heads x xs acc b, s) (f.0, tails x xs acc b))

  insertion_from-IsSorted :
      (sorted l : List A) → IsFalling sorted → IsSorted key (insertion_from (by_key key) sorted l)
  unfolding insertion_from
  insertion_from-IsSorted sorted [] f = rw append-nil at (IsSorted-reverse sorted [] f tt tt)
  insertion_from-IsSorted sorted (x ∷ l) f =
      insertion_from-IsSorted (insert_down (by_key key) x sorted) l
        (insert_down-IsFalling x sorted f)

  pub insertion_sort-IsSorted : (l : List A) → IsSorted key (insertion_sort (by_key key) l)
  unfolding insertion_sort
  insertion_sort-IsSorted l = insertion_from-IsSorted [] l tt

count_if-append {ℓ} :
    {A : Type ℓ} (p : A → Bool) (xs ys : List A)
    → count_if p (xs ++ ys) ≡ count_if p xs + count_if p ys
unfolding count_if
count_if-append p [] ys = omega arith
count_if-append p (x ∷ xs) ys = ground (arith, count_if-append p xs ys)

count_if-reverse {ℓ} :
    {A : Type ℓ} (p : A → Bool) (xs : List A) → count_if p (reverse xs) ≡ count_if p xs
unfolding count_if
count_if-reverse p [] = refl
count_if-reverse p (x ∷ xs) =
    rw (reverse-cons, count_if-append) (ground (arith, count_if-reverse p xs))

select-reverse {ℓ} :
    {A : Type ℓ} (p : A → Bool) (xs : List A) → select p (reverse xs) ≡ reverse (select p xs)
unfolding select
select-reverse p [] = refl
select-reverse p (x ∷ xs) =
    rw (reverse-cons, select-append)
      (ground (
        arith,
        select-reverse p xs,
        reverse-cons x (select p xs),
        append-nil (reverse (select p xs)),
      ))

module _ {A : Type 0} (key : A → ℕ) where
  insertion_from-count_if :
      (p : A → Bool) (sorted l : List A)
      → count_if p (insertion_from (by_key key) sorted l) ≡ count_if p sorted + count_if p l
  unfolding insertion_from count_if
  insertion_from-count_if p sorted [] = omega (arith, count_if-reverse p sorted)
  insertion_from-count_if p sorted (x ∷ l) = ground (
    arith,
    insertion_from-count_if p (insert_down (by_key key) x sorted) l,
    count_if-insert_down key p x sorted,
  )

  pub insertion_sort-count_if :
      (p : A → Bool) (l : List A) → count_if p (insertion_sort (by_key key) l) ≡ count_if p l
  unfolding insertion_sort count_if
  insertion_sort-count_if p l = omega (arith, insertion_from-count_if p [] l)

  insertion_from-select :
      (k : ℕ) (sorted l : List A)
      → select (λ y. key y == k) (insertion_from (by_key key) sorted l)
        ≡ reverse (select (λ y. key y == k) sorted) ++ select (λ y. key y == k) l
  unfolding insertion_from
  insertion_from-select k sorted [] =
      unfold select in rw (append-nil) (select-reverse (λ y. key y == k) sorted)
  insertion_from-select k sorted (x ∷ l) =
      rw (insertion_from-select k (insert_down (by_key key) x sorted) l) (
        rw (select-insert_down key k x sorted) (
          unfold select in
          ground (
            arith,
            reverse-cons x (select (λ y. key y == k) sorted),
            append_assoc (reverse (select (λ y. key y == k) sorted)) (x ∷ [])
                (select (λ y. key y == k) l),
          )))

  pub insertion_sort-select :
      (k : ℕ) (l : List A)
      → select (λ y. key y == k) (insertion_sort (by_key key) l) ≡ select (λ y. key y == k) l
  unfolding insertion_sort select
  insertion_sort-select k l = insertion_from-select k [] l

  module _ (large : (A → A → Ordering) → List A → List A) (law : IsSort large) where
    pub sort_func-IsSorted : (l : List A) → IsSorted key (sort_func large (by_key key) l)
    unfolding sort_func
    sort_func-IsSorted l = elim (Bool-cases (leb (length l) max_insertion)) [
      | inl short ↦ rw short (insertion_sort-IsSorted key l)
      | inr long ↦ rw long (law.sorts key l)
    ]

    pub sort_func-count_if :
        (p : A → Bool) (l : List A) → count_if p (sort_func large (by_key key) l) ≡ count_if p l
    unfolding sort_func
    sort_func-count_if p l = elim (Bool-cases (leb (length l) max_insertion)) [
      | inl short ↦ rw short (insertion_sort-count_if p l)
      | inr long ↦ rw long (law.permutes key p l)
    ]

  -- Up to twelve elements the order of equal elements is kept.
  pub sort_func-select :
      (large : (A → A → Ordering) → List A → List A) (k : ℕ) (l : List A)
      → length l ≤ max_insertion
      → select (λ y. key y == k) (sort_func large (by_key key) l) ≡ select (λ y. key y == k) l
  unfolding sort_func
  sort_func-select large k l h = rw (le→leb (length l) max_insertion h) (insertion_sort-select k l)

-- A sorted list is its parts by key, one after the other.
module _ {A : Type 0} (key : A → ℕ) where
  abbrev pub above : ℕ → List A → List A
  above k = select (λ x. leb k (key x))

  select-nil :
      (k : ℕ) (xs : List A) → All (λ y. suc k ≤ key y) xs → select (λ x. key x == k) xs ≡ []
  unfolding select
  select-nil k [] h = refl
  select-nil k (x ∷ xs) h = ground (arith, select-nil k xs)

  All-le : (k m : ℕ) (ys : List A) → k ≤ m → All (λ y. m ≤ key y) ys → All (λ y. k ≤ key y) ys
  All-le k m [] h a = tt
  All-le k m (y ∷ ys) h a = (omega arith, All-le k m ys h a.1)

  pub above-split :
      (k : ℕ) (l : List A)
      → IsSorted key l
      → above k l ≡ select (λ x. key x == k) l ++ above (suc k) l
  unfolding select
  above-split k [] s = refl
  above-split k (x ∷ xs) s =
      ground (arith, above-split k xs, All-le (suc k) (key x) xs, select-nil k xs)

  pub above-zero : (l : List A) → above 0 l ≡ l
  unfolding select
  above-zero [] = refl
  above-zero (x ∷ xs) = ground (arith, above-zero xs)

  pub above-nil : (k : ℕ) (l : List A) → ((x : A) → suc (key x) ≤ k) → above k l ≡ []
  unfolding select
  above-nil k [] h = refl
  above-nil k (x ∷ xs) h = ground (arith, h x, above-nil k xs h)

  abbrev part : ℕ → List A → List A
  part k = select (λ x. key x == k)

  pub five_parts :
      (l : List A)
      → IsSorted key l
      → ((x : A) → key x ≤ 4)
      → l ≡ part 0 l ++ (part 1 l ++ (part 2 l ++ (part 3 l ++ part 4 l)))
  five_parts l s h =
      l
      ≡⟨ sym (above-zero l) ∙ above-split 0 l s ⟩ part 0 l ++ above 1 l
      ≡⟨ ap (λ r. part 0 l ++ r) (above-split 1 l s) ⟩ part 0 l ++ (part 1 l ++ above 2 l)
      ≡⟨ ap (λ r. part 0 l ++ (part 1 l ++ r)) (above-split 2 l s) ⟩
        part 0 l ++ (part 1 l ++ (part 2 l ++ above 3 l))
      ≡⟨ ap (λ r. part 0 l ++ (part 1 l ++ (part 2 l ++ r))) (above-split 3 l s) ⟩
        part 0 l ++ (part 1 l ++ (part 2 l ++ (part 3 l ++ above 4 l)))
      ≡⟨ ap (λ r. part 0 l ++ (part 1 l ++ (part 2 l ++ (part 3 l ++ r)))) (last l s h) ⟩
        part 0 l ++ (part 1 l ++ (part 2 l ++ (part 3 l ++ part 4 l))) ∎
    where
      last : (l : List A) → IsSorted key l → ((x : A) → key x ≤ 4) → above 4 l ≡ part 4 l
      last l s h =
          above-split 4 l s
          ∙ (ap (λ r. part 4 l ++ r) (above-nil 5 l (λ x. omega (arith, h x)))
              ∙ append-nil (part 4 l))

  -- Up to twelve elements: the elements of each key from 0 to 4, in the order of the input.
  pub sort_func-five_parts :
      (large : (A → A → Ordering) → List A → List A) (l : List A)
      → length l ≤ max_insertion
      → ((x : A) → key x ≤ 4)
      → sort_func large (by_key key) l
        ≡ part 0 l ++ (part 1 l ++ (part 2 l ++ (part 3 l ++ part 4 l)))
  unfolding sort_func
  sort_func-five_parts large l short h = rw (le→leb (length l) max_insertion short) (
      five_parts (insertion_sort (by_key key) l) (insertion_sort-IsSorted key l) h
      ∙ simp (insertion_sort-select key))

  count_if-select :
      (p : A → Bool) (k : ℕ) (l : List A)
      → count_if p (part k l) ≡ count_if (λ x. p x && (key x == k)) l
  unfolding count_if select
  count_if-select p k [] = refl
  count_if-select p k (x ∷ xs) = ground (arith, count_if-select p k xs)

  -- Whatever the number of elements: the elements of each key from 0 to 4, one key after the other,
  -- where each group is a rearrangement of the elements with its key.
  pub sort_func-rearranged_parts :
      (large : (A → A → Ordering) → List A → List A)
      → IsSort large
      → (l : List A) → ((x : A) → key x ≤ 4)
      → let sorted = sort_func large (by_key key) l in
        (sorted
          ≡ part 0 sorted ++ (part 1 sorted ++ (part 2 sorted ++ (part 3 sorted ++ part 4 sorted))))
        × ((k : ℕ) (p : A → Bool) → count_if p (part k sorted) ≡ count_if p (part k l))
  sort_func-rearranged_parts large law l h =
      let sorted = sort_func large (by_key key) l in
      (
        five_parts sorted (sort_func-IsSorted key large law l) h,
        λ k p.
            count_if-select p k sorted
            ∙ sort_func-count_if key large law (λ x. p x && (key x == k)) l
            ∙ sym (count_if-select p k l),
      )
