-- ===== src/Manifest/Order.antt =====
-- The order of sort.go: CRDs, APIExports, APIBindings, Namespaces, everything else.
use init_agent.Base.{
  ℕ, ◌≤◌, ◌≡◌, refl, Bool, Option, none, some, List, ◌++◌, arith, Text, ◌==◌, length, select,
  get_elem?, false, ◌⊎◌, inl, inr,
}
use init_agent.Go.Strings.{to_lower}
use init_agent.Go.Slices.{index, contains, IsIndexed, index_lem}
use init_agent.Go.Sort.{IsSorted, IsSort, count_if, max_insertion}
use init_agent.Go.Sort.Laws.{
  sort_func-IsSorted, sort_func-count_if, sort_func-five_parts, sort_func-rearranged_parts,
}
use init_agent.Remote.{Remote}
use init_agent.Manifest.{weights, or_last, object_weight, sort_objects_by_hierarchy}

module _ {Object E S Tpl : Type 0} (remote : Remote Object E S Tpl) where
  abbrev weight : Object → ℕ
  weight = object_weight remote

  pub object_weight-le : (obj : Object) → object_weight remote obj ≤ 4
  unfolding object_weight
  object_weight-le obj = ground arith

  abbrev pub lower_kind : Object → Text
  lower_kind obj = to_lower remote.unicode_to_lower (remote.group_kind obj)

  abbrev pub IsWeightOf : Text → ℕ → Type 0
  IsWeightOf kind w =
      (get_elem? weights w ≡ some kind) ⊎ ((w ≡ 4) × (contains weights kind ≡ false))

  or_last-IsWeightOf :
      (kind : Text) (found : Option ℕ)
      → IsIndexed weights kind found
      → IsWeightOf kind (or_last found)
  or_last-IsWeightOf kind none h = inr (refl, h)
  or_last-IsWeightOf kind (some i) h = inl h

  object_weight_lem : (obj : Object) → IsWeightOf (lower_kind obj) (object_weight remote obj)
  unfolding object_weight
  object_weight_lem obj =
      or_last-IsWeightOf (lower_kind obj) (index weights (lower_kind obj))
        (index_lem weights (lower_kind obj))

  -- The objects of one weight, in the order of the input.
  abbrev pub of_weight : ℕ → List Object → List Object
  of_weight k = select (λ x. object_weight remote x == k)

  -- With at most twelve objects, the result is the objects of each weight from 0 to 4, each group
  -- in the order of the input. The weight of an object is the place of its lower-case kind and group
  -- in the list of kinds that go first, or 4 if it is not in that list.
  pub sort_objects_by_hierarchy-groups :
      (objs : List Object)
      → length objs ≤ max_insertion
      → (sort_objects_by_hierarchy remote objs
          ≡ of_weight 0 objs
            ++ (of_weight 1 objs ++ (of_weight 2 objs ++ (of_weight 3 objs ++ of_weight 4 objs))))
        × ((obj : Object) → IsWeightOf (lower_kind obj) (object_weight remote obj))
  unfolding sort_objects_by_hierarchy
  sort_objects_by_hierarchy-groups objs h =
      (sort_func-five_parts weight remote.large_sort objs h object_weight-le, object_weight_lem)

  module _ (law : IsSort remote.large_sort) where
    pub sort_objects_by_hierarchy-IsSorted :
        (objs : List Object)
        → IsSorted (object_weight remote) (sort_objects_by_hierarchy remote objs)
          × ((p : Object → Bool)
              → count_if p (sort_objects_by_hierarchy remote objs) ≡ count_if p objs)
    unfolding sort_objects_by_hierarchy
    sort_objects_by_hierarchy-IsSorted objs = (
      sort_func-IsSorted weight remote.large_sort law objs,
      λ p. sort_func-count_if weight remote.large_sort law p objs,
    )

    -- With a library sort that sorts by the comparison that it is given: whatever the number of
    -- objects, the result is the groups of the weights from 0 to 4, one after the other, and each
    -- group is a rearrangement of the objects of that weight, since every test holds of as many
    -- objects of the one as of the other.
    pub sort_objects_by_hierarchy-parts :
        (objs : List Object)
        → let sorted = sort_objects_by_hierarchy remote objs in
          (sorted
            ≡ of_weight 0 sorted
              ++ (of_weight 1 sorted
                  ++ (of_weight 2 sorted ++ (of_weight 3 sorted ++ of_weight 4 sorted))))
          × ((k : ℕ) (p : Object → Bool)
              → count_if p (of_weight k sorted) ≡ count_if p (of_weight k objs))
    unfolding sort_objects_by_hierarchy
    sort_objects_by_hierarchy-parts objs =
        sort_func-rearranged_parts weight remote.large_sort law objs object_weight-le
