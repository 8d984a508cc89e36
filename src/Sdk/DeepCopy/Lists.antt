-- ===== src/Sdk/DeepCopy/Lists.antt =====
-- The lists of zz_generated.deepcopy.go and DeepCopyObject. An InitTargetList and an
-- InitTemplateList differ in their items: `X` stands for the structs, and a list holds the address
-- of an array of them. `L` stands for the structs metav1.TypeMeta and ListMeta.
use init_agent.Base.{ℕ, Option, none, some, List, [], ◌∷◌, ◌++◌, length, get_elem?}
use init_agent.Sdk.DeepCopy.{
  Memory, InitTargetCell, InitTemplateCell, or_zero, deep_copy, init_target_into,
  init_template_into, init_target_deep_copy, init_template_deep_copy,
}

pub record ListCell (L : Type 0) : Type 0 where
  pub meta : L
  pub items : Option ℕ

-- The memory with the arrays behind the slices of items.
pub record ListMemory (H X : Type 0) : Type 0 where
  pub memory : Memory H
  pub arrays : List (List X)

module _ {H X : Type 0} (item_into : X → Memory H → X × Memory H) where
  -- `for i := range *in { (*in)[i].DeepCopyInto(&(*out)[i]) }`
  unfoldable pub items_into : List X → Memory H → List X × Memory H
  items_into [] m = ([], m)
  items_into (item ∷ items) m =
      let (item', m') = item_into item m in
      let (items', m'') = items_into items m' in (item' ∷ items', m'')

  -- A new array, if the slice is not nil.
  unfoldable pub array_into : Option ℕ → ListMemory H X → Option ℕ × ListMemory H X
  unfolding items_into
  array_into none m = (none, m)
  array_into (some a) m =
      let (items, memory) = items_into (or_zero [] (get_elem? m.arrays a)) m.memory in
      (some (length m.arrays), record { memory = memory; arrays = m.arrays ++ items ∷ [] })

  -- DeepCopyInto of a list; `copy_list_meta` is that of its metadata.
  unfoldable pub list_into :
      {L : Type 0} → (L → H → L × H) → ListCell L → ListMemory H X → ListCell L × ListMemory H X
  unfolding array_into
  list_into copy_list_meta list m =
      let (meta, library) = copy_list_meta list.meta m.memory.library in
      let (items, m') =
        array_into list.items (record m { memory = record m.memory { library = library } }) in
      (record { meta = meta; items = items }, m')

-- `if c := in.DeepCopy(); c != nil { return c }; return nil`: a nil pointer becomes a nil object.
unfoldable pub deep_copy_object :
    {A W : Type 0} → (Option A → W → Option A × W) → Option A → W → Option A × W
deep_copy_object copy a w =
    let (copied, w') = copy a w in elim copied [ none ↦ (none, w') | some c ↦ (some c, w') ]

module _ {H M L : Type 0} (copy_meta : M → H → M × H) (copy_list_meta : L → H → L × H) where
  unfoldable pub init_target_list_into :
      ListCell L → ListMemory H (InitTargetCell M) → ListCell L × ListMemory H (InitTargetCell M)
  unfolding list_into
  init_target_list_into = list_into (init_target_into copy_meta) copy_list_meta

  unfoldable pub init_target_list_deep_copy :
      Option (ListCell L)
      → ListMemory H (InitTargetCell M)
      → Option (ListCell L) × ListMemory H (InitTargetCell M)
  unfolding deep_copy init_target_list_into
  init_target_list_deep_copy = deep_copy init_target_list_into

  unfoldable pub init_template_list_into :
      ListCell L
      → ListMemory H (InitTemplateCell M)
      → ListCell L × ListMemory H (InitTemplateCell M)
  unfolding list_into
  init_template_list_into = list_into (init_template_into copy_meta) copy_list_meta

  unfoldable pub init_template_list_deep_copy :
      Option (ListCell L)
      → ListMemory H (InitTemplateCell M)
      → Option (ListCell L) × ListMemory H (InitTemplateCell M)
  unfolding deep_copy init_template_list_into
  init_template_list_deep_copy = deep_copy init_template_list_into

  -- DeepCopyObject of the two lists.
  unfoldable pub init_target_list_deep_copy_object :
      Option (ListCell L)
      → ListMemory H (InitTargetCell M)
      → Option (ListCell L) × ListMemory H (InitTargetCell M)
  unfolding deep_copy_object init_target_list_deep_copy
  init_target_list_deep_copy_object = deep_copy_object init_target_list_deep_copy

  unfoldable pub init_template_list_deep_copy_object :
      Option (ListCell L)
      → ListMemory H (InitTemplateCell M)
      → Option (ListCell L) × ListMemory H (InitTemplateCell M)
  unfolding deep_copy_object init_template_list_deep_copy
  init_template_list_deep_copy_object = deep_copy_object init_template_list_deep_copy

module _ {H M : Type 0} (copy_meta : M → H → M × H) where
  -- DeepCopyObject of the two types.
  unfoldable pub init_target_deep_copy_object :
      Option (InitTargetCell M) → Memory H → Option (InitTargetCell M) × Memory H
  unfolding deep_copy_object
  init_target_deep_copy_object = deep_copy_object (init_target_deep_copy copy_meta)

  unfoldable pub init_template_deep_copy_object :
      Option (InitTemplateCell M) → Memory H → Option (InitTemplateCell M) × Memory H
  unfolding deep_copy_object
  init_template_deep_copy_object = deep_copy_object (init_template_deep_copy copy_meta)
