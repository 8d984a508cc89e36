-- ===== src/Sdk/DeepCopy.antt =====
-- sdk/apis/initialization/v1alpha1/zz_generated.deepcopy.go: copies that share no memory. A pointer
-- and a slice are addresses, a nil one is `none`; an address outside the memory does not occur in
-- Go, and reads as the zero value here. `H` is the memory of library types, and `M` the structs
-- metav1.TypeMeta and ObjectMeta of an object, whose DeepCopyInto is the parameter `copy_meta`.
pub mod Reads
pub mod Elements
pub mod Slices
pub mod Laws
pub mod Items
pub mod Arrays
pub mod Within
pub mod Copies
pub mod Lists
use init_agent.Base.{ℕ, Option, none, some, List, [], ◌∷◌, ◌++◌, Text, length, get_elem?}
use init_agent.Sdk.Types.{WorkspaceTypeReference, TemplateInitSource, InitTemplateSpec}

pub record InitSourceCell : Type 0 where
  pub template : Option ℕ

pub record InitTargetSpecCell : Type 0 where
  pub workspace_type_reference : WorkspaceTypeReference
  pub sources : Option ℕ

pub record InitTargetCell (M : Type 0) : Type 0 where
  pub meta : M
  pub spec : InitTargetSpecCell

pub record InitTemplateCell (M : Type 0) : Type 0 where
  pub meta : M
  pub spec : InitTemplateSpec

-- The TemplateInitSources that pointers reach, and the arrays of InitSources behind slices.
pub record Memory (H : Type 0) : Type 0 where
  pub library : H
  pub templates : List TemplateInitSource
  pub arrays : List (List InitSourceCell)

abbrev pub or_zero : {A : Type 0} → A → Option A → A
or_zero z none = z
or_zero z (some a) = a

abbrev pub template_at : List TemplateInitSource → ℕ → TemplateInitSource
template_at templates p = or_zero (record { name = [] }) (get_elem? templates p)

abbrev pub array_at : List (List InitSourceCell) → ℕ → List InitSourceCell
array_at arrays a = or_zero [] (get_elem? arrays a)

-- `*out = *in` of a struct without pointers.
unfoldable pub template_init_source_into : TemplateInitSource → TemplateInitSource
template_init_source_into source = source

unfoldable pub workspace_type_reference_into : WorkspaceTypeReference → WorkspaceTypeReference
workspace_type_reference_into reference = reference

unfoldable pub init_template_spec_into : InitTemplateSpec → InitTemplateSpec
init_template_spec_into spec = spec

-- DeepCopy of each type, on a memory `W`: a nil pointer is copied to a nil pointer.
unfoldable pub deep_copy : {A W : Type 0} → (A → W → A × W) → Option A → W → Option A × W
deep_copy into none m = (none, m)
deep_copy into (some a) m = let (a', m') = into a m in (some a', m')

module _ {H : Type 0} where
  -- `*out = new(TemplateInitSource); **out = **in`, if the pointer is not nil.
  unfoldable pub template_into : Option ℕ → Memory H → Option ℕ × Memory H
  template_into none m = (none, m)
  template_into (some p) m = (
    some (length m.templates),
    record m { templates = m.templates ++ template_at m.templates p ∷ [] },
  )

  unfoldable pub init_source_into : InitSourceCell → Memory H → InitSourceCell × Memory H
  unfolding template_into
  init_source_into source m =
      let (template, m') = template_into source.template m in (record { template = template }, m')

  -- `for i := range *in { (*in)[i].DeepCopyInto(&(*out)[i]) }`
  unfoldable pub elements_into : List InitSourceCell → Memory H → List InitSourceCell × Memory H
  elements_into [] m = ([], m)
  elements_into (source ∷ sources) m =
      let (source', m') = init_source_into source m in
      let (sources', m'') = elements_into sources m' in (source' ∷ sources', m'')

  -- A new array, if the slice is not nil. The loop that fills it reads the old one alone.
  unfoldable pub sources_into : Option ℕ → Memory H → Option ℕ × Memory H
  unfolding elements_into
  sources_into none m = (none, m)
  sources_into (some a) m =
      let (sources, m') = elements_into (array_at m.arrays a) m in
      (some (length m'.arrays), record m' { arrays = m'.arrays ++ sources ∷ [] })

  unfoldable pub init_target_spec_into :
      InitTargetSpecCell → Memory H → InitTargetSpecCell × Memory H
  unfolding sources_into
  init_target_spec_into spec m =
      let (sources, m') = sources_into spec.sources m in (record spec { sources = sources }, m')

  unfoldable pub init_source_deep_copy :
      Option InitSourceCell → Memory H → Option InitSourceCell × Memory H
  unfolding deep_copy
  init_source_deep_copy = deep_copy init_source_into

  unfoldable pub init_target_spec_deep_copy :
      Option InitTargetSpecCell → Memory H → Option InitTargetSpecCell × Memory H
  unfolding deep_copy
  init_target_spec_deep_copy = deep_copy init_target_spec_into

  module _ {M : Type 0} (copy_meta : M → H → M × H) where
    unfoldable pub init_target_into : InitTargetCell M → Memory H → InitTargetCell M × Memory H
    unfolding init_target_spec_into
    init_target_into target m =
        let (meta, library) = copy_meta target.meta m.library in
        let (spec, m') = init_target_spec_into target.spec (record m { library = library }) in
        (record { meta = meta; spec = spec }, m')

    unfoldable pub init_target_deep_copy :
        Option (InitTargetCell M) → Memory H → Option (InitTargetCell M) × Memory H
    unfolding deep_copy
    init_target_deep_copy = deep_copy init_target_into

    unfoldable pub init_template_into :
        InitTemplateCell M → Memory H → InitTemplateCell M × Memory H
    unfolding init_template_spec_into
    init_template_into template m =
        let (meta, library) = copy_meta template.meta m.library in
        (
          record { meta = meta; spec = init_template_spec_into template.spec },
          record m { library = library },
        )

    unfoldable pub init_template_deep_copy :
        Option (InitTemplateCell M) → Memory H → Option (InitTemplateCell M) × Memory H
    unfolding deep_copy
    init_template_deep_copy = deep_copy init_template_into

  -- DeepCopy of the specs and references, which hold no pointers.
  unfoldable pub init_template_spec_deep_copy :
      Option InitTemplateSpec → Memory H → Option InitTemplateSpec × Memory H
  unfolding deep_copy init_template_spec_into
  init_template_spec_deep_copy = deep_copy (λ spec m. (init_template_spec_into spec, m))

  unfoldable pub template_init_source_deep_copy :
      Option TemplateInitSource → Memory H → Option TemplateInitSource × Memory H
  unfolding deep_copy template_init_source_into
  template_init_source_deep_copy = deep_copy (λ source m. (template_init_source_into source, m))

  unfoldable pub workspace_type_reference_deep_copy :
      Option WorkspaceTypeReference → Memory H → Option WorkspaceTypeReference × Memory H
  unfolding deep_copy workspace_type_reference_into
  workspace_type_reference_deep_copy =
      deep_copy (λ reference m. (workspace_type_reference_into reference, m))
