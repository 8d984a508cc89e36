-- ===== src/Sdk/DeepCopy/Laws.antt =====
-- A copy says the same as the original and shares no memory with it.
use init_agent.Base.{ℕ, ◌≡◌, refl, ap, ◌∙◌, subst, Option, none, some, List, length}
use init_agent.Sdk.Types.{WorkspaceTypeReference, TemplateInitSource}
use init_agent.Sdk.DeepCopy.{
  InitSourceCell, InitTargetSpecCell, Memory, array_at, InitTargetCell, sources_into,
  init_target_spec_into, init_target_into, init_target_deep_copy,
}
use init_agent.Sdk.DeepCopy.Reads.{set, IsFresh, Keeps-set, All-get_elem?}
use init_agent.Sdk.DeepCopy.Slices.{
  spec_said, IsWithin, ReachesTemplate, sources_said-Keeps, sources_into-SliceCopied,
}

module _ {H : Type 0} where
  -- The copy of a spec says what the original says, and the original says it also after a write
  -- to memory that the copy reaches.
  init_target_spec_into-independent :
      (spec : InitTargetSpecCell) (m : Memory H)
      → IsWithin m spec.sources
      → let (copy, m') = init_target_spec_into spec m in
        (spec_said m' copy ≡ spec_said m spec)
        × (spec_said m' spec ≡ spec_said m spec)
        × ((p : ℕ) (t : TemplateInitSource)
            → ReachesTemplate m' copy p
            → spec_said (record m' { templates = set m'.templates p t }) spec ≡ spec_said m spec)
        × ((a : ℕ) (sources : List InitSourceCell)
            → copy.sources ≡ some a
            → spec_said (record m' { arrays = set m'.arrays a sources }) spec ≡ spec_said m spec)
  unfolding init_target_spec_into sources_into
  init_target_spec_into-independent spec m h =
      let c = sources_into-SliceCopied spec.sources m h in
      let m' = (sources_into spec.sources m).1 in
      let reference = spec.workspace_type_reference in
      let original = sources_said-Keeps m spec.sources in
      (
        ap (λ l. (reference, l)) c.same,
        ap (λ l. (reference, l))
            (original m'.templates m'.arrays h c.keeps_templates c.keeps_arrays),
        λ p t (a, i, source, e, at, points).
            ap (λ l. (reference, l))
              (original (set m'.templates p t) m'.arrays h
                (Keeps-set m.templates m'.templates p t c.keeps_templates (
                  subst (IsFresh (length m.templates)) points
                    (All-get_elem? _ (array_at m'.arrays a) i (c.fresh_templates a e) at)))
                c.keeps_arrays),
        λ a sources e.
            ap (λ l. (reference, l))
              (original m'.templates (set m'.arrays a sources) h c.keeps_templates (
                Keeps-set m.arrays m'.arrays a sources c.keeps_arrays
                  (subst (IsFresh (length m.arrays)) e c.fresh_array))),
      )

  init_target_spec_into-library :
      (spec : InitTargetSpecCell) (m : Memory H)
      → IsWithin m spec.sources
      → (init_target_spec_into spec m).1.library ≡ m.library
  unfolding init_target_spec_into
  init_target_spec_into-library spec m h = (sources_into-SliceCopied spec.sources m h).library

-- What an InitTarget says, with `says` for what metadata say.
abbrev pub target_said :
    {M H A : Type 0}
    → (H → M → A)
    → Memory H
    → InitTargetCell M
    → A × (WorkspaceTypeReference × Option (List (Option TemplateInitSource)))
target_said says m target = (says m.library target.meta, spec_said m target.spec)

-- What DeepCopyInto of the metadata promises.
pub record IsMetaCopy {M H A : Type 0} (copy_meta : M → H → M × H) (says : H → M → A) : Type 0 where
  pub copy : (meta : M) (h : H) → says (copy_meta meta h).1 (copy_meta meta h).0 ≡ says h meta
  pub original : (meta : M) (h : H) → says (copy_meta meta h).1 meta ≡ says h meta

module _ {M H A : Type 0} (copy_meta : M → H → M × H) (says : H → M → A)
    (law : IsMetaCopy copy_meta says) where
  -- DeepCopy of a nil InitTarget is nil and does nothing. For an InitTarget whose addresses lie in
  -- the memory, and a DeepCopyInto of the metadata that copies what they say, it makes an
  -- InitTarget that says what the original says, and the original still says it; it keeps doing so
  -- after any write to a template or an array of sources that the copy reaches.
  pub init_target_deep_copy-independent :
      (target : InitTargetCell M) (m : Memory H)
      → IsWithin m target.spec.sources
      → (init_target_deep_copy copy_meta none m ≡ (none, m))
        × (copy : InitTargetCell M) × (m' : Memory H) × (init_target_deep_copy copy_meta
              (some target)
              m
            ≡ (some copy, m'))
        × (target_said says m' copy ≡ target_said says m target)
        × (target_said says m' target ≡ target_said says m target)
        × ((p : ℕ) (t : TemplateInitSource)
            → ReachesTemplate m' copy.spec p
            → target_said says (record m' { templates = set m'.templates p t }) target
              ≡ target_said says m target)
        × ((a : ℕ) (sources : List InitSourceCell)
            → copy.spec.sources ≡ some a
            → target_said says (record m' { arrays = set m'.arrays a sources }) target
              ≡ target_said says m target)
  unfolding init_target_deep_copy init_target_into
  init_target_deep_copy-independent target m h =
      let (meta, library) = copy_meta target.meta m.library in
      let begun : Memory H = record m { library = library } in
      let (spec, m') = init_target_spec_into target.spec begun in
      let kept = init_target_spec_into-library target.spec begun h in
      let (same, still, templates, arrays) =
        init_target_spec_into-independent target.spec begun h in
      let meta_same = ap (λ l. says l meta) kept ∙ law.copy target.meta m.library in
      let meta_still = ap (λ l. says l target.meta) kept ∙ law.original target.meta m.library in
      (
        refl,
        record { meta = meta; spec = spec },
        m',
        refl,
        λ i. (meta_same i, same i),
        λ i. (meta_still i, still i),
        λ p t reaches i. (meta_still i, templates p t reaches i),
        λ a sources e i. (meta_still i, arrays a sources e i),
      )
