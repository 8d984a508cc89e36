-- ===== src/Sdk/DeepCopy/Slices.antt =====
-- The copy of a slice of InitSources.
use init_agent.Base.{
  ℕ, ◌<◌, ◌≡◌, refl, sym, ap, ◌∙◌, subst, Option, none, some, List, [], ◌∷◌, ◌++◌, map, All, arith,
  length, get_elem?, length-append,
}
use init_agent.Sdk.Types.{WorkspaceTypeReference, TemplateInitSource}
use init_agent.Sdk.DeepCopy.{
  InitSourceCell, InitTargetSpecCell, Memory, or_zero, array_at, elements_into, sources_into,
}
use init_agent.Sdk.DeepCopy.Reads.{
  get_elem?-snoc, source_said, IsFresh, IsKnown, Keeps, Keeps-grown, some_inj, map_said-Keeps,
}
use init_agent.Sdk.DeepCopy.Elements.{elements_into-AllCopied}

-- What the spec of an InitTarget says: its reference, and its sources unless their slice is nil.
abbrev pub sources_said :
    List TemplateInitSource
    → List (List InitSourceCell)
    → Option ℕ
    → Option (List (Option TemplateInitSource))
sources_said templates arrays none = none
sources_said templates arrays (some a) = some (map (source_said templates) (array_at arrays a))

abbrev pub spec_said :
    {H : Type 0}
    → Memory H
    → InitTargetSpecCell
    → WorkspaceTypeReference × Option (List (Option TemplateInitSource))
spec_said m spec = (spec.workspace_type_reference, sources_said m.templates m.arrays spec.sources)

-- The addresses of a spec lie in the memory.
abbrev pub IsWithin : {H : Type 0} → Memory H → Option ℕ → Type 0
IsWithin m none = Unit
IsWithin m (some a) = (a < length m.arrays) × All (IsKnown m.templates) (array_at m.arrays a)

-- The addresses that a spec reaches: of its array, and of a template that an element points to.
abbrev pub ReachesTemplate : {H : Type 0} → Memory H → InitTargetSpecCell → ℕ → Type 0
ReachesTemplate m spec p =
    (a : ℕ) × (i : ℕ) × (source : InitSourceCell) × (spec.sources ≡ some a)
    × (get_elem? (array_at m.arrays a) i ≡ some source)
    × (source.template ≡ some p)

-- Memory that keeps what it held keeps what a slice in it says.
pub sources_said-Keeps :
    {H : Type 0} (m : Memory H) (slice : Option ℕ) (templates : List TemplateInitSource)
    (arrays : List (List InitSourceCell))
    → IsWithin m slice
    → Keeps m.templates templates
    → Keeps m.arrays arrays
    → sources_said templates arrays slice ≡ sources_said m.templates m.arrays slice
sources_said-Keeps m none templates arrays h k l = refl
sources_said-Keeps m (some a) templates arrays h k l =
    ap (λ o. some (map (source_said templates) (or_zero [] o))) (l a h.0)
    ∙ ap some (map_said-Keeps m.templates templates (array_at m.arrays a) k h.1)

-- What the copy of a slice leaves behind.
pub record SliceCopied {H : Type 0} (m : Memory H) (slice slice' : Option ℕ) (m' : Memory H)
    : Type 0 where
  pub same : sources_said m'.templates m'.arrays slice' ≡ sources_said m.templates m.arrays slice
  pub library : m'.library ≡ m.library
  pub keeps_templates : Keeps m.templates m'.templates
  pub keeps_arrays : Keeps m.arrays m'.arrays
  pub fresh_array : IsFresh (length m.arrays) slice'
  pub fresh_templates :
      (a : ℕ)
      → slice' ≡ some a
      → All (λ s. IsFresh (length m.templates) s.template) (array_at m'.arrays a)
  pub within : IsWithin m' slice'

pub sources_into-SliceCopied :
    {H : Type 0} (slice : Option ℕ) (m : Memory H)
    → IsWithin m slice
    → SliceCopied m slice (sources_into slice m).0 (sources_into slice m).1
unfolding sources_into
sources_into-SliceCopied none m h = record {
  same = refl;
  library = refl;
  keeps_templates = λ p l. refl;
  keeps_arrays = λ p l. refl;
  fresh_array = tt;
  fresh_templates = λ a e. cc;
  within = tt;
}
sources_into-SliceCopied (some a) m h =
    let c = elements_into-AllCopied (array_at m.arrays a) m h.1 in
    let u = (elements_into (array_at m.arrays a) m).1 in
    let cells = (elements_into (array_at m.arrays a) m).0 in
    let last = ap (or_zero []) (get_elem?-snoc u.arrays [] cells) in
    record {
      same = ap (λ l. some (map (source_said u.templates) l)) last ∙ ap some c.same;
      library = c.library;
      keeps_templates = Keeps-grown m.templates c.more u.templates c.grown;
      keeps_arrays =
          Keeps-grown m.arrays (cells ∷ []) (u.arrays ++ cells ∷ [])
            (ap (λ l. l ++ cells ∷ []) c.arrays);
      fresh_array = omega (arith, ap length c.arrays);
      fresh_templates = λ b e.
          subst
            (λ k.
              All (λ s. IsFresh (length m.templates) s.template)
                (array_at (u.arrays ++ cells ∷ []) k))
            (some_inj e)
            (subst (All (λ s. IsFresh (length m.templates) s.template)) (sym last) c.fresh);
      within = (
        omega (arith, length-append {0} u.arrays (cells ∷ [])),
        subst (All (IsKnown u.templates)) (sym last) c.known,
      );
    }
