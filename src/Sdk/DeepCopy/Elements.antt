-- ===== src/Sdk/DeepCopy/Elements.antt =====
-- The loop over the elements of a slice: it adds templates and changes nothing else.
use init_agent.Base.{
  ℕ, ◌≤◌, ◌≡◌, refl, sym, ap, ◌∙◌, subst, Option, none, some, List, [], ◌∷◌, ◌++◌, append_assoc,
  append-nil, map, All, arith, length, length-append,
}
use init_agent.Sdk.Types.{TemplateInitSource}
use init_agent.Sdk.DeepCopy.{
  InitSourceCell, Memory, or_zero, template_at, template_into, init_source_into, elements_into,
}
use init_agent.Sdk.DeepCopy.Reads.{
  get_elem?-snoc, said_by, source_said, IsBelow, IsFresh, IsKnown, Keeps-grown, le-grown,
  said_by-Keeps, map_said-Keeps,
}

IsBelow-le : (n k : ℕ) (template : Option ℕ) → n ≤ k → IsBelow n template → IsBelow k template
IsBelow-le n k none h f = tt
IsBelow-le n k (some p) h f = omega arith

IsFresh-le : (n k : ℕ) (template : Option ℕ) → n ≤ k → IsFresh k template → IsFresh n template
IsFresh-le n k none h f = tt
IsFresh-le n k (some p) h f = omega arith

All-IsFresh-le :
    (n k : ℕ) (sources : List InitSourceCell)
    → n ≤ k
    → All (λ s. IsFresh k s.template) sources
    → All (λ s. IsFresh n s.template) sources
All-IsFresh-le n k [] h f = tt
All-IsFresh-le n k (s ∷ sources) h f =
    (IsFresh-le n k s.template h f.0, All-IsFresh-le n k sources h f.1)

IsKnown-grow :
    (old more : List TemplateInitSource) (sources : List InitSourceCell)
    → All (IsKnown old) sources
    → All (IsKnown (old ++ more)) sources
IsKnown-grow old more [] h = tt
IsKnown-grow old more (s ∷ sources) h = (
  IsBelow-le (length old) (length (old ++ more)) s.template
      (omega (arith, length-append {0} old more)) h.0,
  IsKnown-grow old more sources h.1,
)

module _ {H : Type 0} where
  -- A pointer and its copy: templates were added, and nothing else; the copy says the same, and
  -- points to the added ones.
  record Copied (template : Option ℕ) (m : Memory H) (template' : Option ℕ) (m' : Memory H)
      : Type 0 where
    more : List TemplateInitSource
    grown : m'.templates ≡ m.templates ++ more
    arrays : m'.arrays ≡ m.arrays
    library : m'.library ≡ m.library
    same : said_by m'.templates template' ≡ said_by m.templates template
    fresh : IsFresh (length m.templates) template'
    known : IsBelow (length m'.templates) template'

  template_into-Copied :
      (template : Option ℕ) (m : Memory H)
      → Copied template m (template_into template m).0 (template_into template m).1
  unfolding template_into
  template_into-Copied none m = record {
    more = [];
    grown = sym (append-nil m.templates);
    arrays = refl;
    library = refl;
    same = refl;
    fresh = tt;
    known = tt;
  }
  template_into-Copied (some p) m = record {
    more = template_at m.templates p ∷ [];
    grown = refl;
    arrays = refl;
    library = refl;
    same =
        ap (λ o. some (or_zero (record { name = [] }) o))
          (get_elem?-snoc m.templates [] (template_at m.templates p));
    fresh = omega arith;
    known = omega (arith, length-append {0} m.templates (template_at m.templates p ∷ []));
  }

  pub record AllCopied (sources : List InitSourceCell) (m : Memory H)
      (sources' : List InitSourceCell) (m' : Memory H) : Type 0 where
    pub more : List TemplateInitSource
    pub grown : m'.templates ≡ m.templates ++ more
    pub arrays : m'.arrays ≡ m.arrays
    pub library : m'.library ≡ m.library
    pub same : map (source_said m'.templates) sources' ≡ map (source_said m.templates) sources
    pub fresh : All (λ s. IsFresh (length m.templates) s.template) sources'
    pub known : All (IsKnown m'.templates) sources'

  pub elements_into-AllCopied :
      (sources : List InitSourceCell) (m : Memory H)
      → All (IsKnown m.templates) sources
      → AllCopied sources m (elements_into sources m).0 (elements_into sources m).1
  unfolding elements_into init_source_into
  elements_into-AllCopied [] m h = record {
    more = [];
    grown = sym (append-nil m.templates);
    arrays = refl;
    library = refl;
    same = refl;
    fresh = tt;
    known = tt;
  }
  elements_into-AllCopied (source ∷ sources) m h =
      let c = template_into-Copied source.template m in
      let m' = (template_into source.template m).1 in
      let template' = (template_into source.template m).0 in
      let rest = elements_into-AllCopied sources m' (
        subst (λ l. All (IsKnown l) sources) (sym c.grown)
          (IsKnown-grow m.templates c.more sources h.1)) in
      let m'' = (elements_into sources m').1 in
      record {
        more = c.more ++ rest.more;
        grown =
            rest.grown
            ∙ (ap (λ l. l ++ rest.more) c.grown ∙ append_assoc m.templates c.more rest.more);
        arrays = rest.arrays ∙ c.arrays;
        library = rest.library ∙ c.library;
        same = cc (
          said_by-Keeps m'.templates m''.templates template'
              (Keeps-grown m'.templates rest.more m''.templates rest.grown) c.known,
          c.same,
          rest.same,
          map_said-Keeps m.templates m'.templates sources
              (Keeps-grown m.templates c.more m'.templates c.grown) h.1,
        );
        fresh = (
          c.fresh,
          All-IsFresh-le (length m.templates) (length m'.templates) (elements_into sources m').0
              (le-grown m.templates c.more m'.templates c.grown) rest.fresh,
        );
        known = (
          IsBelow-le (length m'.templates) (length m''.templates) template'
              (le-grown m'.templates rest.more m''.templates rest.grown) c.known,
          rest.known,
        );
      }
