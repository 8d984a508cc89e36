-- ===== src/Examples/Generated.antt =====
-- A copy of an InitTarget with two sources, and an informer that is asked for twice.
use mathlib.Core.Option
use init_agent.Base.{
  ℕ, suc, ◌≡◌, refl, Option, none, some, List, [], ◌∷◌, Text, codes, arith, false,
}
use init_agent.Sdk.Types.{TemplateInitSource}
use init_agent.Sdk.Informers.{SharedInformerFactory}
use init_agent.Sdk.Informers.History.{Call, started, returned, asked, after}
use init_agent.Sdk.DeepCopy.{
  Memory, InitSourceCell, InitTargetCell, InitTemplateCell, init_target_deep_copy,
}
use init_agent.Sdk.DeepCopy.Lists.{
  ListCell, ListMemory, init_target_list_deep_copy, init_template_list_deep_copy,
}
use init_agent.Sdk.DeepCopy.Arrays.{ListCopied}
use init_agent.Sdk.DeepCopy.Copies.{
  IsMetaLibrary, template_said, TargetWrote, TemplateWrote, lists-ListCopied,
}
use init_agent.Sdk.DeepCopy.Reads.{set}
use init_agent.Sdk.DeepCopy.Slices.{ReachesTemplate}
use init_agent.Sdk.DeepCopy.Laws.{IsMetaCopy, target_said, init_target_deep_copy-independent}
use init_agent.Sdk.Typed.{InformerLibrary}
use init_agent.Sdk.Typed.Resources.{
  with_resource, for_resource, cluster_for_resource, generic_cluster, generic,
}
use init_agent.Sdk.Typed.Targets
use init_agent.Sdk.Typed.Templates
use init_agent.Sdk.Typed.Laws.{for_resource-after}

-- The metadata are a text, and library memory counts their copies.
abbrev copy_meta : Text → ℕ → Text × ℕ
copy_meta meta copies = (meta, suc copies)

abbrev says : ℕ → Text → Text
says copies meta = meta

copy_meta-IsMetaCopy : IsMetaCopy copy_meta says
copy_meta-IsMetaCopy = record { copy = λ meta h. refl; original = λ meta h. refl }

abbrev memory : Memory ℕ
memory = record {
  library = 0;
  templates = record { name = codes "base" } ∷ [];
  arrays = (record { template = some 0 } ∷ record { template = none } ∷ []) ∷ [];
}

abbrev cell : InitTargetCell Text
cell = record {
  meta = codes "prod";
  spec = record {
    workspace_type_reference = record { path = []; name = codes "team" };
    sources = some 0;
  };
}

init_target_deep_copy-independent_example :
    (init_target_deep_copy copy_meta none memory ≡ (none, memory))
    × (copy : InitTargetCell Text) × (m' : Memory ℕ) × (init_target_deep_copy copy_meta
          (some cell)
          memory
        ≡ (some copy, m'))
    × (target_said says m' copy ≡ target_said says memory cell)
    × (target_said says m' cell ≡ target_said says memory cell)
    × ((p : ℕ) (t : TemplateInitSource)
        → ReachesTemplate m' copy.spec p
        → target_said says (record m' { templates = set m'.templates p t }) cell
          ≡ target_said says memory cell)
    × ((a : ℕ) (sources : List InitSourceCell)
        → copy.spec.sources ≡ some a
        → target_said says (record m' { arrays = set m'.arrays a sources }) cell
          ≡ target_said says memory cell)
init_target_deep_copy-independent_example =
    init_target_deep_copy-independent copy_meta says copy_meta-IsMetaCopy cell memory
      (omega arith, (omega arith, (tt, tt)))

-- Metadata are texts, which no write reaches.
abbrev Wrote : ℕ → Text → ℕ → Type 0
Wrote h meta h' = Unit

copies-IsMetaLibrary :
    IsMetaLibrary copy_meta copy_meta
      (λ h meta. Unit {0})
      says
      (λ h meta. Unit {0})
      says
      (λ h h'. Unit {0})
      Wrote
copies-IsMetaLibrary = record {
  copied = λ x h l. (refl, tt);
  list_copied = λ l h k. (refl, tt);
  grows = λ x h l. tt;
  list_grows = λ l h k. tt;
  unchanged = λ h. tt;
  after = λ h h₁ h₂ k l. tt;
  kept = λ h h₁ k x l. (refl, tt);
  lists_kept = λ h h₁ k x l. (refl, tt);
  apart = λ x h h₂ h₃ l k w. (λ y o. refl, λ y o. refl);
}

abbrev targets_memory : ListMemory ℕ (InitTargetCell Text)
targets_memory = record { memory = memory; arrays = (cell ∷ cell ∷ []) ∷ [] }

abbrev templates_memory : ListMemory ℕ (InitTemplateCell Text)
templates_memory = record { memory = memory; arrays = [] }

abbrev one_array : ListCell Text
one_array = record { meta = codes "page"; items = some 0 }

abbrev no_array : ListCell Text
no_array = record { meta = codes "page"; items = none }

lists-ListCopied_example :
    ListCopied
      (init_target_list_deep_copy copy_meta copy_meta)
      (target_said says)
      says
      (TargetWrote Wrote)
      one_array
      targets_memory
    × ListCopied
        (init_template_list_deep_copy copy_meta copy_meta)
        (template_said says)
        says
        (TemplateWrote Wrote)
        no_array
        templates_memory
lists-ListCopied_example =
    lists-ListCopied copy_meta copy_meta (λ h meta. Unit {0}) says (λ h meta. Unit {0}) says
      (λ h h'. Unit {0}) Wrote copies-IsMetaLibrary one_array targets_memory no_array
      templates_memory tt (omega arith) tt tt

-- An informer is the type of its objects and its resync period; the options are a text.
abbrev library : InformerLibrary ℕ (Text × ℕ) (Text × (Text × ℕ)) (Text × ℕ) ℕ Text Text
library = record {
  list = λ resource client options. options;
  watch = λ resource client options. options;
  new_shared_index_informer = λ lw type resync indexers. (type, resync);
  get_indexer = λ i. i;
  scoped_to = λ name i. (name, i);
}

abbrev no_tweak : Option (Text → Text)
no_tweak = none

abbrev factory : SharedInformerFactory ℕ (Text × ℕ) ℕ (Text → Text) ℕ
factory = record {
  client = 1;
  tweak_list_options = no_tweak;
  default_resync = 30;
  custom_resync = [];
  transform = none;
  informers = [];
  started_informers = [];
  wg = 0;
  shutting_down = false;
  runs = [];
}

abbrev calls : List (Call ℕ (Text × ℕ) ℕ)
calls = started ∷ asked Targets.type (λ client resync. (codes "other", resync)) ∷ returned ∷ []

for_resource-after_example :
    let gvr = with_resource Targets.resource in
    let (found, f') = for_resource library gvr factory in
    let later = after calls f' in
    let (target, g) = Targets.informer library no_tweak factory in
    let (template, h) = Templates.informer library no_tweak factory in
    (for_resource library gvr later ≡ (found, later))
    × (cluster_for_resource library (codes "root") gvr later
        ≡ (Option.map (generic_cluster library (codes "root")) found, later))
    × (for_resource library (with_resource Targets.resource) (after calls g)
        ≡ generic (with_resource Targets.resource) (target, after calls g))
    × (for_resource library (with_resource Templates.resource) (after calls h)
        ≡ generic (with_resource Templates.resource) (template, after calls h))
for_resource-after_example =
    for_resource-after library (with_resource Targets.resource) (codes "root") no_tweak calls
      factory
