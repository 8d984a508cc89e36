-- ===== src/Examples/Sdk.antt =====
-- Informer factories with one informer, and the builders.
use init_agent.Base.{
  ℕ, ◌≡◌, ◌≤◌, ◌↔◌, refl, true, false, none, some, [], ◌∷◌, ◌++◌, List, Text, codes, length, map,
}
use init_agent.Go.Maps.{Map, lookup}
use init_agent.Sdk.Informers.{
  SharedInformerFactory, SharedInformerOption, with_namespace, with_transform, start, shutdown,
  shutdown_returns, or_default, apply_options, no_options, wait_for_cache_sync,
  new_shared_informer_factory_with_options, informer_for,
}
use init_agent.Sdk.Informers.Scoped.{
  new_shared_scoped_informer_factory_with_options, scoped_informer_for, scoped_start,
  scoped_wait_for_cache_sync,
}
use init_agent.Sdk.Informers.Laws.{AllStarted, is_started}
use init_agent.Sdk.Informers.History.{
  Call, started, returned, asked, after, runs_of, one_if, runs_once,
}
use init_agent.Sdk.Informers.Stopped.{returns, shutdown-returns}
use init_agent.Sdk.Informers.Agree.{
  Use, starts, asks, shared_after, scoped_after, scoped, factories_agree,
}
use init_agent.Sdk.Informers.Transform.{transform_ignored}
use init_agent.Sdk.ApplyConfiguration.{
  InitTargetApplyConfiguration, InitSourceApplyConfiguration, InitTargetSpecApplyConfiguration,
  with_labels, with_sources, ensured,
}
use init_agent.Sdk.ApplyConfiguration.Laws.{or_else, entries_of, with_labels_lem}
use init_agent.Sdk.TemplateConfiguration.{
  InitTemplateApplyConfiguration, init_template, with_owner_references, get_name,
}
use init_agent.Sdk.TemplateConfiguration.Laws.{with_values_lem}

abbrev Factory : Type 0
Factory = SharedInformerFactory ℕ ℕ ℕ ℕ ℕ

abbrev targets : Text
targets = codes "InitTarget"

abbrev add_numbers : ℕ → ℕ → ℕ
add_numbers client resync = client

abbrev options : List (SharedInformerOption ℕ ℕ ℕ)
options = with_namespace targets ∷ []

abbrev new_factory : Factory
new_factory = record {
  client = 1;
  tweak_list_options = none;
  default_resync = 30;
  custom_resync = [];
  transform = none;
  informers = (targets, 9) ∷ [];
  started_informers = [];
  wg = 0;
  shutting_down = false;
  runs = [];
}

abbrev calls : List (Call ℕ ℕ ℕ)
calls = asked targets add_numbers ∷ started ∷ started ∷ returned ∷ []

abbrev uses : List (Use ℕ ℕ ℕ)
uses = asks targets add_numbers ∷ starts ∷ []

factories_agree_example :
    let f : Factory = shared_after uses (new_shared_informer_factory_with_options 1 30 options) in
    let g =
      scoped_after
        (λ x i. i)
        uses
        (new_shared_scoped_informer_factory_with_options {X = ℕ} 1 30 options) in
    (g ≡ scoped (apply_options options no_options).namespace f)
    × ((scoped_informer_for (λ x i. i) targets add_numbers g).0
        ≡ (informer_for targets add_numbers f).0)
    × (scoped_wait_for_cache_sync (λ i. true) g ≡ wait_for_cache_sync (λ i. true) f)
    × AllStarted f.informers (start f)
    × (start (start f) ≡ start f)
    × (scoped_start (scoped_start g) ≡ scoped_start g)
factories_agree_example =
    factories_agree 1 30 options (λ x i. i) (λ i. refl) uses (λ i. true) targets add_numbers

runs_once_example :
    let f : Factory = after calls (new_shared_informer_factory_with_options 1 30 options) in
    (runs_of targets f.runs ≡ one_if (is_started targets f)) × (f.wg ≤ length f.runs)
runs_once_example = runs_once 1 30 options calls targets

shutdown-returns_example :
    let f : Factory = start (informer_for targets add_numbers new_factory).1 in
    let f' : Factory = after (returned ∷ []) (shutdown f) in
    (f'.runs ≡ f.runs)
    × ((shutdown_returns f' ≡ true) ↔ (f.wg ≤ returns {C = ℕ} {I = ℕ} {D = ℕ} (returned ∷ [])))
shutdown-returns_example =
    shutdown-returns (returned ∷ []) (start (informer_for targets add_numbers new_factory).1)

transform_ignored_example :
    let with_it = options ++ with_transform 4 ∷ [] in
    let f : Factory = new_shared_informer_factory_with_options 1 30 with_it in
    let f₀ : Factory = new_shared_informer_factory_with_options 1 30 options in
    let g =
      new_shared_scoped_informer_factory_with_options {C = ℕ} {I = ℕ} {D = ℕ} {W = ℕ} {X = ℕ} 1 30
        with_it in
    let g₀ =
      new_shared_scoped_informer_factory_with_options {C = ℕ} {I = ℕ} {D = ℕ} {W = ℕ} {X = ℕ} 1 30
        options in
    (f.transform ≡ some 4)
    × ((informer_for targets add_numbers f).0 ≡ (informer_for targets add_numbers f₀).0)
    × (g ≡ g₀)
    × ((scoped_informer_for (λ x i. i) targets add_numbers g).0
        ≡ add_numbers 1 (or_default 30 (lookup targets g.custom_resync)))
transform_ignored_example = transform_ignored 1 30 options 4 targets add_numbers (λ x i. i)

abbrev configuration : InitTargetApplyConfiguration ℕ
configuration = record {
  type_meta = record { kind = none; api_version = none };
  object_meta = none;
  spec = none;
}

abbrev entries : Map Text
entries = (codes "team", codes "a") ∷ []

with_labels_lem_example :
    ((key : Text)
      → lookup key (entries_of (ensured (with_labels entries configuration).object_meta).labels)
        ≡ or_else
            (lookup key entries)
            (lookup key (entries_of (ensured configuration.object_meta).labels)))
    × ((ensured configuration.object_meta).labels ≡ none
        → (ensured (with_labels [] configuration).object_meta).labels ≡ none)
with_labels_lem_example = with_labels_lem configuration entries (unfold lookup in (refl, tt))

abbrev spec : InitTargetSpecApplyConfiguration
spec = record { workspace_type_reference = none; sources = [] }

abbrev sources : List InitSourceApplyConfiguration
sources = record { template = some (record { name = some (codes "base") }) } ∷ []

abbrev template_configuration : InitTemplateApplyConfiguration ℕ
template_configuration = init_template (codes "base")

with_values_lem_example :
    (with_sources (map some sources) spec
      ≡ some (record spec { sources = spec.sources ++ sources }))
    × (with_sources (map some sources ++ none ∷ []) spec ≡ none)
    × ((b : InitTemplateApplyConfiguration ℕ) × (with_owner_references
            (map some (3 ∷ []))
            template_configuration
          ≡ some b)
        × ((ensured b.object_meta).owner_references
            ≡ (ensured template_configuration.object_meta).owner_references ++ 3 ∷ [])
        × ((get_name b).0 ≡ (get_name template_configuration).0))
    × (with_owner_references (map some (3 ∷ []) ++ none ∷ some 4 ∷ []) template_configuration
        ≡ none)
with_values_lem_example =
    with_values_lem spec sources [] template_configuration (3 ∷ []) (some 4 ∷ [])
