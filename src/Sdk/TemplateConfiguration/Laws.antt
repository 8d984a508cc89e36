-- ===== src/Sdk/TemplateConfiguration/Laws.antt =====
-- What the builders for an InitTemplate leave behind.
use init_agent.Base.{◌≡◌, refl, Option, none, some, List, ◌∷◌, ◌++◌, map}
use init_agent.Sdk.ApplyConfiguration.{
  InitTargetSpecApplyConfiguration, InitSourceApplyConfiguration, ensured, with_sources,
}
use init_agent.Sdk.ApplyConfiguration.Laws.{append_all_lem, append_all-nil, with_sources_lem}
use init_agent.Sdk.TemplateConfiguration.{
  InitTemplateApplyConfiguration, with_owner_references, get_name,
}

module _ {O : Type 0} (b : InitTemplateApplyConfiguration O) where
  -- The same for the owners: WithOwnerReferences keeps the owners that are there and puts its values behind them, and it
  -- changes nothing else that GetName reads; a nil value makes it panic, wherever it stands.
  with_owner_references_lem :
      (values : List O) (rest : List (Option O))
      → ((b' : InitTemplateApplyConfiguration O) × (with_owner_references (map some values) b
            ≡ some b')
          × ((ensured b'.object_meta).owner_references
              ≡ (ensured b.object_meta).owner_references ++ values)
          × ((get_name b').0 ≡ (get_name b).0))
        × (with_owner_references (map some values ++ none ∷ rest) b ≡ none)
  unfolding with_owner_references get_name
  with_owner_references_lem values rest =
      let owners = (ensured b.object_meta).owner_references in
      (
        (
          record b {
            object_meta =
                some (record (ensured b.object_meta) { owner_references = owners ++ values });
          },
          rw (append_all_lem owners values),
          refl,
          refl,
        ),
        rw (append_all-nil owners values rest),
      )

-- WithSources of an InitTarget's spec and WithOwnerReferences of an InitTemplate put their values
-- behind those that are there, in their order and over several calls too, and change nothing else
-- of the spec and nothing else that GetName reads; a nil value makes either panic, wherever it
-- stands.
pub with_values_lem :
    {O : Type 0} (spec : InitTargetSpecApplyConfiguration)
    (sources : List InitSourceApplyConfiguration)
    (more_sources : List (Option InitSourceApplyConfiguration))
    (b : InitTemplateApplyConfiguration O) (owners : List O) (more_owners : List (Option O))
    → (with_sources (map some sources) spec
        ≡ some (record spec { sources = spec.sources ++ sources }))
      × (with_sources (map some sources ++ none ∷ more_sources) spec ≡ none)
      × ((b' : InitTemplateApplyConfiguration O) × (with_owner_references (map some owners) b
            ≡ some b')
          × ((ensured b'.object_meta).owner_references
              ≡ (ensured b.object_meta).owner_references ++ owners)
          × ((get_name b').0 ≡ (get_name b).0))
      × (with_owner_references (map some owners ++ none ∷ more_owners) b ≡ none)
with_values_lem spec sources more_sources b owners more_owners =
    let (appended, refused) = with_sources_lem spec sources more_sources in
    let (kept, panics) = with_owner_references_lem b owners more_owners in
    (appended, refused, kept, panics)
