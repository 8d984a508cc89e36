-- ===== src/Sdk/TemplateConfiguration.antt =====
-- sdk/applyconfiguration/initialization/v1alpha1/inittemplate.go and inittemplatespec.go: the
-- builders for an InitTemplate, on the metadata of Sdk/ApplyConfiguration.
pub mod Laws
pub mod Kinds
use init_agent.Base.{ℕ, Option, none, some, List, [], ◌++◌, Text, codes}
use init_agent.Go.Maps.{Map}
use init_agent.Sdk.ApplyConfiguration.{
  TypeMetaApplyConfiguration, ObjectMetaApplyConfiguration, Panics, append_all, put_into, ensured,
}

pub record InitTemplateSpecApplyConfiguration : Type 0 where
  pub template : Option Text

pub record InitTemplateApplyConfiguration (O : Type 0) : Type 0 where
  pub type_meta : TypeMetaApplyConfiguration
  pub object_meta : Option (ObjectMetaApplyConfiguration O)
  pub spec : Option InitTemplateSpecApplyConfiguration

unfoldable pub with_template :
    Text → InitTemplateSpecApplyConfiguration → InitTemplateSpecApplyConfiguration
with_template value b = record b { template = some value }

module _ {O : Type 0} where
  -- A builder for one field of the metadata: ensure that it exists, then set.
  abbrev on_meta :
      (ObjectMetaApplyConfiguration O → ObjectMetaApplyConfiguration O)
      → InitTemplateApplyConfiguration O
      → InitTemplateApplyConfiguration O
  on_meta f b = record b { object_meta = some (f (ensured b.object_meta)) }

  unfoldable pub with_kind :
      Text → InitTemplateApplyConfiguration O → InitTemplateApplyConfiguration O
  with_kind value b = record b { type_meta = record b.type_meta { kind = some value } }

  unfoldable pub with_api_version :
      Text → InitTemplateApplyConfiguration O → InitTemplateApplyConfiguration O
  with_api_version value b = record b {
    type_meta = record b.type_meta { api_version = some value };
  }

  unfoldable pub with_name :
      Text → InitTemplateApplyConfiguration O → InitTemplateApplyConfiguration O
  with_name value = on_meta (λ m. record m { name = some value })

  unfoldable pub with_generate_name :
      Text → InitTemplateApplyConfiguration O → InitTemplateApplyConfiguration O
  with_generate_name value = on_meta (λ m. record m { generate_name = some value })

  unfoldable pub with_namespace :
      Text → InitTemplateApplyConfiguration O → InitTemplateApplyConfiguration O
  with_namespace value = on_meta (λ m. record m { namespace = some value })

  unfoldable pub with_uid :
      Text → InitTemplateApplyConfiguration O → InitTemplateApplyConfiguration O
  with_uid value = on_meta (λ m. record m { uid = some value })

  unfoldable pub with_resource_version :
      Text → InitTemplateApplyConfiguration O → InitTemplateApplyConfiguration O
  with_resource_version value = on_meta (λ m. record m { resource_version = some value })

  unfoldable pub with_generation :
      ℕ → InitTemplateApplyConfiguration O → InitTemplateApplyConfiguration O
  with_generation value = on_meta (λ m. record m { generation = some value })

  unfoldable pub with_creation_timestamp :
      ℕ → InitTemplateApplyConfiguration O → InitTemplateApplyConfiguration O
  with_creation_timestamp value = on_meta (λ m. record m { creation_timestamp = some value })

  unfoldable pub with_deletion_timestamp :
      ℕ → InitTemplateApplyConfiguration O → InitTemplateApplyConfiguration O
  with_deletion_timestamp value = on_meta (λ m. record m { deletion_timestamp = some value })

  unfoldable pub with_deletion_grace_period_seconds :
      ℕ → InitTemplateApplyConfiguration O → InitTemplateApplyConfiguration O
  with_deletion_grace_period_seconds value =
      on_meta (λ m. record m { deletion_grace_period_seconds = some value })

  unfoldable pub with_labels :
      Map Text → InitTemplateApplyConfiguration O → InitTemplateApplyConfiguration O
  unfolding put_into
  with_labels entries = on_meta (λ m. record m { labels = put_into m.labels entries })

  unfoldable pub with_annotations :
      Map Text → InitTemplateApplyConfiguration O → InitTemplateApplyConfiguration O
  unfolding put_into
  with_annotations entries =
      on_meta (λ m. record m { annotations = put_into m.annotations entries })

  abbrev with_owner_list :
      InitTemplateApplyConfiguration O → Panics (List O) → Panics (InitTemplateApplyConfiguration O)
  with_owner_list b none = none
  with_owner_list b (some l) = some (on_meta (λ m. record m { owner_references = l }) b)

  unfoldable pub with_owner_references :
      List (Option O) → InitTemplateApplyConfiguration O → Panics (InitTemplateApplyConfiguration O)
  unfolding append_all
  with_owner_references values b =
      with_owner_list b (append_all (ensured b.object_meta).owner_references values)

  unfoldable pub with_finalizers :
      List Text → InitTemplateApplyConfiguration O → InitTemplateApplyConfiguration O
  with_finalizers values = on_meta (λ m. record m { finalizers = m.finalizers ++ values })

  unfoldable pub with_spec :
      InitTemplateSpecApplyConfiguration
      → InitTemplateApplyConfiguration O
      → InitTemplateApplyConfiguration O
  with_spec value b = record b { spec = some value }

  -- GetName, which makes the metadata exist.
  unfoldable pub get_name :
      InitTemplateApplyConfiguration O → Option Text × InitTemplateApplyConfiguration O
  get_name b = ((ensured b.object_meta).name, on_meta (λ m. m) b)

  -- The function InitTemplate.
  unfoldable pub init_template : Text → InitTemplateApplyConfiguration O
  unfolding with_name with_kind with_api_version
  init_template name = with_api_version (codes "initialization.kcp.io/v1alpha1") (
      with_kind (codes "InitTemplate") (
        with_name name (record {
          type_meta = record { kind = none; api_version = none };
          object_meta = none;
          spec = none;
        })))
