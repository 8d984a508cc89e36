-- ===== src/Sdk/ApplyConfiguration.antt =====
-- sdk/applyconfiguration/initialization/v1alpha1: builders of declarative configurations. A
-- method sets fields of its receiver and returns it: here it returns the new value. A pointer to a
-- field is an `Option`, with `none` for nil; an int64 is its bit pattern and a timestamp a number
-- of seconds. `O` stands for the owner references of client-go.
pub mod Laws
use init_agent.Base.{ℕ, Option, none, some, List, [], ◌∷◌, ◌++◌, Text, codes}
use init_agent.Go.Maps.{Map, insert}

pub record TypeMetaApplyConfiguration : Type 0 where
  pub kind : Option Text
  pub api_version : Option Text

-- The fields of client-go's ObjectMetaApplyConfiguration that the builders set.
pub record ObjectMetaApplyConfiguration (O : Type 0) : Type 0 where
  pub name : Option Text
  pub generate_name : Option Text
  pub namespace : Option Text
  pub uid : Option Text
  pub resource_version : Option Text
  pub generation : Option ℕ
  pub creation_timestamp : Option ℕ
  pub deletion_timestamp : Option ℕ
  pub deletion_grace_period_seconds : Option ℕ
  pub labels : Option (Map Text)
  pub annotations : Option (Map Text)
  pub owner_references : List O
  pub finalizers : List Text

pub record WorkspaceTypeReferenceApplyConfiguration : Type 0 where
  pub path : Option Text
  pub name : Option Text

pub record TemplateInitSourceApplyConfiguration : Type 0 where
  pub name : Option Text

pub record InitSourceApplyConfiguration : Type 0 where
  pub template : Option TemplateInitSourceApplyConfiguration

pub record InitTargetSpecApplyConfiguration : Type 0 where
  pub workspace_type_reference : Option WorkspaceTypeReferenceApplyConfiguration
  pub sources : List InitSourceApplyConfiguration

pub record InitTargetApplyConfiguration (O : Type 0) : Type 0 where
  pub type_meta : TypeMetaApplyConfiguration
  pub object_meta : Option (ObjectMetaApplyConfiguration O)
  pub spec : Option InitTargetSpecApplyConfiguration

-- `none` for the panic of a call.
abbrev pub Panics : Type 0 → Type 0
Panics A = Option A

-- `for i := range values { if values[i] == nil { panic } … append(list, *values[i]) }`
unfoldable pub append_all : {A : Type 0} → List A → List (Option A) → Panics (List A)
append_all l [] = some l
append_all l (none ∷ values) = none
append_all l (some v ∷ values) = append_all (l ++ v ∷ []) values

-- A nil map is made if there are entries; then each entry is written.
unfoldable pub put_entries : Map Text → Map Text → Map Text
unfolding insert
put_entries m [] = m
put_entries m ((k, v) ∷ entries) = put_entries (insert k v m) entries

unfoldable pub put_into : Option (Map Text) → Map Text → Option (Map Text)
unfolding put_entries
put_into none [] = none
put_into none (e ∷ entries) = some (put_entries [] (e ∷ entries))
put_into (some m) entries = some (put_entries m entries)

unfoldable pub with_path :
    Text → WorkspaceTypeReferenceApplyConfiguration → WorkspaceTypeReferenceApplyConfiguration
with_path value b = record b { path = some value }

unfoldable pub with_template :
    TemplateInitSourceApplyConfiguration
    → InitSourceApplyConfiguration
    → InitSourceApplyConfiguration
with_template value b = record b { template = some value }

unfoldable pub with_workspace_type_reference :
    WorkspaceTypeReferenceApplyConfiguration
    → InitTargetSpecApplyConfiguration
    → InitTargetSpecApplyConfiguration
with_workspace_type_reference value b = record b { workspace_type_reference = some value }

abbrev with_source_list :
    InitTargetSpecApplyConfiguration
    → Panics (List InitSourceApplyConfiguration)
    → Panics InitTargetSpecApplyConfiguration
with_source_list b none = none
with_source_list b (some l) = some (record b { sources = l })

unfoldable pub with_sources :
    List (Option InitSourceApplyConfiguration)
    → InitTargetSpecApplyConfiguration
    → Panics InitTargetSpecApplyConfiguration
unfolding append_all
with_sources values b = with_source_list b (append_all b.sources values)

module _ {O : Type 0} where
  abbrev empty_meta : ObjectMetaApplyConfiguration O
  empty_meta = record {
    name = none;
    generate_name = none;
    namespace = none;
    uid = none;
    resource_version = none;
    generation = none;
    creation_timestamp = none;
    deletion_timestamp = none;
    deletion_grace_period_seconds = none;
    labels = none;
    annotations = none;
    owner_references = [];
    finalizers = [];
  }

  -- The metadata after ensureObjectMetaApplyConfigurationExists.
  abbrev pub ensured : Option (ObjectMetaApplyConfiguration O) → ObjectMetaApplyConfiguration O
  ensured none = empty_meta
  ensured (some m) = m

  -- A builder for one field of the metadata: ensure that it exists, then set.
  abbrev on_meta :
      (ObjectMetaApplyConfiguration O → ObjectMetaApplyConfiguration O)
      → InitTargetApplyConfiguration O
      → InitTargetApplyConfiguration O
  on_meta f b = record b { object_meta = some (f (ensured b.object_meta)) }

  unfoldable pub with_kind : Text → InitTargetApplyConfiguration O → InitTargetApplyConfiguration O
  with_kind value b = record b { type_meta = record b.type_meta { kind = some value } }

  unfoldable pub with_api_version :
      Text → InitTargetApplyConfiguration O → InitTargetApplyConfiguration O
  with_api_version value b = record b {
    type_meta = record b.type_meta { api_version = some value };
  }

  unfoldable pub with_name : Text → InitTargetApplyConfiguration O → InitTargetApplyConfiguration O
  with_name value = on_meta (λ m. record m { name = some value })

  unfoldable pub with_generate_name :
      Text → InitTargetApplyConfiguration O → InitTargetApplyConfiguration O
  with_generate_name value = on_meta (λ m. record m { generate_name = some value })

  unfoldable pub with_namespace :
      Text → InitTargetApplyConfiguration O → InitTargetApplyConfiguration O
  with_namespace value = on_meta (λ m. record m { namespace = some value })

  unfoldable pub with_uid : Text → InitTargetApplyConfiguration O → InitTargetApplyConfiguration O
  with_uid value = on_meta (λ m. record m { uid = some value })

  unfoldable pub with_resource_version :
      Text → InitTargetApplyConfiguration O → InitTargetApplyConfiguration O
  with_resource_version value = on_meta (λ m. record m { resource_version = some value })

  unfoldable pub with_generation :
      ℕ → InitTargetApplyConfiguration O → InitTargetApplyConfiguration O
  with_generation value = on_meta (λ m. record m { generation = some value })

  unfoldable pub with_creation_timestamp :
      ℕ → InitTargetApplyConfiguration O → InitTargetApplyConfiguration O
  with_creation_timestamp value = on_meta (λ m. record m { creation_timestamp = some value })

  unfoldable pub with_deletion_timestamp :
      ℕ → InitTargetApplyConfiguration O → InitTargetApplyConfiguration O
  with_deletion_timestamp value = on_meta (λ m. record m { deletion_timestamp = some value })

  unfoldable pub with_deletion_grace_period_seconds :
      ℕ → InitTargetApplyConfiguration O → InitTargetApplyConfiguration O
  with_deletion_grace_period_seconds value =
      on_meta (λ m. record m { deletion_grace_period_seconds = some value })

  unfoldable pub with_labels :
      Map Text → InitTargetApplyConfiguration O → InitTargetApplyConfiguration O
  unfolding put_into
  with_labels entries = on_meta (λ m. record m { labels = put_into m.labels entries })

  unfoldable pub with_annotations :
      Map Text → InitTargetApplyConfiguration O → InitTargetApplyConfiguration O
  unfolding put_into
  with_annotations entries =
      on_meta (λ m. record m { annotations = put_into m.annotations entries })

  abbrev with_owner_list :
      InitTargetApplyConfiguration O → Panics (List O) → Panics (InitTargetApplyConfiguration O)
  with_owner_list b none = none
  with_owner_list b (some l) = some (on_meta (λ m. record m { owner_references = l }) b)

  unfoldable pub with_owner_references :
      List (Option O) → InitTargetApplyConfiguration O → Panics (InitTargetApplyConfiguration O)
  unfolding append_all
  with_owner_references values b =
      with_owner_list b (append_all (ensured b.object_meta).owner_references values)

  unfoldable pub with_finalizers :
      List Text → InitTargetApplyConfiguration O → InitTargetApplyConfiguration O
  with_finalizers values = on_meta (λ m. record m { finalizers = m.finalizers ++ values })

  unfoldable pub with_spec :
      InitTargetSpecApplyConfiguration
      → InitTargetApplyConfiguration O
      → InitTargetApplyConfiguration O
  with_spec value b = record b { spec = some value }

  -- GetName, which makes the metadata exist.
  unfoldable pub get_name :
      InitTargetApplyConfiguration O → Option Text × InitTargetApplyConfiguration O
  get_name b = ((ensured b.object_meta).name, on_meta (λ m. m) b)

  -- The function InitTarget.
  unfoldable pub init_target : Text → InitTargetApplyConfiguration O
  unfolding with_name with_kind with_api_version
  init_target name = with_api_version (codes "initialization.kcp.io/v1alpha1") (
      with_kind (codes "InitTarget") (
        with_name name (record {
          type_meta = record { kind = none; api_version = none };
          object_meta = none;
          spec = none;
        })))
