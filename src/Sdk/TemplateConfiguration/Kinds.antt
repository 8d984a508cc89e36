-- ===== src/Sdk/TemplateConfiguration/Kinds.antt =====
-- sdk/applyconfiguration/utils.go: ForKind.
use init_agent.Base.{Bool, ◌&&◌, Option, none, some, [], Text, codes, text_eq, if◌then◌else◌}
use init_agent.Sdk.Types.{scheme_group_version}
use init_agent.Sdk.ApplyConfiguration.{
  TypeMetaApplyConfiguration, WorkspaceTypeReferenceApplyConfiguration,
  TemplateInitSourceApplyConfiguration, InitSourceApplyConfiguration,
  InitTargetSpecApplyConfiguration, InitTargetApplyConfiguration,
}
use init_agent.Sdk.TemplateConfiguration.{
  InitTemplateSpecApplyConfiguration, InitTemplateApplyConfiguration,
}

-- schema.GroupVersionKind, with `==` on it.
pub record GroupVersionKind : Type 0 where
  pub group : Text
  pub version : Text
  pub kind : Text

abbrev pub gvk_eq : GroupVersionKind → GroupVersionKind → Bool
gvk_eq a b = text_eq a.group b.group && (text_eq a.version b.version && text_eq a.kind b.kind)

-- `SchemeGroupVersion.WithKind`
abbrev pub with_kind : Text → GroupVersionKind
with_kind kind = record {
  group = scheme_group_version.0;
  version = scheme_group_version.1;
  kind = kind;
}

-- The pointers to configurations that ForKind returns, as values of `interface{}`.
pub data Configuration (O : Type 0) : Type 0 where
  init_source : InitSourceApplyConfiguration → Configuration O
  init_target : InitTargetApplyConfiguration O → Configuration O
  init_target_spec : InitTargetSpecApplyConfiguration → Configuration O
  init_template : InitTemplateApplyConfiguration O → Configuration O
  init_template_spec : InitTemplateSpecApplyConfiguration → Configuration O
  template_init_source : TemplateInitSourceApplyConfiguration → Configuration O
  workspace_type_reference : WorkspaceTypeReferenceApplyConfiguration → Configuration O

abbrev no_type : TypeMetaApplyConfiguration
no_type = record { kind = none; api_version = none }

module _ {O : Type 0} where
  unfoldable pub for_kind : GroupVersionKind → Option (Configuration O)
  for_kind kind =
      if gvk_eq kind (with_kind (codes "InitSource"))
      then some (init_source (record { template = none }))
      else if gvk_eq kind (with_kind (codes "InitTarget"))
      then some (init_target (record { type_meta = no_type; object_meta = none; spec = none }))
      else if gvk_eq kind (with_kind (codes "InitTargetSpec"))
      then some (init_target_spec (record { workspace_type_reference = none; sources = [] }))
      else if gvk_eq kind (with_kind (codes "InitTemplate"))
      then some (init_template (record { type_meta = no_type; object_meta = none; spec = none }))
      else if gvk_eq kind (with_kind (codes "InitTemplateSpec"))
      then some (init_template_spec (record { template = none }))
      else if gvk_eq kind (with_kind (codes "TemplateInitSource"))
      then some (template_init_source (record { name = none }))
      else if gvk_eq kind (with_kind (codes "WorkspaceTypeReference"))
      then some (workspace_type_reference (record { path = none; name = none }))
      else none
