-- ===== src/Sdk/Types.antt =====
-- sdk/apis/initialization/v1alpha1: the types of the API group, with the part of
-- metav1.ObjectMeta that the agent reads.
use init_agent.Base.{ℕ, Option, List, [], ◌∷◌, Text, codes}

-- The fields of metav1.ObjectMeta in use. A timestamp is a number of seconds.
pub record ObjectMeta : Type 0 where
  pub name : Text
  pub uid : Text
  pub deletion_timestamp : Option ℕ
  pub labels : List (Text × Text)
  pub annotations : List (Text × Text)

pub record WorkspaceTypeReference : Type 0 where
  pub path : Text
  pub name : Text

pub record TemplateInitSource : Type 0 where
  pub name : Text

pub record InitSource : Type 0 where
  pub template : Option TemplateInitSource

pub record InitTargetSpec : Type 0 where
  pub workspace_type_reference : WorkspaceTypeReference
  pub sources : List InitSource

pub record InitTarget : Type 0 where
  pub meta : ObjectMeta
  pub spec : InitTargetSpec

pub record InitTemplateSpec : Type 0 where
  pub template : Text

pub record InitTemplate : Type 0 where
  pub meta : ObjectMeta
  pub spec : InitTemplateSpec

-- register.go: SchemeGroupVersion, and addKnownTypes with AddKnownTypes of a scheme and
-- AddToGroupVersion; a type is its name, and the error is nil.
abbrev pub scheme_group_version : Text × Text
scheme_group_version = (codes "initialization.kcp.io", codes "v1alpha1")

unfoldable pub add_known_types :
    {S : Type 0} → (Text × Text → List Text → S → S) → (Text × Text → S → S) → S → S
add_known_types add_known add_to_group_version scheme = add_to_group_version scheme_group_version (
    add_known scheme_group_version
      (codes "InitTarget"
        ∷ codes "InitTargetList"
        ∷ codes "InitTemplate"
        ∷ codes "InitTemplateList"
        ∷ [])
      scheme)
