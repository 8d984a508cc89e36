-- ===== src/Sdk/Fakes/Group.antt =====
-- The fake clients of the group for all clusters and for one, in
-- cluster/typed/initialization/v1alpha1/fake/initialization_client.go, and the clients of the two types
-- that they give. `Fk` stands for pointers to a Fake.
use init_agent.Base.{Text}
use init_agent.Effect.{Outcome, ok, ◌&>>=◌}
use init_agent.Sdk.Fakes.{scoped}

pub record GroupClusterClient (Fk : Type 0) : Type 0 where
  pub fake : Fk

pub record GroupClient (Fk : Type 0) : Type 0 where
  pub fake : Fk
  pub cluster_path : Text

-- The clients of the InitTargets and of the InitTemplates, of all clusters and of one.
pub record InitTargetsClusterClient (Fk : Type 0) : Type 0 where
  pub fake : Fk

pub record InitTargetsClient (Fk : Type 0) : Type 0 where
  pub fake : Fk
  pub cluster_path : Text

pub record InitTemplatesClusterClient (Fk : Type 0) : Type 0 where
  pub fake : Fk

pub record InitTemplatesClient (Fk : Type 0) : Type 0 where
  pub fake : Fk
  pub cluster_path : Text

module _ {Fk : Type 0} where
  -- InitTargets and InitTemplates of both clients of the group.
  unfoldable pub cluster_init_targets : GroupClusterClient Fk → InitTargetsClusterClient Fk
  cluster_init_targets c = record { fake = c.fake }

  unfoldable pub cluster_init_templates : GroupClusterClient Fk → InitTemplatesClusterClient Fk
  cluster_init_templates c = record { fake = c.fake }

  unfoldable pub init_targets : GroupClient Fk → InitTargetsClient Fk
  init_targets c = record { fake = c.fake; cluster_path = c.cluster_path }

  unfoldable pub init_templates : GroupClient Fk → InitTemplatesClient Fk
  init_templates c = record { fake = c.fake; cluster_path = c.cluster_path }

module _ {Fk E : Type 0} (wildcard : Text) where
  -- Cluster of the client of the group, and of the clients of the two types.
  unfoldable pub group_cluster : GroupClusterClient Fk → Text → Outcome E (GroupClient Fk)
  unfolding scoped
  group_cluster c cluster_path =
      scoped wildcard cluster_path &>>= λ path. ok (record { fake = c.fake; cluster_path = path })

  unfoldable pub targets_cluster :
      InitTargetsClusterClient Fk → Text → Outcome E (InitTargetsClient Fk)
  unfolding scoped
  targets_cluster c cluster_path =
      scoped wildcard cluster_path &>>= λ path. ok (record { fake = c.fake; cluster_path = path })

  unfoldable pub templates_cluster :
      InitTemplatesClusterClient Fk → Text → Outcome E (InitTemplatesClient Fk)
  unfolding scoped
  templates_cluster c cluster_path =
      scoped wildcard cluster_path &>>= λ path. ok (record { fake = c.fake; cluster_path = path })
