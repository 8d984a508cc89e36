-- ===== src/Kcp/Annotations.antt =====
-- internal/kcp/annotations.go: the name and the path of an object's cluster.
use init_agent.Base.{none, some, Text}
use init_agent.Go.Maps.{lookup}
use init_agent.Effect.{Outcome, ok, panicked}
use init_agent.Sdk.Types.{ObjectMeta}
use init_agent.Remote.{Remote}

module _ {Object E S Tpl : Type 0} (remote : Remote Object E S Tpl) where
  unfoldable pub cluster_name_from_object : ObjectMeta → Text
  cluster_name_from_object meta = remote.cluster_from meta

  -- The code panics on an object without the annotation.
  unfoldable pub cluster_path_from_object : ObjectMeta → Outcome E Text
  unfolding lookup
  cluster_path_from_object meta = elim (lookup remote.path_annotation_key meta.annotations) [
    | none ↦ panicked
    | some path ↦ ok (remote.path_string path)
  ]
