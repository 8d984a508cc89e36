-- ===== src/Manifest.antt =====
-- internal/manifest/sort.go: the order in which objects are created. The applier and the YAML
-- reader are the children.
pub mod Apply
pub mod Yaml
pub mod Order
use init_agent.Base.{ℕ, Option, none, some, List, [], ◌∷◌, Text, codes, length}
use init_agent.Go.Strings.{to_lower}
use init_agent.Go.Slices.{index}
use init_agent.Go.Sort.{by_key, sort_func}
use init_agent.Remote.{Remote}

abbrev pub weights : List Text
weights =
    codes "customresourcedefinition.apiextensions.k8s.io"
    ∷ codes "apiexport.apis.kcp.io"
    ∷ codes "apibinding.apis.kcp.io"
    ∷ codes "namespace"
    ∷ []

-- `if weight == -1 { weight = len(weights) }`
abbrev pub or_last : Option ℕ → ℕ
or_last none = length weights
or_last (some i) = i

module _ {Object E S Tpl : Type 0} (remote : Remote Object E S Tpl) where
  unfoldable pub object_weight : Object → ℕ
  unfolding index to_lower
  object_weight obj =
      or_last (index weights (to_lower remote.unicode_to_lower (remote.group_kind obj)))

  unfoldable pub sort_objects_by_hierarchy : List Object → List Object
  unfolding sort_func
  sort_objects_by_hierarchy objs = sort_func remote.large_sort (by_key object_weight) objs
