-- ===== src/Kcp/Rest.antt =====
-- internal/kcp/rest.go and clusterclient.go: the host of a rest.Config. The other fields of the
-- configuration are copied by rest.CopyConfig and are one value here.
pub mod Laws
use init_agent.Base.{
  ℕ, Bool, true, false, not, ◌&&◌, Option, none, some, List, [], ◌∷◌, ◌++◌, Text, codes, ◌==◌,
  if◌then◌else◌,
}
use init_agent.Go.Strings.{is_empty, cut_prefix, trim_right}

pub record RestConfig (R : Type 0) : Type 0 where
  pub host : Text
  pub others : R

abbrev pub slash : ℕ
slash = b'/'

abbrev pub clusters : Text
clusters = codes "/clusters/"

unfoldable pub has_slash : Text → Bool
has_slash [] = false
has_slash (c ∷ s) = let rest = has_slash s in if c == slash then true else rest

-- `[^/]+$` after the literal part of `clusterFinder`.
abbrev pub is_cluster_segment : Option Text → Bool
is_cluster_segment none = false
is_cluster_segment (some s) = not (is_empty s) && not (has_slash s)

-- Whether `clusterFinder` matches from here to the end of the text.
cluster_finder_at : Text → Bool
unfolding has_slash cut_prefix
cluster_finder_at s = is_cluster_segment (cut_prefix clusters s)

-- `clusterFinder.ReplaceAllString(s, "")`: the leftmost match ends the text.
unfoldable pub replace_all_clusters : Text → Text
unfolding cluster_finder_at
replace_all_clusters [] = []
replace_all_clusters (c ∷ s) =
    let kept = c ∷ replace_all_clusters s in if cluster_finder_at (c ∷ s) then [] else kept

module _ {R : Type 0} where
  unfoldable pub strip_cluster : RestConfig R → RestConfig R
  unfolding replace_all_clusters trim_right
  strip_cluster cfg = record cfg { host = trim_right slash (replace_all_clusters cfg.host) }

  unfoldable pub retarget_rest_config : RestConfig R → Text → RestConfig R
  unfolding strip_cluster
  retarget_rest_config cfg cluster =
      let stripped = strip_cluster cfg in
      record stripped { host = stripped.host ++ (clusters ++ cluster) }

  -- `ClusterConfig` of the client that `NewClusterClient cfg` returns.
  unfoldable pub cluster_config : RestConfig R → Text → RestConfig R
  cluster_config cfg cluster = record cfg { host = cfg.host ++ (clusters ++ cluster) }

-- `Cluster` of that client; `new` is New of controller-runtime's client.
abbrev pub cluster : {R C : Type 0} → (RestConfig R → C) → RestConfig R → Text → C
cluster new cfg name = new (cluster_config cfg name)
