-- ===== src/Sdk/Clientset/Cluster.antt =====
-- The clientset of all clusters: cluster/clientset.go, and the cluster client of the group in
-- cluster/typed/initialization/v1alpha1/initialization_client.go.
use init_agent.Base.{Text, text_eq, codes, if◌then◌else◌}
use init_agent.Effect.{panicked, Action, pure, lift, ◌>>=◌}
use init_agent.Sdk.Clientset.{
  Config, Libraries, Clientset, call, or_die, with_user_agent, with_rate_limiter,
}
use init_agent.Sdk.Clientset.Group.{group_for_config_and_client, new_for_config_and_client}

-- kcpclient.Cache of clients `A` that a constructor makes: NewCache, Cluster and ClusterOrDie.
pub record Cache (Cfg H A K E W : Type 0) : Type 0 where
  pub new_cache : Cfg → H → (Cfg → H → Action W E A) → W → K × W
  pub cluster : K → Text → Action W E A
  pub cluster_or_die : K → Text → Action W E A

pub record ClusterClientset (K J D : Type 0) : Type 0 where
  pub discovery_client : D
  pub client_cache : K
  pub initialization_v1alpha1 : J

-- A call of a library that returns a value.
abbrev got : {A E W : Type 0} → (W → A × W) → Action W E A
got f w = let (a, w') = f w in pure a w'

-- `logicalcluster.Wildcard`, and the name of the root cluster.
abbrev pub root : Text
root = codes "root"

-- Cluster of the clientset and of the group's client: the wildcard is refused.
unfoldable pub scoped_client :
    {Cfg H A K E W : Type 0} → Cache Cfg H A K E W → Text → K → Text → Action W E A
scoped_client caches wildcard cache cluster_path =
    if text_eq cluster_path wildcard
    then lift panicked
    else caches.cluster_or_die cache cluster_path

module _ {F L Z R H C D E W J : Type 0} (libraries : Libraries F L Z R H C D E W)
    (group_caches : Cache (Config F L Z R) H C J E W) where
  -- NewForConfigAndClient, NewForConfig and NewForConfigOrDie of the group's cluster client, which
  -- is its cache.
  unfoldable pub group_cluster_for_config_and_client : Config F L Z R → H → Action W E J
  unfolding group_for_config_and_client
  group_cluster_for_config_and_client c h = do
    cache ← got (group_caches.new_cache c h (group_for_config_and_client libraries))
    client ← group_caches.cluster cache root
    pure cache

  unfoldable pub group_cluster_for_config : Config F L Z R → Action W E J
  unfolding group_cluster_for_config_and_client
  group_cluster_for_config c =
      call (libraries.http_client_for c) >>= group_cluster_for_config_and_client c

  unfoldable pub group_cluster_for_config_or_die : Config F L Z R → Action W E J
  unfolding or_die group_cluster_for_config
  group_cluster_for_config_or_die c = or_die (group_cluster_for_config c)

  module _ {K : Type 0} (caches : Cache (Config F L Z R) H (Clientset C D) K E W) where
    -- What follows in NewForConfigAndClient: the cache has the configuration of the caller, and the
    -- other clients the copy with its rate limiter.
    unfoldable pub cluster_clients_for :
        Config F L Z R → Config F L Z R → H → Action W E (ClusterClientset K J D)
    unfolding group_cluster_for_config_and_client new_for_config_and_client
    cluster_clients_for c config h = do
      cache ← got (caches.new_cache c h (new_for_config_and_client libraries))
      client ← caches.cluster cache root
      group ← group_cluster_for_config_and_client config h
      discovery ← call (libraries.new_discovery_client_for config h)
      pure (record {
        discovery_client = discovery;
        client_cache = cache;
        initialization_v1alpha1 = group;
      })

    unfoldable pub cluster_new_for_config_and_client :
        Config F L Z R → H → Action W E (ClusterClientset K J D)
    unfolding with_rate_limiter cluster_clients_for
    cluster_new_for_config_and_client c h =
        with_rate_limiter libraries c >>= λ config. cluster_clients_for c config h

    unfoldable pub cluster_new_for_config : Config F L Z R → Action W E (ClusterClientset K J D)
    unfolding with_user_agent cluster_new_for_config_and_client
    cluster_new_for_config c =
        call (libraries.http_client_for (with_user_agent libraries c))
        >>= cluster_new_for_config_and_client (with_user_agent libraries c)

    unfoldable pub cluster_new_for_config_or_die :
        Config F L Z R → Action W E (ClusterClientset K J D)
    unfolding or_die cluster_new_for_config
    cluster_new_for_config_or_die c = or_die (cluster_new_for_config c)
