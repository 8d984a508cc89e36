-- ===== src/Examples/Clientsets.antt =====
-- A configuration that asks for five queries in a second and allows no burst.
use init_agent.Base.{ℕ, zero, suc, true, false, none, [], codes}
use init_agent.Effect.{ok}
use init_agent.Remote.{found}
use init_agent.Sdk.Clientset.{Config, Libraries, Clientset, pos}
use init_agent.Sdk.Clientset.Cluster.{Cache}

abbrev config : Config ℕ ℕ ℕ ℕ
config = record {
  user_agent = codes "agent";
  qps = 5;
  burst = pos 0;
  rate_limiter = none;
  group_version = none;
  api_path = [];
  negotiated_serializer = none;
  others = 0;
}

-- The memory of the libraries counts the rate limiters.
abbrev libraries : Libraries ℕ ℕ ℕ ℕ ℕ ℕ ℕ ℕ ℕ
libraries = record {
  is_positive = λ qps. elim qps [ zero ↦ false | suc n ↦ true ];
  default_kubernetes_user_agent = codes "go";
  http_client_for = λ c w. (found 1, w);
  new_token_bucket_rate_limiter = λ qps burst w. (w, suc w);
  rest_client_for = λ c h w. (found 2, w);
  new_discovery_client_for = λ c h w. (found 3, w);
  codec_without_conversion = 4;
}

abbrev group_caches : Cache (Config ℕ ℕ ℕ ℕ) ℕ ℕ ℕ ℕ ℕ
group_caches = record {
  new_cache = λ c h make w. (6, w);
  cluster = λ cache path w. (ok 2, w);
  cluster_or_die = λ cache path w. (ok 2, w);
}

abbrev caches : Cache (Config ℕ ℕ ℕ ℕ) ℕ (Clientset ℕ ℕ) ℕ ℕ ℕ
caches = record {
  new_cache = λ c h make w. (7, w);
  cluster = λ cache path w. (ok (record { discovery_client = 3; initialization_v1alpha1 = 2 }), w);
  cluster_or_die =
      λ cache path w. (ok (record { discovery_client = 3; initialization_v1alpha1 = 2 }), w);
}
