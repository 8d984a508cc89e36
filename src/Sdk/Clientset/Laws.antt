-- ===== src/Sdk/Clientset/Laws.antt =====
-- The rate limiter of a clientset.
use init_agent.Base.{◌≡◌, ◌⊎◌, Bool, true, false, ◌&&◌, some}
use init_agent.Sdk.Clientset.{Config, Libraries, Clientset, is_missing, burst_is_positive}
use init_agent.Sdk.Clientset.Cluster.{Cache}

-- Whether a configuration asks for a rate limiter that it does not bring.
abbrev pub wants_limiter :
    {F L Z R H C D E W : Type 0} → Libraries F L Z R H C D E W → Config F L Z R → Bool
wants_limiter libraries c = is_missing c.rate_limiter && libraries.is_positive c.qps

module _ {F L Z R H C D E W K J : Type 0} (libraries : Libraries F L Z R H C D E W)
    (group_caches : Cache (Config F L Z R) H C J E W)
    (caches : Cache (Config F L Z R) H (Clientset C D) K E W) where
  -- The configuration that the constructors go on with, and the state after that: the configuration
  -- itself if it asks for no limiter, and else a copy with a new token bucket for its QPS and burst,
  -- where the burst is positive.
  abbrev pub IsLimited : Config F L Z R → W → Config F L Z R → W → Type 0
  IsLimited c w config w' =
      ((wants_limiter libraries c ≡ false) × (config ≡ c) × (w' ≡ w))
      ⊎ ((wants_limiter libraries c ≡ true)
          × (burst_is_positive c.burst ≡ true)
          × let (limiter, bucket) = libraries.new_token_bucket_rate_limiter c.qps c.burst w in
            (config ≡ record c { rate_limiter = some limiter }) × (w' ≡ bucket))
