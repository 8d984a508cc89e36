-- ===== src/Sdk/Clientset.antt =====
-- sdk/clientset/versioned: the clientsets and the clients of the API group, up to the constructors
-- of client-go. The state `W` is the memory of the libraries.
pub mod Group
pub mod Cluster
pub mod Typed
pub mod Schemes
pub mod Laws
use init_agent.Base.{
  ℕ, zero, suc, Bool, true, false, ◌&&◌, Option, none, some, Text, text_eq, codes, if◌then◌else◌,
}
use init_agent.Go.Strings.{is_empty}
use init_agent.Effect.{
  external, plain, burst_required, Outcome, ok, err, panicked, Action, pure, raise, ◌>>=◌,
}
use init_agent.Remote.{Fetched, found, failed}

-- An int of Go.
pub data ℤ : Type 0 where
  pos negsuc : ℕ → ℤ

-- The fields of rest.Config that the package reads or sets: `F` stands for float32, `L` for rate
-- limiters, `Z` for serializers and `R` for the other fields.
pub record Config (F L Z R : Type 0) : Type 0 where
  pub user_agent : Text
  pub qps : F
  pub burst : ℤ
  pub rate_limiter : Option L
  pub group_version : Option (Text × Text)
  pub api_path : Text
  pub negotiated_serializer : Option Z
  pub others : R

-- The functions of client-go: `H` stands for http clients, `C` for REST clients and `D` for
-- discovery clients. `is_positive` is the comparison of a float32 with 0.
pub record Libraries (F L Z R H C D E W : Type 0) : Type 0 where
  pub is_positive : F → Bool
  pub default_kubernetes_user_agent : Text
  pub http_client_for : Config F L Z R → W → Fetched E H × W
  pub new_token_bucket_rate_limiter : F → ℤ → W → L × W
  pub rest_client_for : Config F L Z R → H → W → Fetched E C × W
  pub new_discovery_client_for : Config F L Z R → H → W → Fetched E D × W
  pub codec_without_conversion : Z

pub record Clientset (C D : Type 0) : Type 0 where
  pub discovery_client : D
  pub initialization_v1alpha1 : C

abbrev pub burst_is_positive : ℤ → Bool
burst_is_positive (pos zero) = false
burst_is_positive (pos (suc n)) = true
burst_is_positive (negsuc n) = false

abbrev pub is_missing : {A : Type 0} → Option A → Bool
is_missing none = true
is_missing (some a) = false

module _ {E W : Type 0} where
  -- A call of a library that returns a value or an error.
  abbrev pub call : {A : Type 0} → (W → Fetched E A × W) → Action W E A
  call f w = elim (f w).0 [ found a ↦ (ok a, (f w).1) | failed e ↦ (err (external e), (f w).1) ]

  -- `if err != nil { panic(err) }`
  unfoldable pub or_die : {A : Type 0} → Action W E A → Action W E A
  or_die action w =
      let (o, w') = action w in
      elim o [ ok a ↦ (ok a, w') | err e ↦ (panicked, w') | panicked ↦ (panicked, w') ]

module _ {F L Z R H C D E W : Type 0} (libraries : Libraries F L Z R H C D E W) where
  -- `if configShallowCopy.UserAgent == "" { … }`
  unfoldable pub with_user_agent : Config F L Z R → Config F L Z R
  with_user_agent c =
      if is_empty c.user_agent
      then record c { user_agent = libraries.default_kubernetes_user_agent }
      else c

  -- The first statements of NewForConfigAndClient: a copy of the configuration with a rate limiter.
  unfoldable pub with_rate_limiter : Config F L Z R → Action W E (Config F L Z R)
  with_rate_limiter c w =
      if is_missing c.rate_limiter && libraries.is_positive c.qps
      then (if burst_is_positive c.burst
          then (let (limiter, w') = libraries.new_token_bucket_rate_limiter c.qps c.burst w in
              (ok (record c { rate_limiter = some limiter }), w'))
          else (err (plain burst_required), w))
      else (ok c, w)
