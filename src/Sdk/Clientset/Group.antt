-- ===== src/Sdk/Clientset/Group.antt =====
-- The client of the group initialization.kcp.io, and the clientset of one cluster:
-- typed/initialization/v1alpha1/initialization_client.go and clientset.go.
use init_agent.Base.{some, codes}
use init_agent.Effect.{Action, pure, ◌>>=◌}
use init_agent.Sdk.Types.{scheme_group_version}
use init_agent.Sdk.Clientset.{
  Config, Libraries, Clientset, call, or_die, with_user_agent, with_rate_limiter,
}

module _ {F L Z R H C D E W : Type 0} (libraries : Libraries F L Z R H C D E W) where
  unfoldable pub set_config_defaults : Config F L Z R → Config F L Z R
  unfolding with_user_agent
  set_config_defaults config = with_user_agent libraries (record config {
    group_version = some scheme_group_version;
    api_path = codes "/apis";
    negotiated_serializer = some libraries.codec_without_conversion;
  })

  -- NewForConfigAndClient, NewForConfig and NewForConfigOrDie of the group's client.
  unfoldable pub group_for_config_and_client : Config F L Z R → H → Action W E C
  unfolding set_config_defaults
  group_for_config_and_client c h = call (libraries.rest_client_for (set_config_defaults c) h)

  unfoldable pub group_for_config : Config F L Z R → Action W E C
  unfolding set_config_defaults group_for_config_and_client
  group_for_config c =
      call (libraries.http_client_for (set_config_defaults c))
      >>= group_for_config_and_client (set_config_defaults c)

  unfoldable pub group_for_config_or_die : Config F L Z R → Action W E C
  unfolding or_die group_for_config
  group_for_config_or_die c = or_die (group_for_config c)

  -- The clients of a clientset, from the copy of the configuration with its rate limiter.
  unfoldable pub clients_for : Config F L Z R → H → Action W E (Clientset C D)
  unfolding group_for_config_and_client
  clients_for config h = do
    group ← group_for_config_and_client config h
    discovery ← call (libraries.new_discovery_client_for config h)
    pure (record { discovery_client = discovery; initialization_v1alpha1 = group })

  -- The same three functions of the clientset.
  unfoldable pub new_for_config_and_client : Config F L Z R → H → Action W E (Clientset C D)
  unfolding with_rate_limiter clients_for
  new_for_config_and_client c h = with_rate_limiter libraries c >>= λ config. clients_for config h

  unfoldable pub new_for_config : Config F L Z R → Action W E (Clientset C D)
  unfolding with_user_agent new_for_config_and_client
  new_for_config c =
      call (libraries.http_client_for (with_user_agent libraries c))
      >>= new_for_config_and_client (with_user_agent libraries c)

  unfoldable pub new_for_config_or_die : Config F L Z R → Action W E (Clientset C D)
  unfolding or_die new_for_config
  new_for_config_or_die c = or_die (new_for_config c)
