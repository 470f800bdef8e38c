-- ===== src/Oauth/Tests.antt =====
-- A flow that is created, consumed and tried again.
use managed_oss_cloud.Common.{◌<◌, [], ◌∷◌, none, some, ◌≡◌, refl}
use managed_oss_cloud.Common.Dict
use managed_oss_cloud.Common.Dict.{Dict}
use managed_oss_cloud.Common.Result.{returned}
use managed_oss_cloud.Oauth.{
  ManagedOauthFlow, purge, create_managed_oauth_flow, consume_managed_oauth_flow,
}
use managed_oss_cloud.Oauth.Single.{consumed_once}

abbrev flow : ManagedOauthFlow
flow = record {
  id = "f";
  state_token_hash = "hash";
  application_instance_id = "a";
  origin = "https://a.example.org";
  upstream_state = "state";
  code_verifier = "verifier";
  expires_at = 600000;
  created_at = 0;
  consumed_at = none;
}

abbrev flows : Dict ManagedOauthFlow
flows = ("hash", flow) ∷ []

creation_runs : create_managed_oauth_flow 0 flow [] ≡ (returned tt, flows)
unfolding create_managed_oauth_flow purge Dict.has Dict.set
creation_runs = refl

abbrev used_flow : ManagedOauthFlow
used_flow = record flow { consumed_at = some 1000 }

consumption_runs : (consume_managed_oauth_flow 1000 "hash" flows).0 ≡ some used_flow
unfolding consume_managed_oauth_flow Dict.get Dict.set
consumption_runs = refl

consumed_once_example :
    let after = (consume_managed_oauth_flow 1000 "hash" flows).1 in
    (1000 < 600000)
    × (used_flow.consumed_at ≡ some 1000)
    × (consume_managed_oauth_flow 2000 "hash" after ≡ (none, after))
consumed_once_example = consumed_once 1000 2000 "hash" flows used_flow consumption_runs
