-- ===== src/Oauth.antt =====
-- The managed OAuth flows of `MemoryRepository`, server/repository.ts: a flow is kept under the hash
-- of its state token, and is consumed once before it expires.
pub mod Single
mod Tests
use managed_oss_cloud.Common.{
  ℕ, ◌+◌, String, Bool, true, false, not, ◌||◌, List, [], ◌∷◌, Option, none, some, ltb, leb,
  if◌then◌else◌,
}
use managed_oss_cloud.Common.Dict.{Dict, get, set, has}
use managed_oss_cloud.Common.Result.{Result, thrown, returned}

pub record ManagedOauthFlow : Type 0 where
  pub id : String
  pub state_token_hash : String
  pub application_instance_id : String
  pub origin : String
  pub upstream_state : String
  pub code_verifier : String
  pub expires_at : ℕ
  pub created_at : ℕ
  pub consumed_at : Option ℕ

-- Flows that expired more than a day ago are deleted.
unfoldable pub purge : ℕ → Dict ManagedOauthFlow → Dict ManagedOauthFlow
purge now [] = []
purge now ((key, flow) ∷ flows) =
    if ltb (flow.expires_at + 86400000) now then purge now flows else (key, flow) ∷ purge now flows

unfoldable pub create_managed_oauth_flow :
    ℕ → ManagedOauthFlow → Dict ManagedOauthFlow → Result (Unit {0}) × Dict ManagedOauthFlow
unfolding purge
create_managed_oauth_flow now input flows =
    let kept = purge now flows in
    if has kept input.state_token_hash
    then (thrown "Managed OAuth state collision.", kept)
    else (returned tt, set kept input.state_token_hash input)

abbrev is_set : Option ℕ → Bool
is_set none = false
is_set (some at) = true

consume_flow :
    ℕ
    → String
    → Dict ManagedOauthFlow
    → Option ManagedOauthFlow
    → Option ManagedOauthFlow × Dict ManagedOauthFlow
consume_flow now state_token_hash flows none = (none, flows)
consume_flow now state_token_hash flows (some flow) =
    if is_set flow.consumed_at || leb flow.expires_at now then (none, flows) else (
      some (record flow { consumed_at = some now }),
      set flows state_token_hash (record flow { consumed_at = some now }),
    )

unfoldable pub consume_managed_oauth_flow :
    ℕ → String → Dict ManagedOauthFlow → Option ManagedOauthFlow × Dict ManagedOauthFlow
unfolding consume_flow
consume_managed_oauth_flow now state_token_hash flows =
    consume_flow now state_token_hash flows (get flows state_token_hash)
