-- ===== src/Oauth/Single.antt =====
-- A flow is consumed at most once.
use managed_oss_cloud.Common.{
  ℕ, ◌<◌, String, true, ◌||◌, Option, none, some, ◌≡◌, refl, ap, ◌∙◌, arith, eq_refl, Bool-cases,
  inl, inr, some_inj, leb,
}
use managed_oss_cloud.Common.Dict.{Dict, get, set, get-set}
use managed_oss_cloud.Oauth.{ManagedOauthFlow, consume_flow, consume_managed_oauth_flow, is_set}

consumed_again :
    (now : ℕ) (hash : String) (flows : Dict ManagedOauthFlow) (flow : ManagedOauthFlow)
    → get flows hash ≡ some flow
    → is_set flow.consumed_at ≡ true
    → consume_managed_oauth_flow now hash flows ≡ (none, flows)
unfolding consume_managed_oauth_flow consume_flow
consumed_again now hash flows flow e c = ap (consume_flow now hash flows) e ∙ rw c refl

consume_flow-once :
    (now now' : ℕ) (hash : String) (flows : Dict ManagedOauthFlow) (flow : ManagedOauthFlow)
    (found : Option ManagedOauthFlow)
    → get flows hash ≡ found
    → (consume_flow now hash flows found).0 ≡ some flow
    → let after = (consume_flow now hash flows found).1 in
      (now < flow.expires_at)
      × (flow.consumed_at ≡ some now)
      × (consume_managed_oauth_flow now' hash after ≡ (none, after))
unfolding consume_flow
consume_flow-once now now' hash flows flow none g e = cc
consume_flow-once now now' hash flows flow (some old) g e =
    elim (Bool-cases (is_set old.consumed_at || leb old.expires_at now)) [
      | inl b ↦ cc (rw b at e)
      | inr b ↦
          let new = record old { consumed_at = some now } in
          let same : some new ≡ some flow = (rw b at e) in
          rw (b, ← some_inj same)
            (
              ground (arith, b),
              refl,
              consumed_again now' hash (set flows hash new) new
                  (get-set flows hash hash new ∙ rw (eq_refl hash) refl) refl,
            )
    ]

-- A flow that is consumed has not expired and carries the instant, and whenever its state token
-- comes again it yields nothing and changes nothing.
pub consumed_once :
    (now now' : ℕ) (hash : String) (flows : Dict ManagedOauthFlow) (flow : ManagedOauthFlow)
    → (consume_managed_oauth_flow now hash flows).0 ≡ some flow
    → let after = (consume_managed_oauth_flow now hash flows).1 in
      (now < flow.expires_at)
      × (flow.consumed_at ≡ some now)
      × (consume_managed_oauth_flow now' hash after ≡ (none, after))
unfolding consume_managed_oauth_flow
consumed_once now now' hash flows flow e =
    consume_flow-once now now' hash flows flow (get flows hash) refl e
