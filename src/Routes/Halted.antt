-- ===== src/Routes/Halted.antt =====
-- What the end of a subscription means for the gateway.
use mathlib.Core.List.{Memᴰ}
use managed_oss_cloud.Common.{
  ℕ, String, Bool, false, List, some, ◌≡◌, ◌≢◌, ap, ◌∙◌, All, All-implies,
}
use managed_oss_cloud.Common.Dict.{Dict, get, values}
use managed_oss_cloud.Common.Result.{returned}
use managed_oss_cloud.Types.{GatewayRoute}
use managed_oss_cloud.Store.{Store, hosting_entitlement_active}
use managed_oss_cloud.Store.Records.{Installation, ApplicationInstance, StoredSubscription}
use managed_oss_cloud.Entitlement.{
  is_bound, is_entitled, put_subscription, update_subscription_status,
}
use managed_oss_cloud.Entitlement.Suspended.{inactive_subscriptions}
use managed_oss_cloud.Routes.{list_gateway_routes}
use managed_oss_cloud.Routes.Checks.{IsPaid-entitled}
use managed_oss_cloud.Routes.Served.{IsServed, routes-IsServed}

-- The route leads to an application of another installation.
abbrev pub IsElsewhere : Store → String → GatewayRoute → Type 0
IsElsewhere store id r =
    (app : ApplicationInstance) × Memᴰ app (values store.applications)
    × (r.application_instance_id ≡ app.id)
    × (app.installation_id ≢ id)

served-IsElsewhere :
    (unrestricted : Bool) (store : Store) (id : String)
    → is_entitled unrestricted store id ≡ false
    → (r : GatewayRoute) → IsServed unrestricted store r
    → IsElsewhere store id r
served-IsElsewhere unrestricted store id off r s = (
  s.app,
  s.member,
  s.route.target,
  λ same. cc (
    IsPaid-entitled unrestricted store s.app.installation_id s.open_for.paid,
    ap (is_entitled unrestricted store) same,
    off,
  ),
)

-- When a status comes in that leaves an installation of the subscription without an entitlement,
-- then, on every store that has the subscriptions which the update leaves, be it the store right
-- after the update or a later one, each route that the gateway is given leads to an application of
-- another installation.
pub inactive_unrouted :
    (unrestricted : Bool) (now : ℕ) (job_id : String → String) (id status : String)
    (item : StoredSubscription) (installation : Installation) (store later : Store)
    (routes : List GatewayRoute)
    → get store.subscriptions id ≡ some item
    → is_bound item ≡ some installation.id
    → get store.installations installation.id ≡ some installation
    → is_entitled unrestricted
        (put_subscription store id (record item { status = status }))
        installation.id
      ≡ false
    → later.subscriptions
      ≡ (update_subscription_status unrestricted now job_id id status store).1.subscriptions
    → list_gateway_routes unrestricted later ≡ returned routes
    → All (IsElsewhere later installation.id) routes
inactive_unrouted unrestricted now job_id id status item installation store later routes there bound
      found off same listed =
    let left =
      same
      ∙ inactive_subscriptions unrestricted now job_id id status item installation store there bound
          found off in
    let unentitled : is_entitled unrestricted later installation.id ≡ false =
      ap
        (λ (subscriptions : Dict StoredSubscription).
          hosting_entitlement_active unrestricted subscriptions installation.id)
        left
      ∙ off in
    All-implies (IsServed unrestricted later) (IsElsewhere later installation.id) routes
      (served-IsElsewhere unrestricted later installation.id unentitled)
      (routes-IsServed unrestricted later routes listed)
