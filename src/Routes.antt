-- ===== src/Routes.antt =====
-- The routes that `MemoryRepository` of server/repository.ts gives the gateway and the worker
-- nodes: which applications are reachable, and under which hostnames.
pub mod Checks
pub mod Served
pub mod Halted
mod Tests
use managed_oss_cloud.Common.{
  ℕ, String, Bool, true, false, not, ◌&&◌, ◌||◌, List, [], ◌∷◌, ◌++◌, Option, none, some, map, keep,
  given, str_eq, if◌then◌else◌,
}
use managed_oss_cloud.Common.Dict.{Dict, get, values}
use managed_oss_cloud.Common.Result.{Result, thrown, returned, ◌>>=◌}
use managed_oss_cloud.Types.{
  InstallationState, WorkerStatus, VerificationStatus, WorkerNode, CustomDomain, GatewayRoute,
  WorkerNodeRoute, ready, draining,
}
use managed_oss_cloud.Hostnames.{
  HostnameClaim, HostnameClaimSurface, application, suite, get_claim, is_proved,
}
use managed_oss_cloud.Store.{Store, hosting_entitlement_active}
use managed_oss_cloud.Store.Records.{Installation, ApplicationInstance, StoredWorker}
use managed_oss_cloud.Entitlement.{is_live, is_entitled}

abbrev pub installation_is_live : Option Installation → Bool
installation_is_live none = false
installation_is_live (some i) = live_state i.state
  where
    live_state : InstallationState → Bool
    live_state InstallationState.live = true
    live_state _ = false

-- `["ready", "draining"].includes(status)`
abbrev pub serves : WorkerStatus → Bool
serves ready = true
serves draining = true
serves _ = false

-- `["verified", "active"].includes(verificationStatus)`
abbrev pub is_checked : VerificationStatus → Bool
is_checked VerificationStatus.verified = true
is_checked VerificationStatus.active = true
is_checked _ = false

abbrev pub is_application : HostnameClaimSurface → Bool
is_application application = true
is_application suite = false

-- The claim of a custom domain is still the application's, and proved.
abbrev pub holds_claim : ApplicationInstance → CustomDomain → Option HostnameClaim → Bool
holds_claim app item none = false
holds_claim app item (some claim) =
    is_checked item.verification_status
    && str_eq claim.id item.ownership.claim_id
    && is_application claim.surface
    && str_eq claim.resource_id app.id
    && is_proved claim.status

abbrev pub main_route : ApplicationInstance → WorkerNode → GatewayRoute
main_route app worker = record {
  hostname = app.hostname;
  upstream_host = app.hostname;
  ownership = none;
  worker_private_address = worker.private_address;
  worker_node_id = worker.id;
  application_instance_id = app.id;
  app_id = app.app_id;
}

abbrev pub domain_route : ApplicationInstance → WorkerNode → CustomDomain → GatewayRoute
domain_route app worker item = record (main_route app worker) {
  hostname = item.domain;
  ownership = some item.ownership;
}

-- The loop over the custom domains; the registry throws on a domain that is no hostname.
pub domain_routes :
    Dict HostnameClaim
    → ApplicationInstance
    → WorkerNode
    → List CustomDomain
    → Result (List GatewayRoute)
domain_routes registry app worker [] = returned []
domain_routes registry app worker (item ∷ items) = do
  claim ← get_claim item.domain registry
  routes ← domain_routes registry app worker items
  returned (if holds_claim app item claim then domain_route app worker item ∷ routes else routes)

pub worker_routes :
    Dict HostnameClaim → ApplicationInstance → Option StoredWorker → Result (List GatewayRoute)
unfolding domain_routes
worker_routes registry app none = returned []
worker_routes registry app (some worker) =
    if not (serves worker.node.status)
    then returned []
    else domain_routes registry app worker.node app.custom_domains >>= λ routes.
        returned (main_route app worker.node ∷ routes)

abbrev worker_of : Store → Option String → Option StoredWorker
worker_of store none = none
worker_of store (some id) = get store.workers id

module _ (unrestricted : Bool) where
  -- The application and its installation are live and paid for.
  abbrev pub is_reachable : Store → ApplicationInstance → Bool
  is_reachable store app =
      is_live app.state
      && installation_is_live (get store.installations app.installation_id)
      && is_entitled unrestricted store app.installation_id

  pub application_routes : Store → ApplicationInstance → Result (List GatewayRoute)
  unfolding worker_routes
  application_routes store app =
      if not (is_reachable store app) || not (given app.worker_node_id)
      then returned []
      else worker_routes store.hostname_registry app (worker_of store app.worker_node_id)

  pub routes_of_each : Store → List ApplicationInstance → Result (List GatewayRoute)
  unfolding application_routes
  routes_of_each store [] = returned []
  routes_of_each store (app ∷ apps) = do
    routes ← application_routes store app
    more ← routes_of_each store apps
    returned (routes ++ more)

  unfoldable pub list_gateway_routes : Store → Result (List GatewayRoute)
  unfolding routes_of_each
  list_gateway_routes store = routes_of_each store (values store.applications)

  abbrev pub on_node : String → Store → ApplicationInstance → Bool
  on_node node_id store app = runs_on app.worker_node_id && is_reachable store app
    where
      runs_on : Option String → Bool
      runs_on none = false
      runs_on (some worker) = str_eq worker node_id

  unfoldable pub list_worker_node_routes : String → Store → List WorkerNodeRoute
  list_worker_node_routes node_id store =
      map
        (λ (app : ApplicationInstance). record {
          application_instance_id = app.id;
          hostname = app.hostname;
          container_project = app.container_project;
          app_id = app.app_id;
        })
        (keep (on_node node_id store) (values store.applications))
