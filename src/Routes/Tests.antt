-- ===== src/Routes/Tests.antt =====
-- One application with a custom domain, and the end of its subscription.
use Prim.Native.Char.{code}
use managed_oss_cloud.Common.{
  ℕ, String, false, List, [], ◌∷◌, none, some, ◌≡◌, refl, ap, arith, inl, inr, eq_iff, All,
  Bool-cases, str_eq,
}
use managed_oss_cloud.Common.Dict
use managed_oss_cloud.Common.Dict.{get, has}
use managed_oss_cloud.Common.Result.{returned}
use managed_oss_cloud.Types.{
  InstallationState, ApplicationState, WorkerStatus, VerificationStatus, JobAction, JobStatus,
  CustomDomain, ProvisioningJob, GatewayRoute,
}
use managed_oss_cloud.Visibility.Values.{end}
use managed_oss_cloud.Hostnames.{
  HostnameClaim, HostnameClaimSurface, HostnameClaimStatus, normalize_hostname, get_claim,
}
use managed_oss_cloud.Store.{Store, hosting_entitlement_active}
use managed_oss_cloud.Store.Records.{
  Installation, ApplicationInstance, StoredSubscription, StoredWorker,
}
use managed_oss_cloud.Entitlement.{update_subscription_status, is_entitled, put_subscription}
use managed_oss_cloud.Entitlement.Suspended.{IsHalted, inactive_halts}
use managed_oss_cloud.Routes.{list_gateway_routes, main_route, domain_route}
use managed_oss_cloud.Routes.Served.{IsServed, routes-IsServed}
use managed_oss_cloud.Routes.Halted.{IsElsewhere, inactive_unrouted}

abbrev worker : StoredWorker
worker = record {
  node = record {
    id = "w";
    name = "w";
    status = WorkerStatus.draining;
    private_address = "10.0.0.4";
    machine_type = "e2-standard-2";
    capacity_memory_mb = 4096;
    capacity_cpu_millis = 2000;
    capacity_storage_gb = 50;
    system_reserve_memory_mb = 512;
    reserved_memory_mb = 1024;
    reserved_cpu_millis = 500;
    reserved_storage_gb = 10;
    last_heartbeat_at = 950000;
    created_at = 0;
    updated_at = 0;
  };
  agent_token_hash = "hash";
}

abbrev installation : Installation
installation = record {
  id = "i";
  user_id = "u";
  app_ids = "umami" ∷ [];
  name = "Site";
  plan = "starter";
  state = InstallationState.live;
  hostname = "site.example.org";
  custom_domains = "shop.example.com" ∷ [];
  failure_reason = none;
  worker_node_id = some "w";
  created_at = 0;
  updated_at = 0;
}

abbrev domain : CustomDomain
domain = record {
  id = "d";
  application_instance_id = "a";
  domain = "shop.example.com";
  verification_status = VerificationStatus.verified;
  ownership = record {
    claim_id = "c";
    txt_name = "_managed-oss.shop.example.com";
    txt_value = "managed-oss-domain-verification=token";
    cname_name = "shop.example.com";
    cname_value = "token.verify.managed.example.net";
  };
  last_checked_at = none;
}

abbrev proof : HostnameClaim
proof = record {
  id = "c";
  hostname = "shop.example.com";
  surface = HostnameClaimSurface.application;
  owner_user_id = "u";
  resource_id = "a";
  challenge_token = "token";
  status = HostnameClaimStatus.verified;
  created_at = 0;
  last_checked_at = none;
  verified_at = some 5;
  tombstoned_at = none;
}

abbrev application : ApplicationInstance
application = record {
  id = "a";
  installation_id = "i";
  app_id = "umami";
  state = ApplicationState.live;
  hostname = "umami.site.example.org";
  container_project = "a";
  custom_domains = domain ∷ [];
  last_health_at = none;
  worker_node_id = some "w";
  memory_reservation_mb = 416;
  cpu_reservation_millis = 750;
  storage_reservation_gb = 8;
  created_at = 0;
  updated_at = 0;
}

abbrev other_application : ApplicationInstance
other_application = record application {
  id = "b";
  installation_id = "k";
  hostname = "umami.other.example.org";
  custom_domains = [];
}

abbrev subscription : StoredSubscription
subscription = record {
  id = "s";
  user_id = "u";
  installation_id = some "i";
  provider_subscription_id = some "sub";
  status = "active";
  infrastructure_monthly_cents = 1000;
  platform_fee_monthly_cents = 300;
  installation_plan = some "starter";
}

abbrev upgrade_job : ProvisioningJob
upgrade_job = record {
  id = "j";
  installation_id = "i";
  action = JobAction.upgrade;
  status = JobStatus.running;
  attempts = 1;
  payload = end;
  worker_node_id = some "w";
  lease_expires_at = some 960000;
  created_at = 0;
}

abbrev store : Store
store = record {
  installations = ("i", installation) ∷ ("k", record installation { id = "k" }) ∷ [];
  applications = ("a", application) ∷ ("b", other_application) ∷ [];
  jobs = ("j", upgrade_job) ∷ [];
  stripe_customers = [];
  subscriptions =
      ("sub", subscription) ∷ ("more", record subscription { installation_id = some "k" }) ∷ [];
  stripe_events = [];
  checkout_capacity_holds = [];
  capacity_allocations = [];
  plan_capacity_change_holds = [];
  paid_checkout_capacity_recoveries = [];
  clone_idempotency = [];
  backups = [];
  workers = ("w", worker) ∷ [];
  hostname_registry = ("shop.example.com", proof) ∷ [];
}

abbrev routes : List GatewayRoute
routes =
    main_route application worker.node
    ∷ domain_route application worker.node domain
    ∷ main_route other_application worker.node
    ∷ []

listed : list_gateway_routes false store ≡ returned routes
unfolding list_gateway_routes hosting_entitlement_active get_claim normalize_hostname Dict.get
    Dict.values
listed = refl

routes-IsServed_example : All (IsServed false store) routes
routes-IsServed_example = routes-IsServed false store routes listed

abbrev job_id : String → String
job_id a = lettered "k" a
  where
    lettered : String → String → String
    lettered String.[] s = s
    lettered (String.◌∷◌ c _) s = String.◌∷◌ c s

job_id-different : (a b : String) → job_id a ≡ job_id b → a ≡ b
job_id-different a b h = cc

first_code : String → ℕ
first_code String.[] = 0
first_code (String.◌∷◌ c s) = code c

new_job_id : (a : String) → has store.jobs (job_id a) ≡ false
unfolding has first_code
new_job_id a = elim (Bool-cases (str_eq "j" (job_id a))) [
  | inl b ↦ ground (arith, ap first_code ((eq_iff "j" (job_id a)).0 b))
  | inr b ↦ rw b refl
]

there : get store.subscriptions "sub" ≡ some subscription
unfolding get
there = refl

found : get store.installations "i" ≡ some installation
unfolding get
found = refl

unpaid :
    is_entitled false
      (put_subscription store "sub" (record subscription { status = "canceled" }))
      "i"
    ≡ false
unfolding hosting_entitlement_active Dict.set Dict.values
unpaid = refl

abbrev after : Store
after = (update_subscription_status false 1000 job_id "sub" "canceled" store).1

inactive_halts_example : IsHalted false after "i"
inactive_halts_example =
    inactive_halts false 1000 job_id job_id-different "sub" "canceled" subscription installation
      store there refl found new_job_id unpaid

abbrev other_route : GatewayRoute
other_route = main_route other_application worker.node

-- Even where the installation is live again, it has no route without a subscription.
abbrev later : Store
later = record after { installations = store.installations }

other_listed : list_gateway_routes false later ≡ returned (other_route ∷ [])
unfolding list_gateway_routes update_subscription_status hosting_entitlement_active get_claim
    Dict.get Dict.set Dict.values Dict.update_all
other_listed = refl

inactive_unrouted_example : All (IsElsewhere later "i") (other_route ∷ [])
inactive_unrouted_example =
    inactive_unrouted false 1000 job_id "sub" "canceled" subscription installation store later
      (other_route ∷ []) there refl found unpaid refl other_listed
