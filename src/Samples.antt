-- ===== src/Samples.antt =====
-- Records that the tests of several parts start from.
use managed_oss_cloud.Common.{[], ◌∷◌, none, some}
use managed_oss_cloud.Types.{WorkerStatus, InstallationState, ApplicationState}
use managed_oss_cloud.Capacity.{PlanCapacitySnapshot}
use managed_oss_cloud.Store.{Store}
use managed_oss_cloud.Store.Records.{
  Installation, ApplicationInstance, StoredSubscription, StoredWorker, CheckoutCapacityHold,
  HoldState,
}

abbrev pub worker : StoredWorker
worker = record {
  node = record {
    id = "w";
    name = "w";
    status = WorkerStatus.ready;
    private_address = "10.0.0.4";
    machine_type = "e2-standard-2";
    capacity_memory_mb = 4096;
    capacity_cpu_millis = 2000;
    capacity_storage_gb = 50;
    system_reserve_memory_mb = 512;
    reserved_memory_mb = 1024;
    reserved_cpu_millis = 500;
    reserved_storage_gb = 10;
    last_heartbeat_at = 950000;
    created_at = 0;
    updated_at = 0;
  };
  agent_token_hash = "hash";
}

abbrev pub installation : Installation
installation = record {
  id = "i";
  user_id = "u";
  app_ids = "umami" ∷ [];
  name = "Site";
  plan = "starter";
  state = InstallationState.planned;
  hostname = "site.example.org";
  custom_domains = [];
  failure_reason = none;
  worker_node_id = none;
  created_at = 0;
  updated_at = 0;
}

abbrev pub application : ApplicationInstance
application = record {
  id = "a";
  installation_id = "i";
  app_id = "umami";
  state = ApplicationState.queued;
  hostname = "umami.site.example.org";
  container_project = "a";
  custom_domains = [];
  last_health_at = none;
  worker_node_id = none;
  memory_reservation_mb = 416;
  cpu_reservation_millis = 750;
  storage_reservation_gb = 8;
  created_at = 0;
  updated_at = 0;
}

abbrev pub subscription : StoredSubscription
subscription = record {
  id = "s";
  user_id = "u";
  installation_id = some "i";
  provider_subscription_id = some "sub";
  status = "active";
  infrastructure_monthly_cents = 1000;
  platform_fee_monthly_cents = 300;
  installation_plan = some "starter";
}

abbrev pub starter : PlanCapacitySnapshot
starter = record {
  plan_id = "starter";
  memory_mb = 2048;
  cpu_millis = 1000;
  storage_gb = 20;
  max_services = 2;
}

abbrev pub hold : CheckoutCapacityHold
hold = record {
  id = "h";
  user_id = "u";
  installation_id = "i";
  idempotency_key = "k";
  requested_plan = "starter";
  requested_app_ids = "umami" ∷ [];
  infrastructure_monthly_cents = 1000;
  platform_fee_monthly_cents = 300;
  state = HoldState.active;
  stripe_customer_id = some "cus";
  stripe_checkout_session_id = some "cs";
  stripe_checkout_expires_at = some 2000000;
  provider_subscription_id = none;
  expires_at = 2000000;
  consumed_at = none;
  released_at = none;
  expired_at = none;
  release_reason = none;
  created_at = 0;
  updated_at = 0;
  items =
      (record {
        reservation = record {
          application_instance_id = "a";
          app_id = "umami";
          memory_reservation_mb = 416;
          cpu_reservation_millis = 750;
          storage_reservation_gb = 8;
        };
        id = "item";
        hold_id = "h";
        worker_node_id = some "w";
        created_at = 0;
      })
      ∷ [];
  plan_capacity = record {
    snapshot = starter;
    hold_id = "h";
    worker_node_id = "w";
    created_at = 0;
  };
}

abbrev pub empty_store : Store
empty_store = record {
  installations = [];
  applications = [];
  jobs = [];
  stripe_customers = [];
  subscriptions = [];
  stripe_events = [];
  checkout_capacity_holds = [];
  capacity_allocations = [];
  plan_capacity_change_holds = [];
  paid_checkout_capacity_recoveries = [];
  clone_idempotency = [];
  backups = [];
  workers = [];
  hostname_registry = [];
}
