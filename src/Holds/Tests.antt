-- ===== src/Holds/Tests.antt =====
-- A request for one application, on one worker.
use mathlib.Core.List.{Memᴰ}
use mathlib.Core.Path.{subst}
use managed_oss_cloud.Common.{
  ℕ, ◌+◌, ◌≤◌, String, Bool, false, [], ◌∷◌, Option, none, some, ◌≡◌, refl, sym, arith,
}
use managed_oss_cloud.Common.Dict
use managed_oss_cloud.Common.Dict.{get, values}
use managed_oss_cloud.Common.Int.{◌-ℤ◌}
use managed_oss_cloud.Common.Number.{fractions, add_number}
use managed_oss_cloud.Common.Result.{Result}
use managed_oss_cloud.Common.Sort.{sort}
use managed_oss_cloud.Types.{WorkerStatus, InstallationState, ApplicationState}
use managed_oss_cloud.Capacity.{
  plan_capacity_snapshot, application_capacity_usage, capacity_envelope_fit,
}
use managed_oss_cloud.Pricing.{PricingPolicy, platform_fee_for}
use managed_oss_cloud.Placement.{allocate_capacity, bin_of}
use managed_oss_cloud.Store.{Store, check_configured_plan}
use managed_oss_cloud.Store.Records.{
  Installation, ApplicationInstance, StoredWorker, CheckoutCapacityHold,
  AcquireCheckoutCapacityHoldInput, released,
}
use managed_oss_cloud.Holds.{
  expire_checkout_capacity_holds, workers_with_active_checkout_holds,
  release_checkout_capacity_hold,
}
use managed_oss_cloud.Holds.Acquire.{acquire_checkout_capacity_hold, eligible_workers}
use managed_oss_cloud.Holds.Held.{held, committed, capacity}
use managed_oss_cloud.Placement.Resources.{Kind, memory, cpu, storage}
use managed_oss_cloud.Holds.NoOvercommit.{NoOvercommit, acquire-NoOvercommit}
use managed_oss_cloud.Holds.OneActive.{OneActive, Reachable-OneActive}
use managed_oss_cloud.Holds.Ended.{ended_unchanged}
use managed_oss_cloud.Holds.Steps.{Step, Reachable}
use managed_oss_cloud.Holds.Steps

abbrev policy : PricingPolicy (ℕ × ℕ)
policy = record {
  plans =
      (record {
        id = "starter";
        label = "Starter";
        memory_mb = (2048, 1);
        cpu = (1, 1);
        storage_gb = 20;
        max_services = 2;
        infrastructure_monthly_cents = 1000;
        monthly_cents = 1300;
      })
      ∷ [];
  platform_fee_percent = (30, 1);
  platform_fee_minimum_cents = 200;
  system_reserve_mb = 512;
  maximum_safe_utilization = (3, 4);
}

abbrev worker : StoredWorker
worker = record {
  node = record {
    id = "w";
    name = "w";
    status = WorkerStatus.ready;
    private_address = "10.0.0.4";
    machine_type = "e2-standard-2";
    capacity_memory_mb = 4096;
    capacity_cpu_millis = 2000;
    capacity_storage_gb = 50;
    system_reserve_memory_mb = 512;
    reserved_memory_mb = 1024;
    reserved_cpu_millis = 500;
    reserved_storage_gb = 10;
    last_heartbeat_at = 950000;
    created_at = 0;
    updated_at = 0;
  };
  agent_token_hash = "hash";
}

abbrev installation : Installation
installation = record {
  id = "i";
  user_id = "u";
  app_ids = "umami" ∷ [];
  name = "Site";
  plan = "starter";
  state = InstallationState.planned;
  hostname = "site.example.org";
  custom_domains = [];
  failure_reason = none;
  worker_node_id = none;
  created_at = 0;
  updated_at = 0;
}

abbrev application : ApplicationInstance
application = record {
  id = "a";
  installation_id = "i";
  app_id = "umami";
  state = ApplicationState.queued;
  hostname = "umami.site.example.org";
  container_project = "a";
  custom_domains = [];
  last_health_at = none;
  worker_node_id = none;
  memory_reservation_mb = 416;
  cpu_reservation_millis = 750;
  storage_reservation_gb = 8;
  created_at = 0;
  updated_at = 0;
}

abbrev store : Store
store = record {
  installations = ("i", installation) ∷ [];
  applications = ("a", application) ∷ [];
  jobs = [];
  stripe_customers = [];
  subscriptions = [];
  stripe_events = [];
  checkout_capacity_holds = [];
  capacity_allocations = [];
  plan_capacity_change_holds = [];
  paid_checkout_capacity_recoveries = [];
  clone_idempotency = [];
  backups = [];
  workers = ("w", worker) ∷ [];
  hostname_registry = [];
}

abbrev input : AcquireCheckoutCapacityHoldInput
input = record {
  user_id = "u";
  installation_id = "i";
  idempotency_key = "k";
  requested_plan = "starter";
  requested_app_ids = "umami" ∷ [];
  infrastructure_monthly_cents = 1000;
  platform_fee_monthly_cents = 300;
  expires_at = some 2000000;
  reservations =
      (record {
        application_instance_id = "a";
        app_id = "umami";
        memory_reservation_mb = 416;
        cpu_reservation_millis = 750;
        storage_reservation_gb = 8;
      })
      ∷ [];
  plan_capacity = record {
    plan_id = "starter";
    memory_mb = 2048;
    cpu_millis = 1000;
    storage_gb = 20;
    max_services = 2;
  };
}

abbrev by_nothing : String → String → Bool
by_nothing a b = false

abbrev item_id : ℕ → String
item_id n = "item"

abbrev after : Result (Option CheckoutCapacityHold) × Store
after = acquire_checkout_capacity_hold by_nothing fractions policy 1000000 item_id "h" input store

-- The hold takes 416 MB of the worker.
hold_runs : held memory "w" after.1 ≡ 416
unfolding platform_fee_for acquire_checkout_capacity_hold check_configured_plan
    plan_capacity_snapshot application_capacity_usage add_number capacity_envelope_fit
    eligible_workers workers_with_active_checkout_holds expire_checkout_capacity_holds
    allocate_capacity bin_of sort ◌-ℤ◌ Dict.get Dict.set Dict.values Dict.update_all
hold_runs = refl

within_at : (k : Kind) → committed k worker.node + held k "w" store ≤ capacity k worker.node
unfolding values
within_at memory = omega arith
within_at cpu = omega arith
within_at storage = omega arith

within : NoOvercommit store
unfolding values
within x k (Memᴰ.head e) =
    subst (λ (y : StoredWorker). committed k y.node + held k y.node.id store ≤ capacity k y.node)
      (sym e) (within_at k)
within x k (Memᴰ.tail m) = elim m [ ]

acquire-NoOvercommit_example : NoOvercommit after.1
unfolding values
acquire-NoOvercommit_example =
    acquire-NoOvercommit by_nothing 1000000 item_id "h" input store fractions policy (tt, tt) within

no_hold : get store.checkout_capacity_holds "h" ≡ none
unfolding get
no_hold = refl

Reachable-OneActive_example : OneActive after.1
Reachable-OneActive_example = Reachable-OneActive by_nothing fractions policy after.1 (
    Steps.step store after.1 (Steps.start store refl)
      (Steps.acquire 1000000 item_id "h" input store no_hold))

abbrev ended : CheckoutCapacityHold
ended = record {
  id = "h";
  user_id = "u";
  installation_id = "i";
  idempotency_key = "k";
  requested_plan = "starter";
  requested_app_ids = "umami" ∷ [];
  infrastructure_monthly_cents = 1000;
  platform_fee_monthly_cents = 300;
  state = released;
  stripe_customer_id = none;
  stripe_checkout_session_id = none;
  stripe_checkout_expires_at = none;
  provider_subscription_id = none;
  expires_at = 2000000;
  consumed_at = none;
  released_at = some 1500000;
  expired_at = none;
  release_reason = some "Cancelled.";
  created_at = 1000000;
  updated_at = 1500000;
  items = [];
  plan_capacity = record {
    snapshot = input.plan_capacity;
    hold_id = "h";
    worker_node_id = "w";
    created_at = 1000000;
  };
}

abbrev ended_store : Store
ended_store = record store { checkout_capacity_holds = ("h", ended) ∷ [] }

is_there : get ended_store.checkout_capacity_holds "h" ≡ some ended
unfolding get
is_there = refl

ended_unchanged_example :
    get
      (release_checkout_capacity_hold 2500000 "h" "u" "again" ended_store).1.checkout_capacity_holds
      "h"
    ≡ some ended
ended_unchanged_example =
    ended_unchanged by_nothing fractions policy ended_store
      (release_checkout_capacity_hold 2500000 "h" "u" "again" ended_store).1 "h" ended
      (Steps.release 2500000 "h" "u" "again" ended_store) refl is_there
