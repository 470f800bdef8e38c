-- ===== src/Resize/Tests.antt =====
-- A resize from the starter plan to a larger one, confirmed twice.
use managed_oss_cloud.Common.{ℕ, String, [], ◌∷◌, none, some, ◌≡◌, refl}
use managed_oss_cloud.Common.Dict
use managed_oss_cloud.Common.Dict.{get}
use managed_oss_cloud.Types.{InstallationState}
use managed_oss_cloud.Common.Number.{fractions, add_number}
use managed_oss_cloud.Common.Result.{returned}
use managed_oss_cloud.Capacity.{
  PlanCapacitySnapshot, plan_capacity_snapshot, application_capacity_usage, capacity_envelope_fit,
  positive_capacity_delta,
}
use managed_oss_cloud.Pricing.{PricingPolicy, platform_fee_for}
use managed_oss_cloud.Store.{Store, check_configured_plan}
use managed_oss_cloud.Store.Records.{
  Installation, StoredSubscription, InstallationCapacityAllocation, PlanCapacityChangeHold,
  AcquirePlanCapacityChangeHoldInput, HoldState, AllocationState,
}
use managed_oss_cloud.Resize.{
  expire_plan_capacity_change_holds, acquire_plan_capacity_change_hold,
  consume_plan_capacity_change_hold, resized,
}
use managed_oss_cloud.Resize.Once.{consume_once, generation_step, Moved}
use managed_oss_cloud.Resize.Growth.{IsHeldOrCovering, acquire_covers_growth}

abbrev plan_capacity : String → ℕ → PlanCapacitySnapshot
plan_capacity id memory = record {
  plan_id = id;
  memory_mb = memory;
  cpu_millis = 2000;
  storage_gb = 40;
  max_services = 4;
}

abbrev installation : Installation
installation = record {
  id = "i";
  user_id = "u";
  app_ids = "umami" ∷ [];
  name = "Site";
  plan = "starter";
  state = InstallationState.live;
  hostname = "site.example.org";
  custom_domains = [];
  failure_reason = none;
  worker_node_id = some "w";
  created_at = 0;
  updated_at = 0;
}

abbrev allocation : InstallationCapacityAllocation
allocation = record {
  snapshot = plan_capacity "starter" 2048;
  id = "alloc";
  installation_id = "i";
  worker_node_id = "w";
  generation = 1;
  state = AllocationState.active;
  source_checkout_hold_id = some "h";
  suspended_at = none;
  released_at = none;
  release_reason = none;
  created_at = 0;
  updated_at = 0;
}

abbrev subscription : StoredSubscription
subscription = record {
  id = "s";
  user_id = "u";
  installation_id = some "i";
  provider_subscription_id = some "sub";
  status = "active";
  infrastructure_monthly_cents = 1000;
  platform_fee_monthly_cents = 300;
  installation_plan = some "starter";
}

abbrev hold : PlanCapacityChangeHold
hold = record {
  snapshot = plan_capacity "scale" 6144;
  id = "c";
  user_id = "u";
  installation_id = "i";
  allocation_id = "alloc";
  idempotency_key = "k";
  expected_generation = 1;
  from_plan = "starter";
  worker_node_id = "w";
  reserved_delta_memory_mb = 4096;
  reserved_delta_cpu_millis = 0;
  reserved_delta_storage_gb = 0;
  infrastructure_monthly_cents = 4300;
  platform_fee_monthly_cents = 1290;
  provider_subscription_id = "sub";
  state = HoldState.active;
  expires_at = 2000;
  consumed_at = none;
  released_at = none;
  expired_at = none;
  release_reason = none;
  provider_committed_at = none;
  provider_confirmation_source = none;
  created_at = 0;
  updated_at = 0;
}

abbrev store : Store
store = record {
  installations = ("i", installation) ∷ [];
  applications = [];
  jobs = [];
  stripe_customers = [];
  subscriptions = ("sub", subscription) ∷ [];
  stripe_events = [];
  checkout_capacity_holds = [];
  capacity_allocations = ("i", allocation) ∷ [];
  plan_capacity_change_holds = ("c", hold) ∷ [];
  paid_checkout_capacity_recoveries = [];
  clone_idempotency = [];
  backups = [];
  workers = [];
  hostname_registry = [];
}

-- The hold is overdue at 3000, and the provider's confirmation still applies it.
late_confirmation :
    (consume_plan_capacity_change_hold 3000 "c" "u" " webhook " store).0
    ≡ some (resized 3000 hold allocation)
unfolding consume_plan_capacity_change_hold expire_plan_capacity_change_holds Dict.get Dict.set
    Dict.update_all
late_confirmation = refl

-- The installation has been deleted meanwhile.
abbrev later : Store
later = record ((consume_plan_capacity_change_hold 3000 "c" "u" " webhook " store).1) {
  installations = [];
}

consume_once_example :
    let again = consume_plan_capacity_change_hold 4000 "c" "u" "retry" later in
    (again.0 ≡ some (resized 3000 hold allocation))
    × (again.1.capacity_allocations ≡ later.capacity_allocations)
    × (again.1.installations ≡ later.installations)
    × (again.1.subscriptions ≡ later.subscriptions)
consume_once_example =
    consume_once 3000 "c" "u" " webhook " store (resized 3000 hold allocation) 4000 "u" "retry"
      later late_confirmation refl refl

starter : get store.capacity_allocations "i" ≡ some allocation
unfolding get
starter = refl

generation_step_example :
    (b : InstallationCapacityAllocation) × (get
        (consume_plan_capacity_change_hold 3000 "c" "u" " webhook " store).1.capacity_allocations
        "i"
      ≡ some b)
    × Moved "c" "u" (expire_plan_capacity_change_holds 3000 store) "i" allocation b
generation_step_example = generation_step 3000 "c" "u" " webhook " store "i" allocation starter

abbrev policy : PricingPolicy (ℕ × ℕ)
policy = record {
  plans =
      (record {
        id = "scale";
        label = "Scale";
        memory_mb = (6144, 1);
        cpu = (2, 1);
        storage_gb = 40;
        max_services = 4;
        infrastructure_monthly_cents = 4300;
        monthly_cents = 4816;
      })
      ∷ [];
  platform_fee_percent = (12, 1);
  platform_fee_minimum_cents = 200;
  system_reserve_mb = 512;
  maximum_safe_utilization = (8, 10);
}

abbrev request : AcquirePlanCapacityChangeHoldInput
request = record {
  user_id = "u";
  installation_id = "i";
  idempotency_key = "k";
  requested = plan_capacity "scale" 6144;
  infrastructure_monthly_cents = 4300;
  platform_fee_monthly_cents = 516;
  provider_subscription_id = "sub";
  expires_at = some 2000;
  memory_safety_reserve_mb = 512;
}

abbrev unheld : Store
unheld = record store { plan_capacity_change_holds = [] }

abbrev acquired : PlanCapacityChangeHold
acquired = record hold { platform_fee_monthly_cents = 516; created_at = 1000; updated_at = 1000 }

acquire_runs :
    (acquire_plan_capacity_change_hold fractions policy 1000 "c" request unheld).0
    ≡ returned (some acquired)
unfolding acquire_plan_capacity_change_hold expire_plan_capacity_change_holds check_configured_plan
    platform_fee_for plan_capacity_snapshot application_capacity_usage capacity_envelope_fit
    positive_capacity_delta add_number Dict.get Dict.set Dict.values Dict.update_all
acquire_runs = refl

acquire_covers_growth_example :
    IsHeldOrCovering (expire_plan_capacity_change_holds 1000 unheld) request acquired
acquire_covers_growth_example =
    acquire_covers_growth fractions policy 1000 "c" request unheld acquired acquire_runs
