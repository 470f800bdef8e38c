-- ===== src/Checkout/Fulfil.antt =====
-- `fulfillPaidCheckout` of server/repository.ts. What was written before an error stays written.
use managed_oss_cloud.Common.{
  ℕ, suc, ◌+◌, String, Bool, true, false, List, [], ◌∷◌, Option, none, some, find, str_eq,
  if◌then◌else◌,
}
use managed_oss_cloud.Common.Dict.{Dict, get, set}
use managed_oss_cloud.Common.Result.{Result, thrown, returned}
use managed_oss_cloud.Common.Sort.{sort}
use managed_oss_cloud.Types.{
  WorkerNode, InstallationState, JobAction, JobStatus, ProvisioningJob, is_ready,
}
use managed_oss_cloud.Visibility.Values.{Fields, text, end, entry}
use managed_oss_cloud.Store.{Store, is_active}
use managed_oss_cloud.Store.Records.{
  Installation, ApplicationInstance, StoredSubscription, StoredWorker, CheckoutCapacityHold,
  CheckoutCapacityHoldItem, InstallationCapacityAllocation, PaidCheckoutCapacityRecovery,
  AllocationState, HoldState, RecoveryState,
}
use managed_oss_cloud.Placement.{CheckoutCapacityReservation}
use managed_oss_cloud.Holds.{workers_with_active_checkout_holds}
use managed_oss_cloud.Jobs.{put_job}

pub record ProcessPaidCheckoutInput : Type 0 where
  pub event_id : String
  pub hold_id : String
  pub user_id : String
  pub installation_id : String
  pub stripe_checkout_session_id : String
  pub stripe_customer_id : String
  pub provider_subscription_id : String
  pub infrastructure_monthly_cents : ℕ
  pub platform_fee_monthly_cents : ℕ
  pub compensation_deadline_at : Option (Option ℕ)

-- The identifiers that are drawn: that of a job depends on its application.
pub record Draws : Type 0 where
  pub allocation : String
  pub subscription : String
  pub recovery : String
  pub job : String → String

abbrev pub new_allocation :
    ℕ → String → String → Installation → CheckoutCapacityHold → InstallationCapacityAllocation
new_allocation now id affinity installation hold = record {
  snapshot = hold.plan_capacity.snapshot;
  id = id;
  installation_id = installation.id;
  worker_node_id = affinity;
  generation = 1;
  state = AllocationState.active;
  source_checkout_hold_id = some hold.id;
  suspended_at = none;
  released_at = none;
  release_reason = none;
  created_at = now;
  updated_at = now;
}

abbrev pub reserved_for : CheckoutCapacityReservation → StoredWorker → StoredWorker
reserved_for r worker = record worker {
  node = record worker.node {
    reserved_memory_mb = worker.node.reserved_memory_mb + r.memory_reservation_mb;
    reserved_cpu_millis = worker.node.reserved_cpu_millis + r.cpu_reservation_millis;
    reserved_storage_gb = worker.node.reserved_storage_gb + r.storage_reservation_gb;
  };
}

abbrev recovery_field : Option PaidCheckoutCapacityRecovery → Fields
recovery_field none = end
recovery_field (some recovery) = entry "paidCapacityRecoveryId" (text recovery.id) end

abbrev pub install_job :
    ℕ
    → Draws
    → ProcessPaidCheckoutInput
    → Installation
    → CheckoutCapacityHold
    → Option PaidCheckoutCapacityRecovery
    → String
    → String
    → ProvisioningJob
install_job now draws input installation hold recovery app_id worker = record {
  id = draws.job app_id;
  installation_id = installation.id;
  action = JobAction.install;
  status = JobStatus.queued;
  attempts = 0;
  payload = entry "stripeEventId" (text input.event_id) (
      entry "capacityHoldId" (text hold.id)
        (entry "applicationInstanceId" (text app_id) (recovery_field recovery)));
  worker_node_id = some worker;
  lease_expires_at = none;
  created_at = now;
}

-- The worker that an application was assigned, if it is there and has a name.
abbrev pub assigned_worker : Store → Option String → Option (String × StoredWorker)
assigned_worker store none = none
assigned_worker store (some id) = elim (get store.workers id) [
  | none ↦ none
  | some worker ↦ if str_eq id "" then none else some (id, worker)
]

abbrev pub put_worker_of : Store → String → StoredWorker → Store
put_worker_of store id worker = record store { workers = set store.workers id worker }

abbrev pub put_application : Store → ApplicationInstance → Store
put_application store app = record store { applications = set store.applications app.id app }

module _ (now : ℕ) (draws : Draws) (input : ProcessPaidCheckoutInput) (installation : Installation)
    (hold : CheckoutCapacityHold) (recovery : Option PaidCheckoutCapacityRecovery) where
  -- One round of the loop over the items; `none` is an application that is not there, whose fields
  -- cannot be set.
  unfoldable pub place_item :
      Store
      → CheckoutCapacityHoldItem
      → Option (String × StoredWorker)
      → Option ApplicationInstance
      → Result (Unit {0}) × Store
  place_item store item none app =
      (thrown "A paid checkout application lost its atomic worker placement.", store)
  place_item store item (some (id, worker)) none =
      (thrown "TypeError", put_worker_of store id (reserved_for item.reservation worker))
  place_item store item (some (id, worker)) (some app) = (
    returned tt,
    put_job
        (put_application (put_worker_of store id (reserved_for item.reservation worker))
          (record app { worker_node_id = some id; updated_at = now }))
        (install_job now draws input installation hold recovery app.id id),
  )

  unfoldable pub place_items :
      Dict String → List CheckoutCapacityHoldItem → Store → Result (Unit {0}) × Store
  unfolding place_item
  place_items assignments [] store = (returned tt, store)
  place_items assignments (item ∷ items) store =
      let app_id = item.reservation.application_instance_id in
      let (outcome, next) =
        place_item store item (assigned_worker store (get assignments app_id))
          (get store.applications app_id) in
      let later = place_items assignments items next in
      elim outcome [ thrown message ↦ (thrown message, next) | returned _ ↦ later ]

  abbrev pub existing_id : Option StoredSubscription → String
  existing_id none = draws.subscription
  existing_id (some s) = s.id

  abbrev pub paid_subscription : Store → StoredSubscription
  paid_subscription store = record {
    id = existing_id (get store.subscriptions input.provider_subscription_id);
    user_id = input.user_id;
    installation_id = some input.installation_id;
    provider_subscription_id = some input.provider_subscription_id;
    status = "active";
    infrastructure_monthly_cents = input.infrastructure_monthly_cents;
    platform_fee_monthly_cents = input.platform_fee_monthly_cents;
    installation_plan = some installation.plan;
  }

  abbrev pub is_empty : List CheckoutCapacityHoldItem → Bool
  is_empty [] = true
  is_empty (item ∷ items) = false

  abbrev pub consumed_hold : CheckoutCapacityHold
  consumed_hold = record hold {
    state = HoldState.consumed;
    provider_subscription_id = some input.provider_subscription_id;
    consumed_at = some now;
    updated_at = now;
  }

  abbrev pub fulfilled_recovery : PaidCheckoutCapacityRecovery → PaidCheckoutCapacityRecovery
  fulfilled_recovery r = record r {
    state = RecoveryState.fulfilled;
    attempt_count = suc r.attempt_count;
    last_attempt_at = some now;
    fulfilled_at = some now;
    last_error = none;
    updated_at = now;
  }

  abbrev pub with_recovery : Option PaidCheckoutCapacityRecovery → Store → Store
  with_recovery none store = store
  with_recovery (some r) store = record store {
    paid_checkout_capacity_recoveries =
        set store.paid_checkout_capacity_recoveries r.provider_subscription_id
          (fulfilled_recovery r);
  }

  -- the writes after the loop
  unfoldable pub conclude : String → Store → Store
  conclude affinity store = with_recovery recovery (record store {
    subscriptions =
        set store.subscriptions input.provider_subscription_id (paid_subscription store);
    installations = set store.installations installation.id (record installation {
      state =
          if is_empty hold.items then InstallationState.live else InstallationState.provisioning;
      worker_node_id = some affinity;
      updated_at = now;
    });
    checkout_capacity_holds =
        if is_active hold.state
        then set store.checkout_capacity_holds hold.id consumed_hold
        else store.checkout_capacity_holds;
  })

  abbrev pub concluded : String → Result (Unit {0}) × Store → Result (Unit {0}) × Store
  concluded affinity (thrown message, store) = (thrown message, store)
  concluded affinity (returned _, store) = (returned tt, conclude affinity store)

  unfoldable pub fulfill_on :
      Dict String
      → List CheckoutCapacityHoldItem
      → Store
      → Option String
      → Result (Unit {0}) × Store
  unfolding place_items conclude
  fulfill_on assignments items store none =
      (thrown "No healthy worker is available for the paid plan affinity.", store)
  fulfill_on assignments items store (some affinity) =
      if str_eq affinity ""
      then (thrown "No healthy worker is available for the paid plan affinity.", store)
      else concluded affinity (
          place_items assignments items (record store {
            capacity_allocations =
                set store.capacity_allocations installation.id
                  (new_allocation now draws.allocation affinity installation hold);
          }))

abbrev first_ready : List WorkerNode → Option String
first_ready workers = elim (find (λ (w : WorkerNode). is_ready w.status) workers) [
  | none ↦ none
  | some worker ↦ some worker.id
]

-- `assignments.values().next().value ?? …find(…)?.id`
abbrev pub affinity_of : Dict String → List WorkerNode → Option String
affinity_of [] workers = first_ready workers
affinity_of ((app_id, worker) ∷ assignments) workers = some worker

module _ (locale_before : String → String → Bool) where
  abbrev pub by_item : CheckoutCapacityHoldItem → CheckoutCapacityHoldItem → Bool
  by_item l r =
      locale_before l.reservation.application_instance_id r.reservation.application_instance_id

  -- An installation that is not there cannot be read.
  unfoldable pub fulfill_paid_checkout :
      ℕ
      → Draws
      → ProcessPaidCheckoutInput
      → CheckoutCapacityHold
      → Dict String
      → Option PaidCheckoutCapacityRecovery
      → Store
      → Result (Unit {0}) × Store
  unfolding fulfill_on
  fulfill_paid_checkout now draws input hold assignments recovery store =
      elim (get store.installations input.installation_id) [
        | none ↦ (thrown "TypeError", store)
        | some installation ↦
            fulfill_on now draws input installation hold recovery assignments
              (sort by_item hold.items) store
              (affinity_of assignments (workers_with_active_checkout_holds now store))
      ]
