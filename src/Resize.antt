-- ===== src/Resize.antt =====
-- The plan capacity change holds of `MemoryRepository`, server/repository.ts: a resize holds the
-- target plan while the payment provider confirms it, and is consumed once.
pub mod Consumed
pub mod Once
pub mod Growth
mod Tests
use Prim.Native.String
use managed_oss_cloud.Common.{
  ℕ, ◌+◌, String, Bool, true, false, not, ◌&&◌, ◌||◌, List, [], ◌∷◌, Option, none, some, leb, ltb,
  ◌==◌, any, find, keep, map, given, has_ink, str_eq, trim, if◌then◌else◌,
}
use managed_oss_cloud.Common.Dict.{Dict, get, set, values, update_all}
use managed_oss_cloud.Common.Number.{NumberOps}
use managed_oss_cloud.Common.Result.{Result, thrown, returned, throw_if, ◌>>=◌, ◌>>◌}
use managed_oss_cloud.Capacity.{
  CapacityVector, PlanCapacitySnapshot, CapacityReservation, application_capacity_usage,
  capacity_envelope_fit, positive_capacity_delta,
}
use managed_oss_cloud.Pricing.{PricingPolicy}
use managed_oss_cloud.Store.{
  Store, is_active, is_given, in_future, slice, same_plan_capacity, check_configured_plan,
  is_entitled_status, is_active_allocation,
}
use managed_oss_cloud.Store.Records.{
  Installation, ApplicationInstance, StoredSubscription, InstallationCapacityAllocation,
  PlanCapacityChangeHold, AcquirePlanCapacityChangeHoldInput, HoldState, AllocationState,
}

abbrev pub expire_change_hold : ℕ → PlanCapacityChangeHold → PlanCapacityChangeHold
expire_change_hold now hold =
    if is_active hold.state && leb hold.expires_at now
    then record hold { state = HoldState.expired; expired_at = some now; updated_at = now }
    else hold

unfoldable pub expire_plan_capacity_change_holds : ℕ → Store → Store
expire_plan_capacity_change_holds now store = record store {
  plan_capacity_change_holds = update_all (expire_change_hold now) store.plan_capacity_change_holds;
}

abbrev owned_allocation :
    String
    → Option InstallationCapacityAllocation
    → Option Installation
    → Option InstallationCapacityAllocation
owned_allocation user_id (some allocation) (some installation) =
    if str_eq installation.user_id user_id then some allocation else none
owned_allocation user_id _ _ = none

unfoldable pub get_installation_capacity_allocation :
    String → String → Store → Option InstallationCapacityAllocation
get_installation_capacity_allocation user_id installation_id store =
    owned_allocation user_id (get store.capacity_allocations installation_id)
      (get store.installations installation_id)

abbrev pub reservation_of : ApplicationInstance → CapacityReservation
reservation_of a = record {
  memory_reservation_mb = a.memory_reservation_mb;
  cpu_reservation_millis = a.cpu_reservation_millis;
  storage_reservation_gb = a.storage_reservation_gb;
}

abbrev pub vector_of : PlanCapacitySnapshot → CapacityVector
vector_of p = record {
  memory_mb = p.memory_mb;
  cpu_millis = p.cpu_millis;
  storage_gb = p.storage_gb;
}

pub data Acquired : Type 0 where
  replayed granted : PlanCapacityChangeHold → Acquired
  unavailable : Acquired

abbrev instant : Option ℕ → ℕ
instant none = 0
instant (some at) = at

abbrev new_change_hold :
    ℕ
    → String
    → AcquirePlanCapacityChangeHoldInput
    → Installation
    → InstallationCapacityAllocation
    → PlanCapacityChangeHold
new_change_hold now id input installation allocation =
    let delta =
      positive_capacity_delta (some (vector_of allocation.snapshot)) (vector_of input.requested) in
    record {
      snapshot = input.requested;
      id = id;
      user_id = input.user_id;
      installation_id = installation.id;
      allocation_id = allocation.id;
      idempotency_key = input.idempotency_key;
      expected_generation = allocation.generation;
      from_plan = allocation.snapshot.plan_id;
      worker_node_id = allocation.worker_node_id;
      reserved_delta_memory_mb = delta.memory_mb;
      reserved_delta_cpu_millis = delta.cpu_millis;
      reserved_delta_storage_gb = delta.storage_gb;
      infrastructure_monthly_cents = input.infrastructure_monthly_cents;
      platform_fee_monthly_cents = input.platform_fee_monthly_cents;
      provider_subscription_id = input.provider_subscription_id;
      state = HoldState.active;
      expires_at = instant input.expires_at;
      consumed_at = none;
      released_at = none;
      expired_at = none;
      release_reason = none;
      provider_committed_at = none;
      provider_confirmation_source = none;
      created_at = now;
      updated_at = now;
    }

abbrev pub may_resize :
    AcquirePlanCapacityChangeHoldInput → Installation → InstallationCapacityAllocation → Bool
may_resize input installation allocation =
    str_eq installation.user_id input.user_id
    && is_active_allocation allocation.state
    && str_eq allocation.snapshot.plan_id installation.plan
    && is_given installation.worker_node_id allocation.worker_node_id

pub new_change :
    ℕ
    → String
    → AcquirePlanCapacityChangeHoldInput
    → Store
    → Option Installation
    → Option InstallationCapacityAllocation
    → Result Acquired
new_change now id input store (some installation) (some allocation) =
    if not (may_resize input installation allocation)
    then returned unavailable
    else application_capacity_usage
        (map reservation_of (
          keep (λ (a : ApplicationInstance). str_eq a.installation_id installation.id)
            (values store.applications)))
        input.memory_safety_reserve_mb
      >>= λ usage. returned (
          if not (capacity_envelope_fit usage input.requested).fits
          then unavailable
          else granted (new_change_hold now id input installation allocation))
new_change now id input store _ _ = returned unavailable

abbrev pub same_change : PlanCapacityChangeHold → AcquirePlanCapacityChangeHoldInput → Bool
same_change existing input =
    str_eq existing.installation_id input.installation_id
    && str_eq existing.provider_subscription_id input.provider_subscription_id
    && same_plan_capacity existing.snapshot input.requested
    && existing.infrastructure_monthly_cents == input.infrastructure_monthly_cents
    && existing.platform_fee_monthly_cents == input.platform_fee_monthly_cents

pub replay_change : AcquirePlanCapacityChangeHoldInput → PlanCapacityChangeHold → Result Acquired
replay_change input existing =
    if not (same_change existing input)
    then thrown "The resize idempotency key is already bound to a different plan capacity request."
    else returned (if is_active existing.state then replayed existing else unavailable)

pub respond_change : ℕ → String → AcquirePlanCapacityChangeHoldInput → Store → Result Acquired
unfolding replay_change new_change
respond_change now id input store =
    elim (find
      (λ (hold : PlanCapacityChangeHold).
        str_eq hold.user_id input.user_id && str_eq hold.idempotency_key input.idempotency_key)
      (values store.plan_capacity_change_holds)) [
        | some existing ↦ replay_change input existing
        | none ↦
            if any
              (λ (hold : PlanCapacityChangeHold).
                str_eq hold.installation_id input.installation_id && is_active hold.state)
              (values store.plan_capacity_change_holds)
            then returned unavailable
            else new_change now id input store (get store.installations input.installation_id)
                (get store.capacity_allocations input.installation_id)
      ]

abbrev pub put_change : Store → String → PlanCapacityChangeHold → Store
put_change store id hold = record store {
  plan_capacity_change_holds = set store.plan_capacity_change_holds id hold;
}

pub record_change : Store → Result Acquired → Result (Option PlanCapacityChangeHold) × Store
record_change store (thrown message) = (thrown message, store)
record_change store (returned unavailable) = (returned none, store)
record_change store (returned (replayed hold)) = (returned (some hold), store)
record_change store (returned (granted hold)) =
    (returned (some hold), put_change store hold.id hold)

module _ (ops : NumberOps) (policy : PricingPolicy ops.Num) where
  unfoldable pub acquire_plan_capacity_change_hold :
      ℕ
      → String
      → AcquirePlanCapacityChangeHoldInput
      → Store
      → Result (Option PlanCapacityChangeHold) × Store
  unfolding expire_plan_capacity_change_holds respond_change record_change
  acquire_plan_capacity_change_hold now id input store =
      let current = expire_plan_capacity_change_holds now store in
      record_change current (
        throw_if (not (in_future now input.expires_at))
          "Plan capacity change hold expiry must be in the future."
        >> check_configured_plan ops policy input.requested.plan_id
            "Plan resize must hold the complete configured target quota."
            "Plan resize prices do not match the configured target plan." input.requested
            input.infrastructure_monthly_cents input.platform_fee_monthly_cents (returned tt)
        >> respond_change now id input current)

unfoldable pub get_plan_capacity_change_hold :
    ℕ → String → Store → Option PlanCapacityChangeHold × Store
unfolding expire_plan_capacity_change_holds
get_plan_capacity_change_hold now hold_id store =
    let current = expire_plan_capacity_change_holds now store in
    (get current.plan_capacity_change_holds hold_id, current)

release_change : ℕ → String → String → String → Store → Option PlanCapacityChangeHold → Bool × Store
release_change now hold_id user_id reason store none = (false, store)
release_change now hold_id user_id reason store (some hold) =
    if str_eq hold.user_id user_id && is_active hold.state
    then (
      true,
      put_change store hold_id (record hold {
        state = HoldState.released;
        released_at = some now;
        release_reason = some (slice 500 reason);
        updated_at = now;
      }),
    )
    else (false, store)

unfoldable pub release_plan_capacity_change_hold :
    ℕ → String → String → String → Store → Bool × Store
unfolding expire_plan_capacity_change_holds release_change
release_plan_capacity_change_hold now hold_id user_id reason store =
    let current = expire_plan_capacity_change_holds now store in
    release_change now hold_id user_id reason current
      (get current.plan_capacity_change_holds hold_id)

abbrev pub is_consumed : HoldState → Bool
is_consumed HoldState.consumed = true
is_consumed _ = false

abbrev is_open : HoldState → Bool
is_open HoldState.active = true
is_open HoldState.expired = true
is_open _ = false

-- The resize was applied before, by this hold.
abbrev pub already_applied : PlanCapacityChangeHold → InstallationCapacityAllocation → Bool
already_applied hold allocation =
    is_consumed hold.state
    && allocation.generation == hold.expected_generation + 1
    && str_eq allocation.snapshot.plan_id hold.snapshot.plan_id

-- The hold still describes the allocation that it was made for. The confirmation source is the text
-- after `trim` and `slice`.
abbrev pub may_consume :
    String → String → PlanCapacityChangeHold → InstallationCapacityAllocation → Bool
may_consume user_id source hold allocation =
    not (str_eq source "")
    && str_eq hold.user_id user_id
    && is_open hold.state
    && str_eq allocation.id hold.allocation_id
    && allocation.generation == hold.expected_generation
    && str_eq allocation.snapshot.plan_id hold.from_plan
    && str_eq allocation.worker_node_id hold.worker_node_id

abbrev may_bill : String → PlanCapacityChangeHold → Installation → StoredSubscription → Bool
may_bill user_id hold installation subscription =
    str_eq installation.user_id user_id
    && str_eq installation.plan hold.from_plan
    && is_given subscription.installation_id installation.id
    && is_entitled_status subscription.status

abbrev pub resized :
    ℕ → PlanCapacityChangeHold → InstallationCapacityAllocation → InstallationCapacityAllocation
resized now hold allocation = record allocation {
  snapshot = hold.snapshot;
  generation = allocation.generation + 1;
  updated_at = now;
}

abbrev consumed_hold : ℕ → String → PlanCapacityChangeHold → PlanCapacityChangeHold
consumed_hold now source hold = record hold {
  state = HoldState.consumed;
  consumed_at = some now;
  provider_committed_at = some now;
  provider_confirmation_source = some source;
  updated_at = now;
}

abbrev billed : PlanCapacityChangeHold → StoredSubscription → StoredSubscription
billed hold subscription = record subscription {
  infrastructure_monthly_cents = hold.infrastructure_monthly_cents;
  platform_fee_monthly_cents = hold.platform_fee_monthly_cents;
  installation_plan = some hold.snapshot.plan_id;
}

-- The writes to the allocation, the installation, the subscription and the hold.
abbrev pub apply_change :
    ℕ
    → String
    → String
    → PlanCapacityChangeHold
    → InstallationCapacityAllocation
    → Installation
    → StoredSubscription
    → Store
    → Store
apply_change now hold_id source hold allocation installation subscription store = record store {
  capacity_allocations =
      set store.capacity_allocations hold.installation_id (resized now hold allocation);
  installations =
      set store.installations hold.installation_id
        (record installation { plan = hold.snapshot.plan_id; updated_at = now });
  subscriptions = set store.subscriptions hold.provider_subscription_id (billed hold subscription);
  plan_capacity_change_holds =
      set store.plan_capacity_change_holds hold_id (consumed_hold now source hold);
}

consume_billed :
    ℕ
    → String
    → String
    → String
    → PlanCapacityChangeHold
    → InstallationCapacityAllocation
    → Store
    → Option Installation
    → Option StoredSubscription
    → Option InstallationCapacityAllocation × Store
consume_billed now hold_id user_id source hold allocation store (some installation)
      (some subscription) =
    if may_bill user_id hold installation subscription
    then (
      some (resized now hold allocation),
      apply_change now hold_id source hold allocation installation subscription store,
    )
    else (none, store)
consume_billed now hold_id user_id source hold allocation store _ _ = (none, store)

consume_with :
    ℕ
    → String
    → String
    → String
    → PlanCapacityChangeHold
    → Store
    → Option InstallationCapacityAllocation
    → Option InstallationCapacityAllocation × Store
unfolding consume_billed
consume_with now hold_id user_id source hold store none = (none, store)
consume_with now hold_id user_id source hold store (some allocation) =
    if already_applied hold allocation
    then (some allocation, store)
    else if may_consume user_id source hold allocation
    then consume_billed now hold_id user_id source hold allocation store
        (get store.installations hold.installation_id)
        (get store.subscriptions hold.provider_subscription_id)
    else (none, store)

consume_found :
    ℕ
    → String
    → String
    → String
    → Store
    → Option PlanCapacityChangeHold
    → Option InstallationCapacityAllocation × Store
unfolding consume_with
consume_found now hold_id user_id source store none = (none, store)
consume_found now hold_id user_id source store (some hold) =
    consume_with now hold_id user_id source hold store
      (get store.capacity_allocations hold.installation_id)

unfoldable pub consume_plan_capacity_change_hold :
    ℕ → String → String → String → Store → Option InstallationCapacityAllocation × Store
unfolding expire_plan_capacity_change_holds consume_found
consume_plan_capacity_change_hold now hold_id user_id confirmation_source store =
    let current = expire_plan_capacity_change_holds now store in
    consume_found now hold_id user_id (slice 100 (trim confirmation_source)) current
      (get current.plan_capacity_change_holds hold_id)
