-- ===== src/Recovery.antt =====
-- The recoveries of paid checkouts without capacity, `MemoryRepository` of server/repository.ts:
-- after its deadline a recovery asks for compensation, which is then recorded.
pub mod Backed
mod Tests
use managed_oss_cloud.Common.{
  ℕ, ◌+◌, String, Bool, true, false, not, ◌&&◌, ◌||◌, Option, none, some, leb, ltb, str_eq, trim,
  if◌then◌else◌,
}
use managed_oss_cloud.Common.Dict.{Dict, get, set}
use managed_oss_cloud.Common.Result.{Result, thrown, returned}
use managed_oss_cloud.Store.{Store, is_given}
use managed_oss_cloud.Store.Records.{
  StoredSubscription, PaidCheckoutCapacityRecovery, RecoveryState, pending_capacity,
  compensation_required, compensated,
}

abbrev pub is_pending : RecoveryState → Bool
is_pending pending_capacity = true
is_pending _ = false

abbrev pub is_compensation_required : RecoveryState → Bool
is_compensation_required compensation_required = true
is_compensation_required _ = false

unfoldable pub get_paid_checkout_capacity_recovery :
    String → Store → Option PaidCheckoutCapacityRecovery
get_paid_checkout_capacity_recovery id store = get store.paid_checkout_capacity_recoveries id

-- The local subscription has this status and belongs to the recovery.
abbrev pub has_obligation : String → PaidCheckoutCapacityRecovery → StoredSubscription → Bool
has_obligation status recovery subscription =
    str_eq subscription.status status
    && str_eq subscription.user_id recovery.user_id
    && is_given subscription.installation_id recovery.installation_id

-- The writes to a recovery and its subscription.
abbrev pub put_recovery :
    Store → String → PaidCheckoutCapacityRecovery → String → StoredSubscription → Store
put_recovery store id recovery status subscription = record store {
  paid_checkout_capacity_recoveries = set store.paid_checkout_capacity_recoveries id recovery;
  subscriptions = set store.subscriptions id (record subscription { status = status });
}

abbrev pub overdue : ℕ → PaidCheckoutCapacityRecovery → PaidCheckoutCapacityRecovery
overdue now recovery = record recovery {
  state = compensation_required;
  compensation_required_at = some now;
  last_attempt_at = some now;
  attempt_count = recovery.attempt_count + 1;
  last_error =
      some
        "Capacity recovery deadline elapsed; cancel the provider subscription and refund the captured payment.";
  updated_at = now;
}

advance_with :
    ℕ
    → String
    → Store
    → PaidCheckoutCapacityRecovery
    → Option StoredSubscription
    → Result (Option PaidCheckoutCapacityRecovery) × Store
advance_with now id store recovery none =
    (thrown "Pending paid capacity recovery lost its exact local subscription obligation.", store)
advance_with now id store recovery (some subscription) =
    if has_obligation "paid_pending_capacity" recovery subscription
    then (
      returned (some (overdue now recovery)),
      put_recovery store id (overdue now recovery) "compensation_required" subscription,
    )
    else (
      thrown "Pending paid capacity recovery lost its exact local subscription obligation.",
      store,
    )

advance_found :
    ℕ
    → String
    → Store
    → Option PaidCheckoutCapacityRecovery
    → Result (Option PaidCheckoutCapacityRecovery) × Store
unfolding advance_with
advance_found now id store none = (returned none, store)
advance_found now id store (some recovery) =
    if not (is_pending recovery.state) || ltb now recovery.compensation_deadline_at
    then (returned (some recovery), store)
    else advance_with now id store recovery (get store.subscriptions id)

unfoldable pub advance_paid_checkout_capacity_recovery :
    ℕ → String → Store → Result (Option PaidCheckoutCapacityRecovery) × Store
unfolding advance_found
advance_paid_checkout_capacity_recovery now id store =
    advance_found now id store (get store.paid_checkout_capacity_recoveries id)

abbrev pub settled : ℕ → String → PaidCheckoutCapacityRecovery → PaidCheckoutCapacityRecovery
settled now reference recovery = record recovery {
  state = compensated;
  compensated_at = some now;
  compensation_reference = some reference;
  updated_at = now;
}

mark_with :
    ℕ
    → String
    → String
    → Store
    → PaidCheckoutCapacityRecovery
    → Option StoredSubscription
    → Result (Option PaidCheckoutCapacityRecovery) × Store
mark_with now id reference store recovery none = (
  thrown "Compensation cannot be recorded without the exact local paid-capacity obligation.",
  store,
)
mark_with now id reference store recovery (some subscription) =
    if has_obligation "compensation_required" recovery subscription
    then (
      returned (some (settled now reference recovery)),
      put_recovery store id (settled now reference recovery) "canceled" subscription,
    )
    else (
      thrown "Compensation cannot be recorded without the exact local paid-capacity obligation.",
      store,
    )

mark_found :
    ℕ
    → String
    → String
    → Store
    → Option PaidCheckoutCapacityRecovery
    → Result (Option PaidCheckoutCapacityRecovery) × Store
unfolding mark_with
mark_found now id reference store none = (returned none, store)
mark_found now id reference store (some recovery) =
    if not (is_compensation_required recovery.state) || str_eq reference ""
    then (returned none, store)
    else mark_with now id reference store recovery (get store.subscriptions id)

unfoldable pub mark_paid_checkout_capacity_compensated :
    ℕ → String → String → Store → Result (Option PaidCheckoutCapacityRecovery) × Store
unfolding mark_found
mark_paid_checkout_capacity_compensated now id compensation_reference store =
    mark_found now id (trim compensation_reference) store
      (get store.paid_checkout_capacity_recoveries id)
