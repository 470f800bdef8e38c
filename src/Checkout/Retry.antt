-- ===== src/Checkout/Retry.antt =====
-- `retryPaidCheckoutCapacityRecovery` of server/repository.ts: a recovery that waits for capacity
-- is tried again when the provider confirms the payment.
use managed_oss_cloud.Common.{
  ℕ, suc, String, Bool, true, false, not, ◌&&◌, List, [], ◌∷◌, Option, none, some, leb, ◌==◌,
  if◌then◌else◌,
}
use managed_oss_cloud.Common.Dict.{Dict, get}
use managed_oss_cloud.Common.Result.{Result, thrown, returned}
use managed_oss_cloud.Store.{Store, is_given, is_entitled_status}
use managed_oss_cloud.Store.Records.{CheckoutCapacityHold, PaidCheckoutCapacityRecovery}
use managed_oss_cloud.Holds.{expire_checkout_capacity_holds}
use managed_oss_cloud.Recovery.{is_pending, advance_paid_checkout_capacity_recovery}
use managed_oss_cloud.Checkout.{is_expired, put_recovery, paid_checkout_assignments}
use managed_oss_cloud.Checkout.Fulfil.{ProcessPaidCheckoutInput, Draws, fulfill_paid_checkout}

-- The problems that the caller found are only counted.
pub record PaidCheckoutProviderConfirmation : Type 0 where
  pub provider_subscription_id : String
  pub status : String
  pub user_id : Option String
  pub installation_id : Option String
  pub capacity_hold_id : Option String
  pub customer_id : Option String
  pub infrastructure_monthly_cents : ℕ
  pub platform_fee_monthly_cents : ℕ
  pub problems : List String

abbrev is_empty : List String → Bool
is_empty [] = true
is_empty (s ∷ ss) = false

abbrev pub confirms : PaidCheckoutProviderConfirmation → PaidCheckoutCapacityRecovery → Bool
confirms c recovery =
    is_empty c.problems
    && is_entitled_status c.status
    && is_given c.user_id recovery.user_id
    && is_given c.installation_id recovery.installation_id
    && is_given c.capacity_hold_id recovery.checkout_hold_id
    && is_given c.customer_id recovery.stripe_customer_id
    && c.infrastructure_monthly_cents == recovery.infrastructure_monthly_cents
    && c.platform_fee_monthly_cents == recovery.platform_fee_monthly_cents

abbrev pub delayed : ℕ → PaidCheckoutCapacityRecovery → PaidCheckoutCapacityRecovery
delayed now recovery = record recovery {
  attempt_count = suc recovery.attempt_count;
  last_attempt_at = some now;
  last_error = some "No recently healthy worker could atomically place the pending paid checkout.";
  updated_at = now;
}

abbrev payment_of : PaidCheckoutCapacityRecovery → ProcessPaidCheckoutInput
payment_of recovery = record {
  event_id = recovery.stripe_event_id;
  hold_id = recovery.checkout_hold_id;
  user_id = recovery.user_id;
  installation_id = recovery.installation_id;
  stripe_checkout_session_id = recovery.stripe_checkout_session_id;
  stripe_customer_id = recovery.stripe_customer_id;
  provider_subscription_id = recovery.provider_subscription_id;
  infrastructure_monthly_cents = recovery.infrastructure_monthly_cents;
  platform_fee_monthly_cents = recovery.platform_fee_monthly_cents;
  compensation_deadline_at = none;
}

-- The answer is the recovery as it stands in the store afterwards.
abbrev answered :
    String → Result (Unit {0}) × Store → Result (Option PaidCheckoutCapacityRecovery) × Store
answered id (thrown message, store) = (thrown message, store)
answered id (returned _, store) = (returned (get store.paid_checkout_capacity_recoveries id), store)

module _ (locale_before : String → String → Bool) where
  retry_on :
      ℕ
      → Draws
      → String
      → PaidCheckoutCapacityRecovery
      → CheckoutCapacityHold
      → Store
      → Option (Dict String)
      → Result (Option PaidCheckoutCapacityRecovery) × Store
  unfolding fulfill_paid_checkout
  retry_on now draws id recovery hold store none =
      (returned (some (delayed now recovery)), put_recovery store id (delayed now recovery))
  retry_on now draws id recovery hold store (some assignments) = answered id (
      fulfill_paid_checkout locale_before now draws (payment_of recovery) hold assignments
        (some recovery) store)

  abbrev lost_hold : Store → Result (Option PaidCheckoutCapacityRecovery) × Store
  lost_hold store =
      (thrown "Pending paid capacity recovery lost its immutable expired checkout hold.", store)

  -- Placing an expired hold also expires the others.
  retry_hold :
      ℕ
      → Draws
      → String
      → PaidCheckoutCapacityRecovery
      → Store
      → Option CheckoutCapacityHold
      → Result (Option PaidCheckoutCapacityRecovery) × Store
  unfolding retry_on paid_checkout_assignments expire_checkout_capacity_holds
  retry_hold now draws id recovery store none = lost_hold store
  retry_hold now draws id recovery store (some hold) =
      if not (is_expired hold.state)
      then lost_hold store
      else retry_on now draws id recovery hold (expire_checkout_capacity_holds now store)
          (paid_checkout_assignments locale_before now store hold)

  retry_found :
      ℕ
      → Draws
      → PaidCheckoutProviderConfirmation
      → Store
      → Option PaidCheckoutCapacityRecovery
      → Result (Option PaidCheckoutCapacityRecovery) × Store
  unfolding retry_hold advance_paid_checkout_capacity_recovery
  retry_found now draws c store none = (returned none, store)
  retry_found now draws c store (some recovery) =
      if not (is_pending recovery.state)
      then (returned (some recovery), store)
      else if leb recovery.compensation_deadline_at now
      then advance_paid_checkout_capacity_recovery now c.provider_subscription_id store
      else if not (confirms c recovery)
      then (
        thrown "Provider confirmation did not exactly match the pending paid capacity obligation.",
        store,
      )
      else retry_hold now draws c.provider_subscription_id recovery store
          (get store.checkout_capacity_holds recovery.checkout_hold_id)

  unfoldable pub retry_paid_checkout_capacity_recovery :
      ℕ
      → Draws
      → PaidCheckoutProviderConfirmation
      → Store
      → Result (Option PaidCheckoutCapacityRecovery) × Store
  unfolding retry_found
  retry_paid_checkout_capacity_recovery now draws c store =
      retry_found now draws c store
        (get store.paid_checkout_capacity_recoveries c.provider_subscription_id)
