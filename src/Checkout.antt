-- ===== src/Checkout.antt =====
-- The fulfilment of a paid checkout by `MemoryRepository`, server/repository.ts: the capacity that
-- was held becomes an allocation, placed applications and install jobs, or a recovery that waits
-- for capacity.
pub mod Fulfil
pub mod Retry
pub mod Once
pub mod Conserved
mod Tests
use Prim.Native.String
use managed_oss_cloud.Common.{
  ℕ, ◌+◌, String, Bool, true, false, not, ◌&&◌, ◌||◌, List, [], ◌∷◌, Option, none, some, ltb, leb,
  ◌==◌, any, keep, find, map, given, one_of, str_eq, if◌then◌else◌,
}
use managed_oss_cloud.Common.Dict.{Dict, get, set, has, values}
use managed_oss_cloud.Common.Result.{Result, thrown, returned, throw_if, ◌>>=◌, ◌>>◌}
use managed_oss_cloud.Common.Sort.{sort}
use managed_oss_cloud.Types.{WorkerNode, InstallationState, ApplicationState}
use managed_oss_cloud.Placement.{allocate_capacity}
use managed_oss_cloud.Store.{Store, is_active, is_given, same_texts}
use managed_oss_cloud.Store.Records.{
  Installation, ApplicationInstance, StoredSubscription, CheckoutCapacityHold,
  CheckoutCapacityHoldItem, PaidCheckoutCapacityRecovery, HoldState, RecoveryState,
  pending_capacity,
}
use managed_oss_cloud.Holds.{expire_checkout_capacity_holds, workers_with_active_checkout_holds}
use managed_oss_cloud.Holds.Acquire.{is_fresh, is_planned}
use managed_oss_cloud.Checkout.Fulfil.{
  ProcessPaidCheckoutInput, Draws, by_item, fulfill_paid_checkout,
}

abbrev pub is_expired : HoldState → Bool
is_expired HoldState.expired = true
is_expired _ = false

abbrev is_queued : ApplicationState → Bool
is_queued ApplicationState.queued = true
is_queued _ = false

-- The hold, the session and the customer are exactly those of the payment.
abbrev pub is_paid_hold : Store → ProcessPaidCheckoutInput → CheckoutCapacityHold → Bool
is_paid_hold store input hold =
    (is_active hold.state || is_expired hold.state)
    && str_eq hold.user_id input.user_id
    && str_eq hold.installation_id input.installation_id
    && is_given hold.stripe_checkout_session_id input.stripe_checkout_session_id
    && is_given hold.stripe_customer_id input.stripe_customer_id
    && is_given (get store.stripe_customers input.user_id) input.stripe_customer_id
    && hold.infrastructure_monthly_cents == input.infrastructure_monthly_cents
    && hold.platform_fee_monthly_cents == input.platform_fee_monthly_cents

abbrev pub is_planned_for : ProcessPaidCheckoutInput → CheckoutCapacityHold → Installation → Bool
is_planned_for input hold installation =
    str_eq installation.user_id input.user_id
    && is_planned installation.state
    && str_eq installation.plan hold.requested_plan
    && same_texts installation.app_ids hold.requested_app_ids

abbrev worker_exists : Store → Option String → Bool
worker_exists store none = false
worker_exists store (some id) = has store.workers id

abbrev pub is_item_of :
    Store → CheckoutCapacityHold → ApplicationInstance → CheckoutCapacityHoldItem → Bool
is_item_of store hold app item =
    str_eq app.id item.reservation.application_instance_id
    && str_eq app.app_id item.reservation.app_id
    && is_queued app.state
    && not (given app.worker_node_id)
    && app.memory_reservation_mb == item.reservation.memory_reservation_mb
    && app.cpu_reservation_millis == item.reservation.cpu_reservation_millis
    && app.storage_reservation_gb == item.reservation.storage_reservation_gb
    && (not (is_active hold.state) || worker_exists store item.worker_node_id)

-- both the lengths and the items at each index
abbrev pub are_items_of :
    Store → CheckoutCapacityHold → List ApplicationInstance → List CheckoutCapacityHoldItem → Bool
are_items_of store hold [] [] = true
are_items_of store hold (app ∷ apps) (item ∷ items) =
    is_item_of store hold app item && are_items_of store hold apps items
are_items_of store hold _ _ = false

-- `new Map(hold.items.map(...))`; an item without a worker is refused before.
abbrev pub held_workers : Dict String → List CheckoutCapacityHoldItem → Dict String
held_workers assigned [] = assigned
held_workers assigned (item ∷ items) =
    held_workers (with_worker assigned item item.worker_node_id) items
  where
    with_worker : Dict String → CheckoutCapacityHoldItem → Option String → Dict String
    with_worker assigned item none = assigned
    with_worker assigned item (some worker) =
        set assigned item.reservation.application_instance_id worker

-- A deadline that the caller gives may be unreadable.
abbrev pub deadline_of : ℕ → ℕ → Option (Option ℕ) → Option ℕ
deadline_of now window none = some (now + window)
deadline_of now window (some deadline) = deadline

abbrev pub recovery_of :
    ℕ → Draws → ProcessPaidCheckoutInput → CheckoutCapacityHold → ℕ → PaidCheckoutCapacityRecovery
recovery_of now draws input hold deadline = record {
  id = draws.recovery;
  stripe_event_id = input.event_id;
  checkout_hold_id = hold.id;
  user_id = input.user_id;
  installation_id = input.installation_id;
  stripe_checkout_session_id = input.stripe_checkout_session_id;
  stripe_customer_id = input.stripe_customer_id;
  provider_subscription_id = input.provider_subscription_id;
  infrastructure_monthly_cents = input.infrastructure_monthly_cents;
  platform_fee_monthly_cents = input.platform_fee_monthly_cents;
  state = pending_capacity;
  attempt_count = 0;
  compensation_deadline_at = deadline;
  last_attempt_at = none;
  fulfilled_at = none;
  compensation_required_at = none;
  compensated_at = none;
  compensation_reference = none;
  last_error = none;
  created_at = now;
  updated_at = now;
}

abbrev waiting_recovery : ℕ → PaidCheckoutCapacityRecovery → PaidCheckoutCapacityRecovery
waiting_recovery now recovery = record recovery {
  attempt_count = 1;
  last_attempt_at = some now;
  last_error = some "No recently healthy worker could atomically place the paid checkout.";
}

abbrev waiting_subscription : Draws → ProcessPaidCheckoutInput → Installation → StoredSubscription
waiting_subscription draws input installation = record {
  id = draws.subscription;
  user_id = input.user_id;
  installation_id = some input.installation_id;
  provider_subscription_id = some input.provider_subscription_id;
  status = "paid_pending_capacity";
  infrastructure_monthly_cents = input.infrastructure_monthly_cents;
  platform_fee_monthly_cents = input.platform_fee_monthly_cents;
  installation_plan = some installation.plan;
}

abbrev pub put_recovery : Store → String → PaidCheckoutCapacityRecovery → Store
put_recovery store id recovery = record store {
  paid_checkout_capacity_recoveries = set store.paid_checkout_capacity_recoveries id recovery;
}

-- the branch without a placement
pub await_capacity :
    ℕ
    → ℕ
    → Draws
    → ProcessPaidCheckoutInput
    → CheckoutCapacityHold
    → Installation
    → Store
    → Result (Unit {0}) × Store
await_capacity now window draws input hold installation store =
    elim (deadline_of now window input.compensation_deadline_at) [
      | none ↦ (thrown "Paid checkout capacity recovery deadline must be in the future.", store)
      | some deadline ↦
          if leb deadline now
          then (thrown "Paid checkout capacity recovery deadline must be in the future.", store)
          else (
            returned tt,
            record store {
              paid_checkout_capacity_recoveries =
                  set store.paid_checkout_capacity_recoveries input.provider_subscription_id
                    (waiting_recovery now (recovery_of now draws input hold deadline));
              subscriptions =
                  set store.subscriptions input.provider_subscription_id
                    (waiting_subscription draws input installation);
            },
          )
    ]

module _ (locale_before : String → String → Bool) where
  abbrev by_id {ℓ} : {A : Type ℓ} → (A → String) → A → A → Bool
  by_id id_of a b = locale_before (id_of a) (id_of b)

  -- `paidCheckoutAssignments`: the workers of an active hold, or a new placement
  unfoldable pub paid_checkout_assignments : ℕ → Store → CheckoutCapacityHold → Option (Dict String)
  paid_checkout_assignments now store hold =
      if is_active hold.state
      then some (held_workers [] hold.items)
      else allocate_capacity locale_before
          (sort (by_id (λ (w : WorkerNode). w.id))
            (keep (is_fresh now) (workers_with_active_checkout_holds now store)))
          (map (λ (item : CheckoutCapacityHoldItem). item.reservation) hold.items)

  -- the branch with a placement
  pub fulfill_assigned :
      ℕ
      → ℕ
      → Draws
      → ProcessPaidCheckoutInput
      → CheckoutCapacityHold
      → Dict String
      → Store
      → Result (Unit {0}) × Store
  unfolding fulfill_paid_checkout
  fulfill_assigned now window draws input hold assignments store =
      if not (is_expired hold.state)
      then fulfill_paid_checkout locale_before now draws input hold assignments none store
      else elim (deadline_of now window input.compensation_deadline_at) [
        | none ↦ (thrown "Invalid time value", store)
        | some deadline ↦
            let recovery = recovery_of now draws input hold deadline in
            fulfill_paid_checkout locale_before now draws input hold assignments (some recovery)
              (put_recovery store input.provider_subscription_id recovery)
      ]

  pub place_paid :
      ℕ
      → ℕ
      → Draws
      → ProcessPaidCheckoutInput
      → CheckoutCapacityHold
      → Installation
      → Store
      → Option (Dict String)
      → Result (Unit {0}) × Store
  unfolding await_capacity fulfill_assigned
  place_paid now window draws input hold installation store none =
      await_capacity now window draws input hold installation store
  place_paid now window draws input hold installation store (some assignments) =
      fulfill_assigned now window draws input hold assignments store

  -- The checks, in their order, with what they find.
  pub check_paid : ProcessPaidCheckoutInput → Store → Result (CheckoutCapacityHold × Installation)
  check_paid input store = do
    hold ← matching (get store.checkout_capacity_holds input.hold_id)
    installation ← planned hold (get store.installations input.installation_id)
    throw_if (has store.subscriptions input.provider_subscription_id)
        "Provider subscription is already bound to another checkout."
    throw_if
        (not (
          are_items_of store hold
            (sort (by_id (λ (a : ApplicationInstance). a.id)) (
              keep (λ (a : ApplicationInstance). str_eq a.installation_id installation.id)
                (values store.applications)))
            (sort (by_item locale_before) hold.items)))
        "Paid checkout capacity items no longer match the planned applications."
    throw_if (has store.capacity_allocations installation.id)
        "The planned installation already owns a capacity allocation."
    returned (hold, installation)
    where
      no_hold : String
      no_hold = "Paid checkout did not match an exact owned capacity hold and Stripe session."

      matching : Option CheckoutCapacityHold → Result CheckoutCapacityHold
      matching none = thrown no_hold
      matching (some hold) = if is_paid_hold store input hold then returned hold else thrown no_hold

      no_plan : String
      no_plan = "Paid checkout capacity snapshot no longer matches the planned installation."

      planned : CheckoutCapacityHold → Option Installation → Result Installation
      planned hold none = thrown no_plan
      planned hold (some installation) =
          if is_planned_for input hold installation then returned installation else thrown no_plan

  -- The event is stored when nothing threw.
  abbrev pub processed : String → Result (Unit {0}) × Store → Result Bool × Store
  processed event_id (thrown message, store) = (thrown message, store)
  processed event_id (returned _, store) =
      (returned true, record store { stripe_events = event_id ∷ store.stripe_events })

  pub process_checked :
      ℕ
      → ℕ
      → Draws
      → ProcessPaidCheckoutInput
      → Store
      → Result (CheckoutCapacityHold × Installation)
      → Result Bool × Store
  unfolding place_paid paid_checkout_assignments
  process_checked now window draws input store (thrown message) = (thrown message, store)
  process_checked now window draws input store (returned (hold, installation)) =
      processed input.event_id (
        place_paid now window draws input hold installation store
          (paid_checkout_assignments now store hold))

  unfoldable pub process_paid_checkout :
      ℕ → ℕ → Draws → ProcessPaidCheckoutInput → Store → Result Bool × Store
  unfolding expire_checkout_capacity_holds check_paid process_checked
  process_paid_checkout now window draws input store =
      if one_of store.stripe_events input.event_id
      then (returned false, store)
      else let current = expire_checkout_capacity_holds now store in
        process_checked now window draws input current (check_paid input current)

unfoldable pub has_processed_stripe_event : String → Store → Bool
has_processed_stripe_event event_id store = one_of store.stripe_events event_id

-- `Set.add`
unfoldable pub mark_stripe_event_processed : String → Store → Store
mark_stripe_event_processed event_id store =
    if one_of store.stripe_events event_id
    then store
    else record store { stripe_events = event_id ∷ store.stripe_events }
