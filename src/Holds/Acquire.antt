-- ===== src/Holds/Acquire.antt =====
-- `acquireCheckoutCapacityHold` of server/repository.ts: the checks of a request, the replay of one
-- that was made before, and the placement of a new one.
pub mod Granted
use managed_oss_cloud.Common.{
  ℕ, zero, suc, ◌+◌, ◌-◌, String, Bool, true, false, not, ◌&&◌, ◌||◌, List, [], ◌∷◌, Option, none,
  some, ltb, leb, ◌==◌, any, find, keep, map, given, one_of, str_eq, if◌then◌else◌,
}
use managed_oss_cloud.Common.Dict.{Dict, get, values}
use managed_oss_cloud.Common.Number.{NumberOps}
use managed_oss_cloud.Common.Result.{Result, thrown, returned, throw_if, ◌>>=◌, ◌>>◌}
use managed_oss_cloud.Common.Sort.{sort}
use managed_oss_cloud.Types.{
  WorkerNode, is_ready, planned, queued, InstallationState, ApplicationState,
}
use managed_oss_cloud.Capacity.{
  CapacityReservation, PlanCapacitySnapshot, application_capacity_usage, capacity_envelope_fit,
}
use managed_oss_cloud.Pricing.{PricingPolicy}
use managed_oss_cloud.Placement.{CheckoutCapacityReservation, allocate_capacity}
use managed_oss_cloud.Store.{
  Store, in_future, same_texts, same_plan_capacity, check_configured_plan, is_active,
}
use managed_oss_cloud.Store.Records.{
  Installation, ApplicationInstance, CheckoutCapacityHold, CheckoutCapacityHoldItem,
  AcquireCheckoutCapacityHoldInput, active,
}
use managed_oss_cloud.Holds.{
  expire_checkout_capacity_holds, workers_with_active_checkout_holds, holds_installation, put_hold,
}

abbrev pub incomplete : CheckoutCapacityReservation → Bool
incomplete r =
    str_eq r.application_instance_id ""
    || str_eq r.app_id ""
    || r.memory_reservation_mb == 0
    || r.cpu_reservation_millis == 0
    || r.storage_reservation_gb == 0

-- `new Set(ids).size !== ids.length`
abbrev pub has_duplicates : List CheckoutCapacityReservation → Bool
has_duplicates [] = false
has_duplicates (r ∷ rs) =
    any
      (λ (other : CheckoutCapacityReservation).
        str_eq other.application_instance_id r.application_instance_id)
      rs
    || has_duplicates rs

abbrev pub plain : CheckoutCapacityReservation → CapacityReservation
plain r = record {
  memory_reservation_mb = r.memory_reservation_mb;
  cpu_reservation_millis = r.cpu_reservation_millis;
  storage_reservation_gb = r.storage_reservation_gb;
}

abbrev same_reservation : CheckoutCapacityReservation → CheckoutCapacityReservation → Bool
same_reservation l r =
    str_eq l.application_instance_id r.application_instance_id
    && str_eq l.app_id r.app_id
    && l.memory_reservation_mb == r.memory_reservation_mb
    && l.cpu_reservation_millis == r.cpu_reservation_millis
    && l.storage_reservation_gb == r.storage_reservation_gb

abbrev same_reservations :
    List CheckoutCapacityReservation → List CheckoutCapacityReservation → Bool
same_reservations [] [] = true
same_reservations (l ∷ ls) (r ∷ rs) = same_reservation l r && same_reservations ls rs
same_reservations _ _ = false

-- The application is still queued as the reservation describes it.
abbrev matches : ApplicationInstance → CheckoutCapacityReservation → Bool
matches a r =
    str_eq a.id r.application_instance_id
    && str_eq a.app_id r.app_id
    && not (given a.worker_node_id)
    && is_queued a.state
    && a.memory_reservation_mb == r.memory_reservation_mb
    && a.cpu_reservation_millis == r.cpu_reservation_millis
    && a.storage_reservation_gb == r.storage_reservation_gb
  where
    is_queued : ApplicationState → Bool
    is_queued ApplicationState.queued = true
    is_queued _ = false

abbrev all_match : List ApplicationInstance → List CheckoutCapacityReservation → Bool
all_match [] [] = true
all_match (a ∷ as') (r ∷ rs) = matches a r && all_match as' rs
all_match _ _ = false

abbrev pub first_value : Dict String → List WorkerNode → Option String
first_value ((k, v) ∷ assigned) workers = some v
first_value [] (worker ∷ workers) = some worker.id
first_value [] [] = none

-- A request comes to the hold that it has already, to a new one, or to none.
pub data Acquired : Type 0 where
  replayed granted : CheckoutCapacityHold → Acquired
  unavailable : Acquired

abbrev pub is_planned : InstallationState → Bool
is_planned InstallationState.planned = true
is_planned _ = false

-- a heartbeat within the last two minutes
abbrev pub is_fresh : ℕ → WorkerNode → Bool
is_fresh now worker = is_ready worker.status && ltb now (worker.last_heartbeat_at + 120000)

abbrev pub items_of :
    ℕ
    → (ℕ → String)
    → String
    → Dict String
    → ℕ
    → List CheckoutCapacityReservation
    → List CheckoutCapacityHoldItem
items_of now item_id hold_id assigned i [] = []
items_of now item_id hold_id assigned i (r ∷ rs) =
    (record {
      reservation = r;
      id = item_id i;
      hold_id = hold_id;
      worker_node_id = get assigned r.application_instance_id;
      created_at = now;
    })
    ∷ items_of now item_id hold_id assigned (suc i) rs

module _ (locale_before : String → String → Bool) where
  abbrev pub by_application : List CheckoutCapacityReservation → List CheckoutCapacityReservation
  by_application = sort (λ (l r : CheckoutCapacityReservation).
      locale_before l.application_instance_id r.application_instance_id)

  -- `allocationAffinityWorker`, then the new hold
  abbrev pub new_hold :
      ℕ
      → (ℕ → String)
      → String
      → AcquireCheckoutCapacityHoldInput
      → ℕ
      → Dict String
      → String
      → CheckoutCapacityHold
  new_hold now item_id hold_id input expires_at assigned affinity = record {
    id = hold_id;
    user_id = input.user_id;
    installation_id = input.installation_id;
    idempotency_key = input.idempotency_key;
    requested_plan = input.requested_plan;
    requested_app_ids = input.requested_app_ids;
    infrastructure_monthly_cents = input.infrastructure_monthly_cents;
    platform_fee_monthly_cents = input.platform_fee_monthly_cents;
    state = active;
    stripe_customer_id = none;
    stripe_checkout_session_id = none;
    stripe_checkout_expires_at = none;
    provider_subscription_id = none;
    expires_at = expires_at;
    consumed_at = none;
    released_at = none;
    expired_at = none;
    release_reason = none;
    created_at = now;
    updated_at = now;
    items = items_of now item_id hold_id assigned 0 (by_application input.reservations);
    plan_capacity = record {
      snapshot = input.plan_capacity;
      hold_id = hold_id;
      worker_node_id = affinity;
      created_at = now;
    };
  }

  unfoldable pub eligible_workers : ℕ → Store → List WorkerNode
  eligible_workers now store =
      sort (λ (l r : WorkerNode). locale_before l.id r.id)
        (keep (is_fresh now) (workers_with_active_checkout_holds now store))

  grant_on :
      (Dict String → String → CheckoutCapacityHold)
      → List WorkerNode
      → Option (Dict String)
      → Acquired
  grant_on make workers none = unavailable
  grant_on make workers (some assigned) = elim (first_value assigned workers) [
    | none ↦ unavailable
    | some affinity ↦ if str_eq affinity "" then unavailable else granted (make assigned affinity)
  ]

  -- whether the installation is still planned as the request says
  abbrev is_requested : AcquireCheckoutCapacityHoldInput → Option Installation → Bool
  is_requested input none = false
  is_requested input (some installation) =
      str_eq installation.user_id input.user_id
      && is_planned installation.state
      && str_eq installation.plan input.requested_plan
      && same_texts installation.app_ids input.requested_app_ids

  applications_of : String → Store → List ApplicationInstance
  applications_of installation_id store =
      sort (λ (l r : ApplicationInstance). locale_before l.id r.id)
        (keep (λ (a : ApplicationInstance). str_eq a.installation_id installation_id)
          (values store.applications))

  new_request : ℕ → (ℕ → String) → String → AcquireCheckoutCapacityHoldInput → ℕ → Store → Acquired
  unfolding eligible_workers grant_on applications_of
  new_request now item_id hold_id input expires_at store =
      let requested = by_application input.reservations in
      let workers = eligible_workers now store in
      if any (holds_installation input.installation_id) (values store.checkout_capacity_holds)
      then unavailable
      else if not (is_requested input (get store.installations input.installation_id))
      then unavailable
      else if not (all_match (applications_of input.installation_id store) requested)
      then unavailable
      else grant_on (new_hold now item_id hold_id input expires_at) workers
          (allocate_capacity locale_before workers requested)

  abbrev same_request : CheckoutCapacityHold → AcquireCheckoutCapacityHoldInput → Bool
  same_request existing input =
      str_eq existing.installation_id input.installation_id
      && str_eq existing.requested_plan input.requested_plan
      && same_texts existing.requested_app_ids input.requested_app_ids
      && existing.infrastructure_monthly_cents == input.infrastructure_monthly_cents
      && existing.platform_fee_monthly_cents == input.platform_fee_monthly_cents
      && same_reservations
          (by_application (map (λ (i : CheckoutCapacityHoldItem). i.reservation) existing.items))
          (by_application input.reservations)
      && same_plan_capacity existing.plan_capacity.snapshot input.plan_capacity

  replay : AcquireCheckoutCapacityHoldInput → CheckoutCapacityHold → Result Acquired
  replay input existing =
      if not (same_request existing input)
      then thrown "The checkout idempotency key is already bound to a different capacity request."
      else returned (if is_active existing.state then replayed existing else unavailable)

  abbrev pub instant : Option ℕ → ℕ
  instant none = 0
  instant (some at) = at

  -- what follows the checks of the request
  respond : ℕ → (ℕ → String) → String → AcquireCheckoutCapacityHoldInput → Store → Result Acquired
  unfolding replay new_request
  respond now item_id hold_id input store =
      elim (find
        (λ (hold : CheckoutCapacityHold).
          str_eq hold.user_id input.user_id && str_eq hold.idempotency_key input.idempotency_key)
        (values store.checkout_capacity_holds)) [
          | some existing ↦ replay input existing
          | none ↦ returned (new_request now item_id hold_id input (instant input.expires_at) store)
        ]

  module _ (ops : NumberOps) (policy : PricingPolicy ops.Num) where
    check_usage : AcquireCheckoutCapacityHoldInput → Result (Unit {0})
    check_usage input = application_capacity_usage (map plain input.reservations) 0 >>= λ usage.
        throw_if (not (capacity_envelope_fit usage input.plan_capacity).fits)
          "Checkout applications exceed the configured plan quota."

    check_request : ℕ → AcquireCheckoutCapacityHoldInput → Result (Unit {0})
    unfolding check_usage
    check_request now input = do
      throw_if (not (in_future now input.expires_at))
          "Checkout capacity hold expiry must be in the future."
      throw_if (any incomplete input.reservations) "Checkout capacity reservations are incomplete."
      throw_if (has_duplicates input.reservations)
          "Checkout capacity reservations contain duplicate applications."
      check_configured_plan ops policy input.requested_plan
          "Checkout must persist the complete configured plan quota snapshot."
          "Checkout hold prices do not match the configured plan." input.plan_capacity
          input.infrastructure_monthly_cents input.platform_fee_monthly_cents (check_usage input)

    acquire_decision :
        ℕ → (ℕ → String) → String → AcquireCheckoutCapacityHoldInput → Store → Result Acquired
    unfolding check_request respond
    acquire_decision now item_id hold_id input store =
        check_request now input >> respond now item_id hold_id input store

    record_decision : Store → Result Acquired → Result (Option CheckoutCapacityHold) × Store
    record_decision store (thrown message) = (thrown message, store)
    record_decision store (returned unavailable) = (returned none, store)
    record_decision store (returned (replayed hold)) = (returned (some hold), store)
    record_decision store (returned (granted hold)) =
        (returned (some hold), put_hold store hold.id hold)

    unfoldable pub acquire_checkout_capacity_hold :
        ℕ
        → (ℕ → String)
        → String
        → AcquireCheckoutCapacityHoldInput
        → Store
        → Result (Option CheckoutCapacityHold) × Store
    unfolding expire_checkout_capacity_holds acquire_decision record_decision
    acquire_checkout_capacity_hold now item_id hold_id input store =
        let current = expire_checkout_capacity_holds now store in
        record_decision current (acquire_decision now item_id hold_id input current)
