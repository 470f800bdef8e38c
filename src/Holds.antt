-- ===== src/Holds.antt =====
-- The checkout capacity holds of `MemoryRepository`, server/repository.ts: while a customer pays,
-- the capacity of the selection is held on the workers.
pub mod Acquire
pub mod Held
pub mod NoOvercommit
pub mod Steps
pub mod OneActive
pub mod Ended
mod Tests
use managed_oss_cloud.Common.{
  ℕ, ◌+◌, String, Bool, true, false, not, ◌&&◌, ◌||◌, List, [], ◌∷◌, Option, none, some, leb, map,
  any, given, str_eq, if◌then◌else◌,
}
use managed_oss_cloud.Common.Dict.{Dict, get, set, values, update_all}
use managed_oss_cloud.Types.{WorkerNode}
use managed_oss_cloud.Capacity.{CapacityReservation}
use managed_oss_cloud.Store.{Store, is_active, is_given, in_future, slice}
use managed_oss_cloud.Store.Records.{
  CheckoutCapacityHold, CheckoutCapacityHoldItem, StoredWorker, AttachCheckoutSessionInput, expired,
  released,
}

-- `expireCheckoutCapacityHolds`: the body of the loop
abbrev pub expire_hold : ℕ → CheckoutCapacityHold → CheckoutCapacityHold
expire_hold now hold =
    if not (is_active hold.state) || not (leb hold.expires_at now)
    then hold
    else record hold { state = expired; expired_at = some now; updated_at = now }

unfoldable pub expire_checkout_capacity_holds : ℕ → Store → Store
expire_checkout_capacity_holds now store = record store {
  checkout_capacity_holds = update_all (expire_hold now) store.checkout_capacity_holds;
}

abbrev pub nothing_held : CapacityReservation
nothing_held = record {
  memory_reservation_mb = 0;
  cpu_reservation_millis = 0;
  storage_reservation_gb = 0;
}

abbrev pub or_nothing : Option CapacityReservation → CapacityReservation
or_nothing none = nothing_held
or_nothing (some usage) = usage

abbrev pub add_reservation : CapacityReservation → CheckoutCapacityHoldItem → CapacityReservation
add_reservation usage item = record {
  memory_reservation_mb = usage.memory_reservation_mb + item.reservation.memory_reservation_mb;
  cpu_reservation_millis = usage.cpu_reservation_millis + item.reservation.cpu_reservation_millis;
  storage_reservation_gb = usage.storage_reservation_gb + item.reservation.storage_reservation_gb;
}

abbrev text_or_undefined : Option String → String
text_or_undefined none = "undefined"
text_or_undefined (some s) = s

abbrev pub item_worker : CheckoutCapacityHoldItem → String
item_worker item = text_or_undefined item.worker_node_id

pub hold_item : Dict CapacityReservation → CheckoutCapacityHoldItem → Dict CapacityReservation
hold_item held item =
    set held (item_worker item) (add_reservation (or_nothing (get held (item_worker item))) item)

pub hold_items : Dict CapacityReservation → List CheckoutCapacityHoldItem → Dict CapacityReservation
hold_items held [] = held
hold_items held (item ∷ items) = hold_items (hold_item held item) items

-- the two loops that add up what the active holds take of each worker
pub held_by : Dict CapacityReservation → List CheckoutCapacityHold → Dict CapacityReservation
held_by held [] = held
held_by held (hold ∷ holds) =
    held_by (if is_active hold.state then hold_items held hold.items else held) holds

abbrev pub with_held : Dict CapacityReservation → StoredWorker → WorkerNode
with_held held worker =
    let usage = or_nothing (get held worker.node.id) in
    record worker.node {
      reserved_memory_mb = worker.node.reserved_memory_mb + usage.memory_reservation_mb;
      reserved_cpu_millis = worker.node.reserved_cpu_millis + usage.cpu_reservation_millis;
      reserved_storage_gb = worker.node.reserved_storage_gb + usage.storage_reservation_gb;
    }

-- The workers alone: the expiry that comes first is also a change of the store.
unfoldable pub workers_with_active_checkout_holds : ℕ → Store → List WorkerNode
unfolding expire_checkout_capacity_holds held_by hold_items hold_item
workers_with_active_checkout_holds now store =
    let current = expire_checkout_capacity_holds now store in
    map (with_held (held_by [] (values current.checkout_capacity_holds))) (values store.workers)

abbrev pub differs : Option String → String → Bool
differs old new = given old && not (is_given old new)

abbrev pub instant_differs : Option ℕ → Option ℕ → Bool
instant_differs none new = false
instant_differs (some old) none = true
instant_differs (some old) (some new) = not (leb old new && leb new old)

abbrev pub at_most : Option ℕ → ℕ → Bool
at_most none bound = false
at_most (some at) bound = leb at bound

-- The guards of `attachCheckoutSession`, in their order.
abbrev may_attach : ℕ → AttachCheckoutSessionInput → Store → CheckoutCapacityHold → Bool
may_attach now input store hold =
    str_eq hold.user_id input.user_id
    && is_active hold.state
    && is_given (get store.stripe_customers input.user_id) input.stripe_customer_id
    && in_future now input.stripe_checkout_expires_at
    && at_most input.stripe_checkout_expires_at hold.expires_at
    && not (
        any
          (λ (other : CheckoutCapacityHold).
            not (str_eq other.id hold.id)
            && is_given other.stripe_checkout_session_id input.stripe_checkout_session_id)
          (values store.checkout_capacity_holds))
    && not (differs hold.stripe_customer_id input.stripe_customer_id)
    && not (differs hold.stripe_checkout_session_id input.stripe_checkout_session_id)
    && not (instant_differs hold.stripe_checkout_expires_at input.stripe_checkout_expires_at)

abbrev pub put_hold : Store → String → CheckoutCapacityHold → Store
put_hold store id hold = record store {
  checkout_capacity_holds = set store.checkout_capacity_holds id hold;
}

abbrev pub attached : ℕ → AttachCheckoutSessionInput → CheckoutCapacityHold → CheckoutCapacityHold
attached now input hold = record hold {
  stripe_customer_id = some input.stripe_customer_id;
  stripe_checkout_session_id = some input.stripe_checkout_session_id;
  stripe_checkout_expires_at = input.stripe_checkout_expires_at;
  updated_at = now;
}

attach_to : ℕ → AttachCheckoutSessionInput → Store → Option CheckoutCapacityHold → Bool × Store
attach_to now input store none = (false, store)
attach_to now input store (some hold) =
    if may_attach now input store hold
    then (true, put_hold store input.hold_id (attached now input hold))
    else (false, store)

unfoldable pub attach_checkout_session : ℕ → AttachCheckoutSessionInput → Store → Bool × Store
unfolding expire_checkout_capacity_holds attach_to
attach_checkout_session now input store =
    let current = expire_checkout_capacity_holds now store in
    attach_to now input current (get current.checkout_capacity_holds input.hold_id)

abbrev pub release_hold : ℕ → String → CheckoutCapacityHold → CheckoutCapacityHold
release_hold now reason hold = record hold {
  state = released;
  released_at = some now;
  release_reason = some (slice 500 reason);
  updated_at = now;
}

release_of : ℕ → String → String → String → Store → Option CheckoutCapacityHold → Bool × Store
release_of now hold_id user_id reason store none = (false, store)
release_of now hold_id user_id reason store (some hold) =
    if str_eq hold.user_id user_id && is_active hold.state
    then (true, put_hold store hold_id (release_hold now reason hold))
    else (false, store)

unfoldable pub release_checkout_capacity_hold : ℕ → String → String → String → Store → Bool × Store
unfolding expire_checkout_capacity_holds release_of
release_checkout_capacity_hold now hold_id user_id reason store =
    let current = expire_checkout_capacity_holds now store in
    release_of now hold_id user_id reason current (get current.checkout_capacity_holds hold_id)

unfoldable pub get_checkout_capacity_hold : ℕ → String → Store → Option CheckoutCapacityHold × Store
unfolding expire_checkout_capacity_holds
get_checkout_capacity_hold now hold_id store =
    let current = expire_checkout_capacity_holds now store in
    (get current.checkout_capacity_holds hold_id, current)

-- an active hold of an installation
abbrev pub holds_installation : String → CheckoutCapacityHold → Bool
holds_installation installation_id hold =
    str_eq hold.installation_id installation_id && is_active hold.state

unfoldable pub has_active_checkout_capacity_hold : ℕ → String → Store → Bool × Store
unfolding expire_checkout_capacity_holds
has_active_checkout_capacity_hold now installation_id store =
    let current = expire_checkout_capacity_holds now store in
    (any (holds_installation installation_id) (values current.checkout_capacity_holds), current)
