-- ===== src/Installations/Created.antt =====
-- `createApplicationInstances` of server/repository.ts: applications that are added to an
-- installation, placed at once where it has an allocation.
use Prim.Native.Char.{code}
use Prim.Native.String
use managed_oss_cloud.Common.{
  ℕ, String, Bool, false, not, List, [], ◌∷◌, ◌++◌, Option, none, some, map, ◌==◌, str_eq,
  if◌then◌else◌,
}
use managed_oss_cloud.Common.Dict.{Dict, get, set}
use managed_oss_cloud.Common.Result.{Result, thrown, returned, throw_if, ◌>>=◌, ◌>>◌}
use managed_oss_cloud.Types.{ApplicationState}
use managed_oss_cloud.Capacity.{
  CapacityReservation, application_capacity_usage, capacity_envelope_fit,
}
use managed_oss_cloud.Placement.{CheckoutCapacityReservation, allocate_capacity}
use managed_oss_cloud.Store.{Store, slice, is_active_allocation}
use managed_oss_cloud.Store.Records.{ApplicationInstance, InstallationCapacityAllocation}
use managed_oss_cloud.Holds.Acquire.{eligible_workers}
use managed_oss_cloud.Checkout.Fulfil.{reserved_for}
use managed_oss_cloud.Installations.{expire_holds, has_checkout_hold, has_change_hold, taken_by}

-- `id.replaceAll("-", "")`
abbrev without_dashes : String → String
without_dashes String.[] = ""
without_dashes (String.◌∷◌ c s) =
    if code c == 45 then without_dashes s else String.◌∷◌ c (without_dashes s)

abbrev pub plain : CheckoutCapacityReservation → CapacityReservation
plain r = record {
  memory_reservation_mb = r.memory_reservation_mb;
  cpu_reservation_millis = r.cpu_reservation_millis;
  storage_reservation_gb = r.storage_reservation_gb;
}

-- A new application, for a request whose identifier has been drawn.
abbrev pub new_instance :
    ℕ → String → String → CheckoutCapacityReservation → Option String → ApplicationInstance
new_instance now installation_id hostname_base r worker =
    let id = r.application_instance_id in
    record {
      id = id;
      installation_id = installation_id;
      app_id = r.app_id;
      state = ApplicationState.queued;
      hostname =
          String.◌++◌ r.app_id
            (String.◌++◌ "-" (String.◌++◌ (slice 8 id) (String.◌++◌ "." hostname_base)));
      container_project = String.◌++◌ "mos-" (slice 12 (without_dashes id));
      custom_domains = [];
      last_health_at = none;
      worker_node_id = worker;
      memory_reservation_mb = r.memory_reservation_mb;
      cpu_reservation_millis = r.cpu_reservation_millis;
      storage_reservation_gb = r.storage_reservation_gb;
      created_at = now;
      updated_at = now;
    }

-- An empty name is no worker.
abbrev pub named : Option String → Option String
named none = none
named (some id) = if str_eq id "" then none else some id

-- The worker is one of the store's, as the placement was made on those.
abbrev pub reserve_on : CheckoutCapacityReservation → Option String → Store → Store
reserve_on r none store = store
reserve_on r (some id) store = elim (get store.workers id) [
  | none ↦ store
  | some worker ↦ record store { workers = set store.workers id (reserved_for r worker) }
]

pub add_each :
    ℕ
    → String
    → String
    → Dict String
    → List CheckoutCapacityReservation
    → Store
    → List ApplicationInstance × Store
add_each now installation_id hostname_base assignments [] store = ([], store)
add_each now installation_id hostname_base assignments (r ∷ rs) store =
    let worker = named (get assignments r.application_instance_id) in
    let instance = new_instance now installation_id hostname_base r worker in
    let reserved = reserve_on r worker store in
    let (rest, last) = add_each now installation_id hostname_base assignments rs (record reserved {
      applications = set reserved.applications r.application_instance_id instance;
    }) in
    (instance ∷ rest, last)

abbrev inactive : Option InstallationCapacityAllocation → Bool
inactive none = false
inactive (some a) = not (is_active_allocation a.state)

abbrev or_thrown {ℓ} : {A : Type ℓ} → String → Option A → Result A
or_thrown message none = thrown message
or_thrown message (some a) = returned a

module _ (locale_before : String → String → Bool) where
  -- the placement under an allocation; without one nothing is placed
  assignments_for :
      ℕ
      → String
      → List CheckoutCapacityReservation
      → ℕ
      → Store
      → Option InstallationCapacityAllocation
      → Result (Dict String)
  unfolding eligible_workers
  assignments_for now id requested safety store none = returned []
  assignments_for now id requested safety store (some allocation) = do
    usage ← application_capacity_usage (taken_by id store ++ map plain requested) safety
    throw_if (not (capacity_envelope_fit usage allocation.snapshot).fits)
        "The paid plan quota cannot contain these additional applications."
    or_thrown "The worker pool cannot reserve these application resources."
        (allocate_capacity locale_before (eligible_workers locale_before now store) requested)

  -- everything that is checked before something is written
  unfoldable pub checked_assignments :
      ℕ → String → List CheckoutCapacityReservation → ℕ → Store → Result (Dict String)
  unfolding assignments_for
  checked_assignments now id requested safety store = do
    throw_if (has_checkout_hold id store) "The installation has an active checkout capacity hold."
    throw_if (has_change_hold id store) "The installation has an active plan quota change hold."
    throw_if (inactive (get store.capacity_allocations id)) "The paid plan quota is not active."
    assignments_for now id requested safety store (get store.capacity_allocations id)

  add_checked :
      ℕ
      → String
      → String
      → List CheckoutCapacityReservation
      → Store
      → Result (Dict String)
      → Result (List ApplicationInstance) × Store
  unfolding add_each
  add_checked now id hostname_base requested store (thrown message) = (thrown message, store)
  add_checked now id hostname_base requested store (returned assignments) =
      let (instances, after) = add_each now id hostname_base assignments requested store in
      (returned instances, after)

  -- Each request comes with the identifier that is drawn for it.
  unfoldable pub create_application_instances :
      ℕ
      → String
      → List CheckoutCapacityReservation
      → String
      → ℕ
      → Store
      → Result (List ApplicationInstance) × Store
  unfolding expire_holds checked_assignments add_checked
  create_application_instances now id requested hostname_base safety store =
      let current = expire_holds now store in
      add_checked now id hostname_base requested current
        (checked_assignments now id requested safety current)
