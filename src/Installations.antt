-- ===== src/Installations.antt =====
-- The installations of `MemoryRepository`, server/repository.ts: their creation, plans, domains and
-- applications, and the room that is left for more.
pub mod Created
pub mod Clones
pub mod Frozen
pub mod Replayed
mod Tests
use Prim.Native.String
use managed_oss_cloud.Common.{
  ℕ, suc, ◌+◌, String, Bool, true, false, not, ◌&&◌, ◌||◌, List, [], ◌∷◌, ◌++◌, Option, none, some,
  ltb, leb, any, find, keep, map, given, str_eq, if◌then◌else◌,
}
use managed_oss_cloud.Common.Dict.{Dict, get, set, values}
use managed_oss_cloud.Common.Result.{Result, thrown, returned, throw_if, ◌>>=◌, ◌>>◌}
use managed_oss_cloud.Common.Sort.{sort}
use managed_oss_cloud.Types.{
  OwnershipInstructions, WorkerNode, InstallationState, ApplicationState, VerificationStatus,
  CustomDomain, BackupRecord,
}
use managed_oss_cloud.Hostnames.{
  HostnameClaim, HostnameClaimInput, HostnameClaimSurface, HostnameClaimStatus, Claimed, refused,
  waiting, claimed, claim, set_status, get_claim, import_claim, hostname_ownership_instructions,
}
use managed_oss_cloud.Capacity.{
  CapacityReservation, application_capacity_usage, capacity_envelope_fit,
}
use managed_oss_cloud.Placement.{CheckoutCapacityReservation, allocate_capacity}
use managed_oss_cloud.Store.{Store, is_active, is_active_allocation}
use managed_oss_cloud.Store.Records.{
  Installation, ApplicationInstance, InstallationCapacityAllocation, CheckoutCapacityHold,
  PlanCapacityChangeHold,
}
use managed_oss_cloud.Holds.{
  expire_checkout_capacity_holds, workers_with_active_checkout_holds, holds_installation,
}
use managed_oss_cloud.Holds.Acquire.{is_fresh}
use managed_oss_cloud.Resize.{expire_plan_capacity_change_holds}

abbrev of_installation : String → ApplicationInstance → Bool
of_installation id app = str_eq app.installation_id id

-- An installation with its applications
pub record InstallationView : Type 0 where
  pub installation : Installation
  pub applications : List ApplicationInstance

abbrev pub view : Store → Installation → InstallationView
view store item = record {
  installation = item;
  applications = keep (of_installation item.id) (values store.applications);
}

-- Latest first: the texts of instants are in the order of the instants.
unfoldable pub list_installations : String → Store → List InstallationView
list_installations user_id store =
    sort (λ (a b : InstallationView). ltb b.installation.created_at a.installation.created_at)
      (map (view store)
        (keep (λ (i : Installation). str_eq i.user_id user_id) (values store.installations)))

-- The fields of the input are those of the record, with its own identifier and instants.
unfoldable pub create_installation : ℕ → String → Installation → Store → Installation × Store
create_installation now id input store =
    let installation : Installation = record input {
      id = id;
      created_at = now;
      updated_at = now;
    } in
    (installation, record store { installations = set store.installations id installation })

abbrev pub owned : String → Option Installation → Option Installation
owned user_id none = none
owned user_id (some item) = if str_eq item.user_id user_id then some item else none

unfoldable pub get_installation : String → String → Store → Option InstallationView
get_installation user_id id store = elim (owned user_id (get store.installations id)) [
  | none ↦ none
  | some item ↦ some (view store item)
]

unfoldable pub get_application_instance : String → String → Store → Option ApplicationInstance
get_application_instance user_id id store = elim (get store.applications id) [
  | none ↦ none
  | some app ↦ elim (owned user_id (get store.installations app.installation_id)) [
    | none ↦ none
    | some item ↦ some app
  ]
]

unfoldable pub list_backups : String → String → Store → List BackupRecord
list_backups user_id installation_id store =
    elim (owned user_id (get store.installations installation_id)) [
      | none ↦ []
      | some item ↦
          keep (λ (b : BackupRecord). str_eq b.installation_id installation_id) store.backups
    ]

abbrev domain_input : String → String → String → HostnameClaimInput
domain_input user_id application_id domain = record {
  hostname = domain;
  surface = HostnameClaimSurface.application;
  owner_user_id = user_id;
  resource_id = application_id;
}

-- the writes of `addDomain` once the hostname is claimed
abbrev with_domain :
    ℕ
    → String
    → Installation
    → ApplicationInstance
    → CustomDomain
    → Dict HostnameClaim
    → Store
    → Store
with_domain now id item app domain registry store = record store {
  hostname_registry = registry;
  installations = set store.installations id (record item {
    custom_domains = item.custom_domains ++ domain.domain ∷ [];
    updated_at = now;
  });
  applications =
      set store.applications app.id
        (record app { custom_domains = app.custom_domains ++ domain ∷ [] });
}

abbrev pending_domain :
    String → ApplicationInstance → HostnameClaim → OwnershipInstructions → CustomDomain
pending_domain domain_id app claim ownership = record {
  id = domain_id;
  application_instance_id = app.id;
  domain = claim.hostname;
  verification_status = VerificationStatus.awaiting_dns;
  ownership = ownership;
  last_checked_at = none;
}

-- What an answer of the registry comes to; `waiting` is none, for its draws ran out. The
-- instructions throw on a target that is no hostname; the claim then stays.
record_domain :
    ℕ
    → String
    → String
    → String
    → Installation
    → ApplicationInstance
    → Store
    → Claimed × Dict HostnameClaim
    → Result (Option CustomDomain) × Store
record_domain now domain_id target id item app store (refused, registry) = (returned none, store)
record_domain now domain_id target id item app store (waiting, registry) = (returned none, store)
record_domain now domain_id target id item app store (claimed claim, registry) =
    elim (hostname_ownership_instructions claim target) [
      | thrown message ↦ (thrown message, record store { hostname_registry = registry })
      | returned ownership ↦
          let domain = pending_domain domain_id app claim ownership in
          (returned (some domain), with_domain now id item app domain registry store)
    ]

claim_domain :
    ℕ
    → List (String × String)
    → String
    → String
    → List String
    → String
    → String
    → String
    → Installation
    → Store
    → Option ApplicationInstance
    → Result (Option CustomDomain) × Store
unfolding claim record_domain
claim_domain now draws domain_id target suffixes user_id id domain item store none =
    (returned none, store)
claim_domain now draws domain_id target suffixes user_id id domain item store (some app) =
    elim (claim now draws (domain_input user_id app.id domain) suffixes store.hostname_registry) [
      | thrown message ↦ (thrown message, store)
      | returned answer ↦ record_domain now domain_id target id item app store answer
    ]

-- The answer is the new domain; the source also returns the installation. The public host target
-- and the platform's suffixes are configuration.
unfoldable pub add_domain :
    ℕ
    → List (String × String)
    → String
    → String
    → List String
    → String
    → String
    → String
    → Store
    → Result (Option CustomDomain) × Store
unfolding claim_domain
add_domain now draws domain_id target suffixes user_id id domain store =
    elim (owned user_id (get store.installations id)) [
      | none ↦ (returned none, store)
      | some item ↦
          claim_domain now draws domain_id target suffixes user_id id domain item store
            (find (of_installation id) (values store.applications))
    ]

-- the status of the claim for that of a domain; a failed check is not stored
abbrev claim_status : VerificationStatus → Option HostnameClaimStatus
claim_status VerificationStatus.awaiting_dns = some HostnameClaimStatus.pending
claim_status VerificationStatus.verified = some HostnameClaimStatus.verified
claim_status VerificationStatus.active = some HostnameClaimStatus.active
claim_status VerificationStatus.failed = none

abbrev checked_domain : VerificationStatus → Option ℕ → CustomDomain → CustomDomain
checked_domain status checked_at item = record item {
  verification_status = status;
  last_checked_at = checked_at;
}

-- a write to the first domain of that name
abbrev update_domain :
    String → (CustomDomain → CustomDomain) → List CustomDomain → List CustomDomain
update_domain name f [] = []
update_domain name f (item ∷ items) =
    if str_eq item.domain name then f item ∷ items else item ∷ update_domain name f items

record_status :
    VerificationStatus
    → ApplicationInstance
    → CustomDomain
    → Store
    → Option HostnameClaim × Dict HostnameClaim
    → Option CustomDomain × Store
record_status status app item store (none, registry) = (none, store)
record_status status app item store (some claim, registry) = (
  some (checked_domain status claim.last_checked_at item),
  record store {
    hostname_registry = registry;
    applications = set store.applications app.id (record app {
      custom_domains =
          update_domain item.domain (checked_domain status claim.last_checked_at)
            app.custom_domains;
    });
  },
)

abbrev found_domain :
    String → Option ApplicationInstance → Option (ApplicationInstance × CustomDomain)
found_domain domain none = none
found_domain domain (some app) =
    elim (find (λ (item : CustomDomain). str_eq item.domain domain) app.custom_domains) [
      | none ↦ none
      | some item ↦ some (app, item)
    ]

set_found :
    ℕ
    → String
    → VerificationStatus
    → Store
    → Option (ApplicationInstance × CustomDomain)
    → Option HostnameClaimStatus
    → Result (Option CustomDomain × Store)
unfolding set_status record_status
set_found now user_id status store (some (app, item)) (some new) =
    set_status now (domain_input user_id app.id item.domain) new store.hostname_registry
    >>= λ answer. returned (record_status status app item store answer)
set_found now user_id status store _ _ = returned (none, store)

unfoldable pub set_domain_status :
    ℕ → String → String → String → VerificationStatus → Store → Result (Option CustomDomain × Store)
unfolding set_found
set_domain_status now user_id installation_id domain status store =
    elim (owned user_id (get store.installations installation_id)) [
      | none ↦ returned (none, store)
      | some item ↦
          set_found now user_id status store
            (found_domain domain
              (find (of_installation installation_id) (values store.applications)))
            (claim_status status)
    ]

-- Both kinds of holds expire.
unfoldable pub expire_holds : ℕ → Store → Store
unfolding expire_checkout_capacity_holds expire_plan_capacity_change_holds
expire_holds now store =
    expire_plan_capacity_change_holds now (expire_checkout_capacity_holds now store)

abbrev pub has_checkout_hold : String → Store → Bool
has_checkout_hold id store = any (holds_installation id) (values store.checkout_capacity_holds)

abbrev pub has_change_hold : String → Store → Bool
has_change_hold id store =
    any (λ (hold : PlanCapacityChangeHold). str_eq hold.installation_id id && is_active hold.state)
      (values store.plan_capacity_change_holds)

abbrev pub is_held : String → Store → Bool
is_held id store = has_checkout_hold id store || has_change_hold id store

abbrev put_item : Store → String → Installation → Store
put_item store id item = record store { installations = set store.installations id item }

unfoldable pub upgrade : ℕ → String → String → String → Store → Option InstallationView × Store
unfolding expire_holds
upgrade now user_id id plan store = elim (owned user_id (get store.installations id)) [
  | none ↦ (none, store)
  | some item ↦
      let current = expire_holds now store in
      if is_held id current
      then (none, current)
      else let changed : Installation = record item { plan = plan; updated_at = now } in
        (some (view current changed), put_item current id changed)
]

unfoldable pub append_application_id : ℕ → String → String → Store → Store
unfolding expire_holds
append_application_id now id app_id store = elim (get store.installations id) [
  | none ↦ store
  | some item ↦
      let current = expire_holds now store in
      if is_held id current
      then current
      else put_item current id
          (record item { app_ids = item.app_ids ++ app_id ∷ []; updated_at = now })
]

abbrev pub reservation_of : ApplicationInstance → CapacityReservation
reservation_of a = record {
  memory_reservation_mb = a.memory_reservation_mb;
  cpu_reservation_millis = a.cpu_reservation_millis;
  storage_reservation_gb = a.storage_reservation_gb;
}

-- what the applications of an installation take
abbrev pub taken_by : String → Store → List CapacityReservation
taken_by id store = map reservation_of (keep (of_installation id) (values store.applications))

-- `capacity-check-${index}`, the text of an index, is a parameter.
abbrev named_from : (ℕ → String) → ℕ → List CapacityReservation → List CheckoutCapacityReservation
named_from check_id i [] = []
named_from check_id i (r ∷ rs) =
    (record {
      application_instance_id = check_id i;
      app_id = check_id i;
      memory_reservation_mb = r.memory_reservation_mb;
      cpu_reservation_millis = r.cpu_reservation_millis;
      storage_reservation_gb = r.storage_reservation_gb;
    })
    ∷ named_from check_id (suc i) rs

abbrev is_placed {ℓ} : {A : Type ℓ} → Option A → Bool
is_placed none = false
is_placed (some a) = true

module _ (locale_before : String → String → Bool) (check_id : ℕ → String) where
  unfoldable pub capacity_can_fit : List WorkerNode → List CapacityReservation → Bool
  capacity_can_fit workers reservations =
      is_placed (allocate_capacity locale_before workers (named_from check_id 0 reservations))

  -- the check of an installation without an allocation, on its own worker
  abbrev worker_has_room : CapacityReservation → Option WorkerNode → Bool
  worker_has_room r none = false
  worker_has_room r (some worker) =
      leb (worker.reserved_memory_mb + worker.system_reserve_memory_mb + r.memory_reservation_mb)
        worker.capacity_memory_mb
      && leb (worker.reserved_cpu_millis + r.cpu_reservation_millis) worker.capacity_cpu_millis
      && leb (worker.reserved_storage_gb + r.storage_reservation_gb) worker.capacity_storage_gb

  abbrev home_worker : Option Installation → Option String
  home_worker none = none
  home_worker (some item) = item.worker_node_id

  abbrev has_home_room : ℕ → CapacityReservation → Store → Option String → Bool
  has_home_room now r store none = true
  has_home_room now r store (some id) =
      str_eq id ""
      || worker_has_room r
          (find (λ (w : WorkerNode). str_eq w.id id) (workers_with_active_checkout_holds now store))

  fits_allocation :
      ℕ → String → CapacityReservation → ℕ → Store → InstallationCapacityAllocation → Result Bool
  unfolding capacity_can_fit
  fits_allocation now id r safety store allocation =
      if not (is_active_allocation allocation.state)
      then returned false
      else application_capacity_usage (taken_by id store ++ r ∷ []) safety >>= λ usage.
          returned (capacity_envelope_fit usage allocation.snapshot).fits >>= λ fits. returned (
            fits
            && capacity_can_fit (keep (is_fresh now) (workers_with_active_checkout_holds now store))
                (r ∷ []))

  -- The answer alone: the expiry of the holds is the other effect.
  unfoldable pub can_reserve_on_installation_worker :
      ℕ → String → CapacityReservation → ℕ → Store → Result Bool
  unfolding fits_allocation expire_plan_capacity_change_holds
  can_reserve_on_installation_worker now id r safety store =
      let current = expire_plan_capacity_change_holds now store in
      if has_change_hold id current
      then returned false
      else elim (get current.capacity_allocations id) [
        | some allocation ↦ fits_allocation now id r safety current allocation
        | none ↦ returned (has_home_room now r current (home_worker (get current.installations id)))
      ]

  unfoldable pub has_fresh_provisioning_capacity : ℕ → List CapacityReservation → Store → Bool
  unfolding capacity_can_fit
  has_fresh_provisioning_capacity now reservations store =
      capacity_can_fit (keep (is_fresh now) (workers_with_active_checkout_holds now store))
        reservations

-- The creation of a customer at the payment provider is the argument.
unfoldable pub get_or_create_stripe_customer : String → String → Store → String × Store
get_or_create_stripe_customer user_id created store = elim (get store.stripe_customers user_id) [
  | none ↦ (created, record store { stripe_customers = set store.stripe_customers user_id created })
  | some existing ↦
      if str_eq existing ""
      then (created, record store { stripe_customers = set store.stripe_customers user_id created })
      else (existing, store)
]

abbrev is_for_application : HostnameClaimSurface → Bool
is_for_application HostnameClaimSurface.application = true
is_for_application HostnameClaimSurface.suite = false

-- The claim that the present registry has for a domain, if it is the application's.
abbrev intact_claim :
    ApplicationInstance → CustomDomain → Option HostnameClaim → Result HostnameClaim
intact_claim app domain none =
    thrown (
      String.◌++◌ "Application hostname claim integrity failed for "
        (String.◌++◌ domain.domain "."))
intact_claim app domain (some claim) =
    if str_eq claim.id domain.ownership.claim_id
      && is_for_application claim.surface
      && str_eq claim.resource_id app.id
    then returned claim
    else thrown (
        String.◌++◌ "Application hostname claim integrity failed for "
          (String.◌++◌ domain.domain "."))

import_domains :
    Dict HostnameClaim
    → ApplicationInstance
    → List CustomDomain
    → Dict HostnameClaim
    → Result (Dict HostnameClaim)
unfolding get_claim import_claim
import_domains present app [] registry = returned registry
import_domains present app (domain ∷ domains) registry = do
  found ← get_claim domain.domain present
  claim ← intact_claim app domain found
  next ← import_claim claim registry
  import_domains present app domains next

import_applications :
    Dict HostnameClaim → List ApplicationInstance → Dict HostnameClaim → Result (Dict HostnameClaim)
unfolding import_domains
import_applications present [] registry = returned registry
import_applications present (app ∷ apps) registry =
    import_domains present app app.custom_domains registry >>= λ next.
    import_applications present apps next

-- Another registry takes over the claims of the applications. Where this throws, the repository
-- keeps the present registry; what the other had taken by then is left out. A registry that is
-- attached already is left alone by the caller's test of identity.
unfoldable pub attach_hostname_registry : Dict HostnameClaim → Store → Result Store
unfolding import_applications
attach_hostname_registry registry store =
    import_applications store.hostname_registry (values store.applications) registry >>= λ next.
    returned (record store { hostname_registry = next })
