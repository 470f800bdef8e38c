-- ===== src/Entitlement.antt =====
-- The subscriptions of `MemoryRepository`, server/repository.ts, and what follows from them for an
-- installation: its capacity allocation, its state, its jobs and the plan of its owner's suite.
pub mod Suspended
pub mod Plans
mod Tests
use managed_oss_cloud.Common.{
  ℕ, suc, String, Bool, true, false, not, ◌&&◌, ◌||◌, List, [], ◌∷◌, Option, none, some, ltb, any,
  find, keep, map, given, one_of, str_eq, if◌then◌else◌,
}
use managed_oss_cloud.Common.Dict.{Dict, get, set, values, update_all}
use managed_oss_cloud.Common.Sort.{sort}
use managed_oss_cloud.Types.{InstallationState, ApplicationState}
use managed_oss_cloud.Store.{
  Store, is_active, is_given, slice, is_entitled_status, hosting_entitlement_active,
}
use managed_oss_cloud.Store.Records.{
  Installation, ApplicationInstance, StoredSubscription, InstallationCapacityAllocation,
  PlanCapacityChangeHold, AllocationState, HoldState,
}
use managed_oss_cloud.Jobs.{stop_applications, fail_paid_job}

-- `ReconciledSubscription`
pub record ReconciledSubscription : Type 0 where
  pub user_id : String
  pub installation_id : String
  pub provider_subscription_id : String
  pub status : String
  pub infrastructure_monthly_cents : ℕ
  pub platform_fee_monthly_cents : ℕ

abbrev pub release_change_hold :
    ℕ → String → String → PlanCapacityChangeHold → PlanCapacityChangeHold
release_change_hold now installation_id reason hold =
    if not (str_eq hold.installation_id installation_id) || not (is_active hold.state)
    then hold
    else record hold {
      state = HoldState.released;
      released_at = some now;
      release_reason = some (slice 500 reason);
      updated_at = now;
    }

abbrev pub suspended_allocation :
    ℕ → String → InstallationCapacityAllocation → InstallationCapacityAllocation
suspended_allocation now reason allocation = record allocation {
  state = AllocationState.suspended;
  generation = suc allocation.generation;
  suspended_at = some now;
  release_reason = some (slice 500 reason);
  updated_at = now;
}

abbrev pub reactivated_allocation :
    ℕ → InstallationCapacityAllocation → InstallationCapacityAllocation
reactivated_allocation now allocation = record allocation {
  state = AllocationState.active;
  generation = suc allocation.generation;
  suspended_at = none;
  release_reason = none;
  updated_at = now;
}

pub synchronized :
    ℕ → Bool → String → String → Store → InstallationCapacityAllocation → AllocationState → Store
synchronized now false reason id store allocation AllocationState.active = record store {
  plan_capacity_change_holds =
      update_all (release_change_hold now id reason) store.plan_capacity_change_holds;
  capacity_allocations =
      set store.capacity_allocations id (suspended_allocation now reason allocation);
}
synchronized now true reason id store allocation AllocationState.suspended = record store {
  capacity_allocations = set store.capacity_allocations id (reactivated_allocation now allocation);
}
synchronized now entitled reason id store allocation _ = store

unfoldable pub synchronize_capacity_allocation_entitlement :
    ℕ → String → Bool → String → Store → Store
unfolding synchronized
synchronize_capacity_allocation_entitlement now installation_id entitlement_active reason store =
    elim (get store.capacity_allocations installation_id) [
      | none ↦ store
      | some a ↦ synchronized now entitlement_active reason installation_id store a a.state
    ]

abbrev id_or : Option StoredSubscription → String → String
id_or none fresh = fresh
id_or (some s) fresh = s.id

abbrev pub plan_of : Store → String → Option String
plan_of store installation_id = elim (get store.installations installation_id) [
  | none ↦ none
  | some i ↦ some i.plan
]

-- The new subscription takes the identifier of the one that it replaces.
unfoldable pub record_subscription : String → ReconciledSubscription → Store → Store
record_subscription fresh_id input store = record store {
  subscriptions = set store.subscriptions input.provider_subscription_id (record {
    id = id_or (get store.subscriptions input.provider_subscription_id) fresh_id;
    user_id = input.user_id;
    installation_id = some input.installation_id;
    provider_subscription_id = some input.provider_subscription_id;
    status = input.status;
    infrastructure_monthly_cents = input.infrastructure_monthly_cents;
    platform_fee_monthly_cents = input.platform_fee_monthly_cents;
    installation_plan = plan_of store input.installation_id;
  });
}

abbrev pub current_plan : Store → Option String → Option String
current_plan store none = none
current_plan store (some id) = if str_eq id "" then none else plan_of store id

unfoldable pub list_subscriptions : Store → List StoredSubscription
list_subscriptions store =
    map
      (λ (s : StoredSubscription). record s {
        installation_plan = current_plan store s.installation_id;
      })
      (values store.subscriptions)

abbrev provider_id : Option StoredSubscription → Option String
provider_id none = none
provider_id (some s) = if given s.provider_subscription_id then s.provider_subscription_id else none

unfoldable pub get_active_subscription : String → String → Store → Option String
get_active_subscription user_id installation_id store = provider_id (
    find
      (λ (s : StoredSubscription).
        str_eq s.user_id user_id
        && is_given s.installation_id installation_id
        && is_entitled_status s.status
        && given s.provider_subscription_id)
      (values store.subscriptions))

-- `installation.state` when an entitlement ends, with the reasons that are recorded
abbrev pub suspended_installation : ℕ → String → Installation → Installation
suspended_installation now reason installation = record installation {
  state = InstallationState.suspended;
  failure_reason = some reason;
  updated_at = now;
}

abbrev pub is_suspended : InstallationState → Bool
is_suspended InstallationState.suspended = true
is_suspended _ = false

abbrev pub is_live : ApplicationState → Bool
is_live ApplicationState.live = true
is_live _ = false

abbrev pub resumed_installation : ℕ → List ApplicationInstance → Installation → Installation
resumed_installation now apps installation = record installation {
  state =
      if any
        (λ (a : ApplicationInstance). str_eq a.installation_id installation.id && is_live a.state)
        apps
      then InstallationState.live
      else InstallationState.provisioning;
  failure_reason = none;
  updated_at = now;
}

-- What happens to an installation whose entitlement ended: it is suspended, its open paid jobs
-- fail, and its running applications are stopped.
pub suspend : ℕ → String → String → (String → String) → String → Installation → Store → Store
unfolding stop_applications
suspend now reason stop_reason job_id key installation store =
    stop_applications now stop_reason job_id installation.id
      (record store {
        installations =
            set store.installations key (suspended_installation now reason installation);
        jobs = update_all (fail_paid_job installation.id) store.jobs;
      })
      (values store.applications)

abbrev pub put_installation : Store → String → Installation → Store
put_installation store key installation = record store {
  installations = set store.installations key installation;
}

-- The two branches of `updateSubscriptionStatus` on the installation.
pub follow_entitlement : ℕ → (String → String) → Bool → String → Option Installation → Store → Store
unfolding suspend
follow_entitlement now job_id entitled key none store = store
follow_entitlement now job_id false key (some installation) store =
    suspend now "Subscription inactive; customer routes and paid mutations are suspended."
      "subscription_inactive" job_id key installation store
follow_entitlement now job_id true key (some installation) store =
    if is_suspended installation.state
    then put_installation store key
        (resumed_installation now (values store.applications) installation)
    else store

abbrev pub put_subscription : Store → String → StoredSubscription → Store
put_subscription store key subscription = record store {
  subscriptions = set store.subscriptions key subscription;
}

-- Both references of the subscription are there.
abbrev pub is_bound : StoredSubscription → Option String
is_bound s =
    if given s.provider_subscription_id && given s.installation_id then s.installation_id else none

module _ (unrestricted : Bool) where
  abbrev pub is_entitled : Store → String → Bool
  is_entitled store installation_id =
      hosting_entitlement_active unrestricted store.subscriptions installation_id

  -- the steps after the new status is stored
  pub settle_entitlement : ℕ → (String → String) → String → Store → Store
  unfolding synchronize_capacity_allocation_entitlement follow_entitlement
  settle_entitlement now job_id installation_id store =
      let entitled = is_entitled store installation_id in
      let synced =
        synchronize_capacity_allocation_entitlement now installation_id entitled
          "Subscription became inactive." store in
      follow_entitlement now job_id entitled installation_id
        (get synced.installations installation_id) synced

  -- The answer is the user and the installation.
  unfoldable pub update_subscription_status :
      ℕ → (String → String) → String → String → Store → Option (String × String) × Store
  unfolding settle_entitlement
  update_subscription_status now job_id provider_subscription_id status store =
      elim (get store.subscriptions provider_subscription_id) [
        | none ↦ (none, store)
        | some item ↦ elim (is_bound item) [
          | none ↦ (none, store)
          | some installation_id ↦ (
            some (item.user_id, installation_id),
            settle_entitlement now job_id installation_id
                (put_subscription store provider_subscription_id (record item { status = status })),
          )
        ]
      ]

  abbrev deactivate : List String → StoredSubscription → StoredSubscription
  deactivate ids item = if one_of ids item.id then record item { status = "inactive" } else item

  record_each : (String → String) → List ReconciledSubscription → Store → Store
  unfolding record_subscription
  record_each subscription_id [] store = store
  record_each subscription_id (item ∷ items) store =
      record_each subscription_id items
        (record_subscription (subscription_id item.provider_subscription_id) item store)

  abbrev touched : ℕ → Installation → Installation
  touched now installation = record installation { updated_at = now }

  -- the branches of the loop's body on the installation
  reconciled_installation : ℕ → (String → String) → Bool → String → Installation → Store → Store
  unfolding suspend
  reconciled_installation now job_id false key installation store =
      suspend now "Subscription reconciliation suspended this server." "subscription_reconciliation"
        job_id key installation store
  reconciled_installation now job_id true key installation store = put_installation store key (
      if is_suspended installation.state
      then resumed_installation now (values store.applications) installation
      else touched now installation)

  abbrev is_planned : InstallationState → Bool
  is_planned InstallationState.planned = true
  is_planned _ = false

  reconcile_installation : ℕ → (String → String) → String → String → Installation → Store → Store
  unfolding synchronize_capacity_allocation_entitlement reconciled_installation
  reconcile_installation now job_id user_id key installation store =
      if not (str_eq installation.user_id user_id) || is_planned installation.state
      then store
      else let entitled = is_entitled store installation.id in
        reconciled_installation now job_id entitled key installation (
          synchronize_capacity_allocation_entitlement now installation.id entitled
            "Subscription reconciliation changed this capacity entitlement." store)

  reconcile_installations : ℕ → (String → String) → String → Dict Installation → Store → Store
  unfolding reconcile_installation
  reconcile_installations now job_id user_id [] store = store
  reconcile_installations now job_id user_id ((key, installation) ∷ rest) store =
      reconcile_installations now job_id user_id rest
        (reconcile_installation now job_id user_id key installation store)

  reconcile_users : ℕ → (String → String) → List String → Store → Store
  unfolding reconcile_installations
  reconcile_users now job_id [] store = store
  reconcile_users now job_id (user_id ∷ users) store =
      reconcile_users now job_id users
        (reconcile_installations now job_id user_id store.installations store)

  -- `new Set(texts)`: the first of each
  abbrev distinct : List String → List String
  distinct [] = []
  distinct (s ∷ ss) = s ∷ keep (λ t. not (str_eq s t)) (distinct ss)

  -- The state alone: the source also answers with the plan of each user.
  unfoldable pub apply_subscription_reconciliation :
      ℕ
      → (String → String)
      → (String → String)
      → List String
      → List ReconciledSubscription
      → List String
      → Store
      → Store
  unfolding record_each reconcile_users
  apply_subscription_reconciliation now job_id subscription_id deactivated upserts affected store =
      let inactive = record store {
        subscriptions = update_all (deactivate deactivated) store.subscriptions;
      } in
      reconcile_users now job_id (distinct affected) (record_each subscription_id upserts inactive)

-- `no_plan` is "none".
pub data SuitePlanId : Type 0 where
  no_plan starter scale fleet : SuitePlanId

abbrev pub rank : SuitePlanId → ℕ
rank no_plan = 0
rank starter = 0
rank scale = 1
rank fleet = 2

-- a plan of the suite by its name
abbrev pub suite_plan : String → Option SuitePlanId
suite_plan name =
    if str_eq name "starter"
    then some starter
    else if str_eq name "scale"
    then some scale
    else if str_eq name "fleet"
    then some fleet
    else none

abbrev pub plan_named : Option String → Option SuitePlanId
plan_named none = none
plan_named (some name) = suite_plan name

abbrev pub entitles : String → StoredSubscription → Bool
entitles user_id s =
    str_eq s.user_id user_id && is_entitled_status s.status && given s.installation_id

abbrev pub collect : List (Option SuitePlanId) → List SuitePlanId
collect [] = []
collect (none ∷ plans) = collect plans
collect (some plan ∷ plans) = plan ∷ collect plans

abbrev pub best_first : SuitePlanId → SuitePlanId → Bool
best_first a b = ltb (rank b) (rank a)

abbrev pub first_or_none : List SuitePlanId → SuitePlanId
first_or_none [] = no_plan
first_or_none (plan ∷ plans) = plan

abbrev pub entitled_plans : String → Store → List SuitePlanId
entitled_plans user_id store = collect (
    map (λ (s : StoredSubscription). plan_named (current_plan store s.installation_id))
      (keep (entitles user_id) (values store.subscriptions)))

unfoldable pub get_effective_suite_plan : String → Store → SuitePlanId
get_effective_suite_plan user_id store =
    first_or_none (sort best_first (entitled_plans user_id store))
