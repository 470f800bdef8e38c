-- ===== src/Installations/Clones.antt =====
-- `createApplicationClone` of server/repository.ts: one more service in an installation, once for
-- each idempotency key.
use Prim.Native.Char.{code}
use Prim.Native.String
use managed_oss_cloud.Common.{
  ℕ, ◌+◌, String, Bool, true, false, not, ◌&&◌, ◌||◌, [], ◌∷◌, ◌++◌, Option, none, some, find, ltb,
  trim, str_eq, if◌then◌else◌,
}
use managed_oss_cloud.Common.Dict.{Dict, get, set}
use managed_oss_cloud.Common.Number.{NumberOps}
use managed_oss_cloud.Common.Result.{Result, thrown, returned, throw_if, ◌>>=◌, ◌>>◌}
use managed_oss_cloud.Types.{ComputePlan, InstallationState, JobAction, JobStatus, ProvisioningJob}
use managed_oss_cloud.Visibility.Values.{text, end, entry}
use managed_oss_cloud.Capacity.{
  PlanCapacitySnapshot, plan_capacity_snapshot, application_capacity_usage, capacity_envelope_fit,
}
use managed_oss_cloud.Pricing.{PricingPolicy}
use managed_oss_cloud.Placement.{CheckoutCapacityReservation, allocate_capacity}
use managed_oss_cloud.Store.{Store, is_active_allocation, hosting_entitlement_active}
use managed_oss_cloud.Store.Records.{
  Installation, ApplicationInstance, InstallationCapacityAllocation, CloneRecord,
}
use managed_oss_cloud.Holds.Acquire.{eligible_workers, is_planned}
use managed_oss_cloud.Installations.{expire_holds, has_checkout_hold, has_change_hold, taken_by}
use managed_oss_cloud.Installations.Created.{plain, new_instance, reserve_on}

-- The reservation of the requested application carries the identifier that is drawn for it.
pub record CreateApplicationCloneInput : Type 0 where
  pub user_id : String
  pub installation_id : String
  pub idempotency_key : String
  pub app : CheckoutCapacityReservation
  pub hostname_base : String
  pub memory_safety_reserve_mb : ℕ

pub record ApplicationCloneResult : Type 0 where
  pub application : ApplicationInstance
  pub job : Option ProvisioningJob
  pub replayed : Bool

-- `text.length`, in UTF-16 units
abbrev units : String → ℕ
units String.[] = 0
units (String.◌∷◌ c s) = (if ltb 65535 (code c) then 2 else 1) + units s

abbrev pub clone_key : CreateApplicationCloneInput → String
clone_key input = String.◌++◌ input.user_id (String.◌++◌ ":" (trim input.idempotency_key))

abbrev pub key_is_short : String → Bool
key_is_short key = ltb (units key) 16 || ltb 200 (units key)

abbrev pub job_of : Store → Option String → Option ProvisioningJob
job_of store none = none
job_of store (some id) = if str_eq id "" then none else get store.jobs id

unfoldable pub replay_clone : String → Store → CloneRecord → Result ApplicationCloneResult
replay_clone request_hash store bound =
    if not (str_eq bound.request_hash request_hash)
    then thrown "The clone idempotency key is already bound to a different request."
    else elim (get store.applications bound.application_id) [
      | none ↦ thrown "The idempotent clone application is missing."
      | some application ↦
          returned
            (record { application = application; job = job_of store bound.job_id; replayed = true })
    ]

abbrev owned : String → Option Installation → Result Installation
owned user_id none = thrown "Installation not found."
owned user_id (some item) =
    if str_eq item.user_id user_id then returned item else thrown "Installation not found."

abbrev inactive : Option InstallationCapacityAllocation → Bool
inactive none = false
inactive (some a) = not (is_active_allocation a.state)

abbrev is_live : InstallationState → Bool
is_live InstallationState.live = true
is_live _ = false

-- the job of the clone of a live installation
abbrev clone_job :
    ℕ → String → CreateApplicationCloneInput → Installation → Option String → ProvisioningJob
clone_job now id input installation worker = record {
  id = id;
  installation_id = installation.id;
  action = JobAction.install;
  status = JobStatus.queued;
  attempts = 0;
  payload =
      entry "applicationInstanceId" (text input.app.application_instance_id)
        (entry "cloneIdempotencyKey" (text (trim input.idempotency_key)) end);
  worker_node_id = worker;
  lease_expires_at = none;
  created_at = now;
}

abbrev pub with_job : Option ProvisioningJob → Store → Store
with_job none store = store
with_job (some job) store = record store { jobs = set store.jobs job.id job }

abbrev pub job_key : Option ProvisioningJob → Option String
job_key none = none
job_key (some job) = some job.id

abbrev pub clone_record :
    String → CreateApplicationCloneInput → Installation → Option String → CloneRecord
clone_record request_hash input installation job_id = record {
  user_id = input.user_id;
  request_hash = request_hash;
  installation_id = installation.id;
  app_id = input.app.app_id;
  application_id = input.app.application_instance_id;
  job_id = job_id;
}

-- The writes after all checks, for the worker of the placement.
unfoldable pub write_clone :
    ℕ
    → String
    → String
    → CreateApplicationCloneInput
    → Installation
    → Option String
    → Store
    → ApplicationCloneResult × Store
write_clone now job_id request_hash input installation worker store =
    let app = new_instance now installation.id input.hostname_base input.app worker in
    let reserved = reserve_on input.app worker store in
    let job =
      if is_live installation.state
      then some (clone_job now job_id input installation worker)
      else none in
    let queued = with_job job reserved in
    (
      record { application = app; job = job; replayed = false },
      record queued {
        applications = set queued.applications app.id app;
        installations = set queued.installations input.installation_id (record installation {
          app_ids = installation.app_ids ++ app.app_id ∷ [];
          updated_at = now;
        });
        clone_idempotency =
            set queued.clone_idempotency (clone_key input)
              (clone_record request_hash input installation (job_key job));
      },
    )

abbrev needs_worker : Option String → Result (Option String)
needs_worker none = thrown "The worker pool cannot reserve this application."
needs_worker (some id) =
    if str_eq id ""
    then thrown "The worker pool cannot reserve this application."
    else returned (some id)

abbrev placed_at : String → Option (Dict String) → Option String
placed_at id none = none
placed_at id (some placement) = get placement id

-- `HOSTING_ENTITLEMENT_MODE` is "hosted" or "unrestricted".
module _ (locale_before : String → String → Bool) (unrestricted : Bool) (ops : NumberOps)
    (policy : PricingPolicy ops.Num) where
  open ops use {Num}

  -- the quota: of the allocation, or of the plan that the installation has
  envelope_of : Installation → Option InstallationCapacityAllocation → Result PlanCapacitySnapshot
  envelope_of installation (some allocation) = returned allocation.snapshot
  envelope_of installation none =
      elim (find (λ (p : ComputePlan Num). str_eq p.id installation.plan) policy.plans) [
        | none ↦ thrown "Upgrade this legacy server to a current plan before cloning services."
        | some plan ↦ plan_capacity_snapshot ops plan
      ]

  clone_worker :
      ℕ
      → CreateApplicationCloneInput
      → Store
      → Option InstallationCapacityAllocation
      → Result (Option String)
  unfolding eligible_workers
  clone_worker now input store none = returned none
  clone_worker now input store (some allocation) = needs_worker (
      placed_at input.app.application_instance_id (
        allocate_capacity locale_before (eligible_workers locale_before now store)
          (input.app ∷ [])))

  -- The checks of a new clone, in their order, with the installation and the worker that they find.
  unfoldable pub check_clone :
      ℕ → CreateApplicationCloneInput → Store → Result (Installation × Option String)
  unfolding envelope_of clone_worker
  check_clone now input store = do
    installation ← owned input.user_id (get store.installations input.installation_id)
    throw_if (has_checkout_hold installation.id store)
        "The installation has an active checkout capacity hold."
    throw_if (has_change_hold installation.id store)
        "The installation has an active plan quota change hold."
    throw_if
        (not unrestricted
          && not (is_planned installation.state)
          && not (hosting_entitlement_active unrestricted store.subscriptions installation.id))
        "Reactivate this server subscription before cloning another service."
    throw_if (inactive (get store.capacity_allocations installation.id))
        "The paid plan quota is not active."
    envelope ← envelope_of installation (get store.capacity_allocations installation.id)
    usage ←
        application_capacity_usage (taken_by installation.id store ++ plain input.app ∷ [])
          input.memory_safety_reserve_mb
    throw_if (not (capacity_envelope_fit usage envelope).fits)
        "The paid plan quota cannot contain this additional application."
    worker ← clone_worker now input store (get store.capacity_allocations installation.id)
    returned (installation, worker)

  unfoldable pub clone_checked :
      ℕ
      → String
      → String
      → CreateApplicationCloneInput
      → Store
      → Result (Installation × Option String)
      → Result ApplicationCloneResult × Store
  unfolding write_clone
  clone_checked now job_id request_hash input store (thrown message) = (thrown message, store)
  clone_checked now job_id request_hash input store (returned (installation, worker)) =
      let (answer, after) = write_clone now job_id request_hash input installation worker store in
      (returned answer, after)

  unfoldable pub new_clone :
      ℕ
      → String
      → String
      → CreateApplicationCloneInput
      → Store
      → Result ApplicationCloneResult × Store
  unfolding expire_holds check_clone clone_checked
  new_clone now job_id request_hash input store =
      let current = expire_holds now store in
      clone_checked now job_id request_hash input current (check_clone now input current)

  -- The hash of the request is a parameter: it does not depend on the drawn identifier.
  unfoldable pub create_application_clone :
      ℕ
      → String
      → (CreateApplicationCloneInput → String)
      → CreateApplicationCloneInput
      → Store
      → Result ApplicationCloneResult × Store
  unfolding replay_clone new_clone
  create_application_clone now job_id hash input store =
      if key_is_short (trim input.idempotency_key)
      then (thrown "Clone idempotency key must contain 16 to 200 characters.", store)
      else elim (get store.clone_idempotency (clone_key input)) [
        | some bound ↦ (replay_clone (hash input) store bound, store)
        | none ↦ new_clone now job_id (hash input) input store
      ]
