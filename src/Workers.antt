-- ===== src/Workers.antt =====
-- The worker nodes of `MemoryRepository`, server/repository.ts: how they register and report, and
-- how they claim a provisioning job and report its result.
pub mod Claimed
pub mod Progress
pub mod Reports
pub mod Settled
mod Tests
use managed_oss_cloud.Common.{
  ℕ, zero, suc, ◌+◌, ◌-◌, String, Bool, true, false, not, ◌&&◌, ◌||◌, List, [], ◌∷◌, ◌++◌, Option,
  none, some, ltb, leb, ◌==◌, any, all, find, keep, map, length, total, given, str_eq,
  if◌then◌else◌,
}
use managed_oss_cloud.Common.Dict.{Dict, get, set, values, update_all}
use managed_oss_cloud.Common.Sort.{sort}
use managed_oss_cloud.Types.{
  WorkerNode, WorkerStatus, InstallationState, ApplicationState, JobAction, JobStatus,
  ProvisioningJob, BackupRecord, is_ready, ready, draining, install, upgrade, start, stop,
  uninstall, backup, restore,
}
use managed_oss_cloud.Visibility.Values.{Fields}
use managed_oss_cloud.Store.{Store, is_given}
use managed_oss_cloud.Store.Records.{Installation, ApplicationInstance, StoredWorker}
use managed_oss_cloud.Holds.{expire_checkout_capacity_holds, workers_with_active_checkout_holds}
use managed_oss_cloud.Jobs.{
  is_paid, is_running, target_of, put_job, stop_applications, update_installation_state,
  update_application_state,
}
use managed_oss_cloud.Entitlement.{is_live, is_entitled}

abbrev pub runs_on : String → ProvisioningJob → Bool
runs_on node_id job = is_given job.worker_node_id node_id && is_running job.status

-- `WorkerNodeActivity`
pub record WorkerNodeActivity : Type 0 where
  pub node : WorkerNode
  pub mode : WorkerStatus
  pub running_jobs : List ProvisioningJob
  pub assigned_applications : List ApplicationInstance
  pub safe_to_replace_agent : Bool

abbrev is_empty {ℓ} : {A : Type ℓ} → List A → Bool
is_empty [] = true
is_empty (x ∷ xs) = false

abbrev activity_of : Store → String → StoredWorker → WorkerNodeActivity
activity_of store node_id worker =
    let running = keep (runs_on node_id) (values store.jobs) in
    record {
      node = worker.node;
      mode = worker.node.status;
      running_jobs = running;
      assigned_applications =
          keep (λ (a : ApplicationInstance). is_given a.worker_node_id node_id)
            (values store.applications);
      safe_to_replace_agent = is_empty running;
    }

-- The mode of a ready worker is "active"; jobs and applications are given whole.
unfoldable pub worker_activity : String → Store → Option WorkerNodeActivity
worker_activity node_id store = elim (get store.workers node_id) [
  | none ↦ none
  | some worker ↦ some (activity_of store node_id worker)
]

pub record WorkerRegistration : Type 0 where
  pub id : String
  pub name : String
  pub private_address : String
  pub machine_type : String
  pub capacity_memory_mb : ℕ
  pub capacity_cpu_millis : ℕ
  pub capacity_storage_gb : ℕ
  pub system_reserve_memory_mb : ℕ

abbrev number_of : (WorkerNode → ℕ) → ℕ → Option StoredWorker → ℕ
number_of field default none = default
number_of field default (some worker) = field worker.node

abbrev pub registered : ℕ → String → WorkerRegistration → Option StoredWorker → StoredWorker
registered now token_hash input previous = record {
  node = record {
    id = input.id;
    name = input.name;
    status = ready;
    private_address = input.private_address;
    machine_type = input.machine_type;
    capacity_memory_mb = input.capacity_memory_mb;
    capacity_cpu_millis = input.capacity_cpu_millis;
    capacity_storage_gb = input.capacity_storage_gb;
    system_reserve_memory_mb = input.system_reserve_memory_mb;
    reserved_memory_mb = number_of (λ (n : WorkerNode). n.reserved_memory_mb) 0 previous;
    reserved_cpu_millis = number_of (λ (n : WorkerNode). n.reserved_cpu_millis) 0 previous;
    reserved_storage_gb = number_of (λ (n : WorkerNode). n.reserved_storage_gb) 0 previous;
    last_heartbeat_at = now;
    created_at = number_of (λ (n : WorkerNode). n.created_at) now previous;
    updated_at = now;
  };
  agent_token_hash = token_hash;
}

abbrev pub put_worker : Store → String → StoredWorker → Store
put_worker store id worker = record store { workers = set store.workers id worker }

-- The hash of the token that is drawn is an argument, since only the hash is kept.
unfoldable pub register_worker_node : ℕ → String → WorkerRegistration → Store → WorkerNode × Store
register_worker_node now token_hash input store =
    let worker = registered now token_hash input (get store.workers input.id) in
    (worker.node, put_worker store input.id worker)

abbrev node_of : Option StoredWorker → Option WorkerNode
node_of none = none
node_of (some worker) = some worker.node

unfoldable pub find_worker_node_by_agent_token : String → Store → Option WorkerNode
find_worker_node_by_agent_token token_hash store =
    node_of
      (find (λ (w : StoredWorker). str_eq w.agent_token_hash token_hash) (values store.workers))

pub record Heartbeat : Type 0 where
  pub private_address : String
  pub capacity_memory_mb : ℕ
  pub capacity_cpu_millis : ℕ
  pub capacity_storage_gb : ℕ

abbrev beating : ℕ → Heartbeat → StoredWorker → StoredWorker
beating now input worker = record worker {
  node = record worker.node {
    private_address = input.private_address;
    capacity_memory_mb = input.capacity_memory_mb;
    capacity_cpu_millis = input.capacity_cpu_millis;
    capacity_storage_gb = input.capacity_storage_gb;
    last_heartbeat_at = now;
    updated_at = now;
  };
}

-- fifteen minutes
abbrev pub leased : ℕ → ProvisioningJob → ProvisioningJob
leased now job = record job { lease_expires_at = some (now + 900000) }

abbrev extended : ℕ → String → ProvisioningJob → ProvisioningJob
extended now node_id job = if runs_on node_id job then leased now job else job

unfoldable pub heartbeat_worker_node : ℕ → String → Heartbeat → Store → Option WorkerNode × Store
heartbeat_worker_node now node_id input store = elim (get store.workers node_id) [
  | none ↦ (none, store)
  | some worker ↦ (
    some (beating now input worker).node,
    record store {
      workers = set store.workers node_id (beating now input worker);
      jobs = update_all (extended now node_id) store.jobs;
    },
  )
]

-- The mode is "active" or "draining".
unfoldable pub set_worker_node_mode : ℕ → String → Bool → Store → Option WorkerNodeActivity × Store
unfolding worker_activity
set_worker_node_mode now node_id drain store = elim (get store.workers node_id) [
  | none ↦ (none, store)
  | some worker ↦
      let changed : StoredWorker = record worker {
        node = record worker.node { status = if drain then draining else ready; updated_at = now };
      } in
      let after = put_worker store node_id changed in (worker_activity node_id after, after)
]

-- `AgentJob`
pub record AgentJob : Type 0 where
  pub job : ProvisioningJob
  pub applications : List ApplicationInstance

-- `!targetId || app.id === targetId`
abbrev is_target : Option String → ApplicationInstance → Bool
is_target none app = true
is_target (some id) app = str_eq id "" || str_eq app.id id

abbrev pub concerns : ProvisioningJob → ApplicationInstance → Bool
concerns job app =
    str_eq app.installation_id job.installation_id && is_target (target_of job.payload) app

abbrev pub applications_of : Store → ProvisioningJob → List ApplicationInstance
applications_of store job = keep (concerns job) (values store.applications)

abbrev is_install : JobAction → Bool
is_install install = true
is_install _ = false

-- `["upgrade", "start", "stop", "uninstall", "backup", "restore"].includes(action)`
abbrev is_for_placed : JobAction → Bool
is_for_placed upgrade = true
is_for_placed start = true
is_for_placed stop = true
is_for_placed uninstall = true
is_for_placed backup = true
is_for_placed restore = true
is_for_placed _ = false

abbrev pub memory_of : ApplicationInstance → ℕ
memory_of a = a.memory_reservation_mb

abbrev pub cpu_of : ApplicationInstance → ℕ
cpu_of a = a.cpu_reservation_millis

abbrev pub storage_of : ApplicationInstance → ℕ
storage_of a = a.storage_reservation_gb

abbrev pub is_unassigned : ApplicationInstance → Bool
is_unassigned a = not (given a.worker_node_id)

abbrev pub has_room : WorkerNode → List ApplicationInstance → Bool
has_room worker apps =
    leb (total memory_of apps + worker.reserved_memory_mb + worker.system_reserve_memory_mb)
      worker.capacity_memory_mb
    && leb (total cpu_of apps + worker.reserved_cpu_millis) worker.capacity_cpu_millis
    && leb (total storage_of apps + worker.reserved_storage_gb) worker.capacity_storage_gb

-- A job without a worker that this worker can take.
abbrev suits_applications : String → WorkerNode → ProvisioningJob → List ApplicationInstance → Bool
suits_applications node_id worker job [] = false
suits_applications node_id worker job (app ∷ apps) =
    if not (is_install job.action)
    then is_for_placed job.action
      && all (λ (a : ApplicationInstance). is_given a.worker_node_id node_id) (app ∷ apps)
    else let unassigned = keep is_unassigned (app ∷ apps) in
      length unassigned == length (app ∷ apps) && has_room worker unassigned

abbrev has_installation : Option Installation → Bool
has_installation none = false
has_installation (some installation) = true

abbrev suits : String → WorkerNode → Store → ProvisioningJob → Bool
suits node_id worker store job =
    not (given job.worker_node_id)
    && has_installation (get store.installations job.installation_id)
    && suits_applications node_id worker job (applications_of store job)

abbrev pub is_queued : JobStatus → Bool
is_queued JobStatus.queued = true
is_queued _ = false

abbrev pub earlier : ProvisioningJob → ProvisioningJob → Bool
earlier a b = ltb a.created_at b.created_at

abbrev or_else {ℓ} : {A : Type ℓ} → Option A → Option A → Option A
or_else none other = other
or_else (some a) other = some a

abbrev pub reserve : List ApplicationInstance → StoredWorker → StoredWorker
reserve apps worker = record worker {
  node = record worker.node {
    reserved_memory_mb = worker.node.reserved_memory_mb + total memory_of apps;
    reserved_cpu_millis = worker.node.reserved_cpu_millis + total cpu_of apps;
    reserved_storage_gb = worker.node.reserved_storage_gb + total storage_of apps;
  };
}

-- The writes of a claim to an application that the job concerns.
abbrev claimed_application :
    ℕ → String → ProvisioningJob → ApplicationInstance → ApplicationInstance
claimed_application now node_id job app =
    if not (concerns job app) || not (is_install job.action) then app else record app {
      worker_node_id = if given job.worker_node_id then app.worker_node_id else some node_id;
      state = ApplicationState.provisioning;
      updated_at = now;
    }

abbrev pub running_job : ℕ → String → ProvisioningJob → ProvisioningJob
running_job now node_id job = record job {
  worker_node_id = some node_id;
  status = JobStatus.running;
  attempts = suc job.attempts;
  lease_expires_at = some (now + 900000);
}

-- The end of `claimWorkerJob`, for the job that is chosen.
pub start_job : ℕ → String → StoredWorker → Store → ProvisioningJob → Option AgentJob × Store
start_job now node_id worker store job =
    let apps = applications_of store job in
    let running = running_job now node_id job in
    let after : Store = record store {
      applications = update_all (claimed_application now node_id job) store.applications;
      workers =
          if not (given job.worker_node_id) && is_install job.action
          then set store.workers node_id (reserve apps worker)
          else store.workers;
      jobs = set store.jobs job.id running;
    } in
    (
      some
          (record { job = running; applications = map (claimed_application now node_id job) apps }),
      after,
    )

module _ (unrestricted : Bool) where
  -- The job may run: it needs no subscription, or its installation has one.
  abbrev pub is_allowed : Store → ProvisioningJob → Bool
  is_allowed store job =
      not (is_paid job.action) || is_entitled unrestricted store job.installation_id

  -- A worker that asks again gets its running job, unless the job's subscription has ended.
  pub resume_job : ℕ → (String → String) → Store → ProvisioningJob → Option AgentJob × Store
  resume_job now job_id store running =
      if not (is_allowed store running)
      then (
        none,
        stop_applications now "subscription_inactive" job_id running.installation_id
            (put_job store (record running { status = JobStatus.failed; lease_expires_at = none }))
            (values store.applications),
      )
      else (
        some (record { job = leased now running; applications = applications_of store running }),
        put_job store (leased now running),
      )

  abbrev pub claimable : Store → List ProvisioningJob
  claimable store =
      sort earlier (
        keep (λ (j : ProvisioningJob). is_queued j.status && is_allowed store j)
          (values store.jobs))

  -- a job of this worker first, then one without a worker
  abbrev pub next_job : String → WorkerNode → Store → Option ProvisioningJob
  next_job node_id worker store =
      or_else (find (λ (j : ProvisioningJob). is_given j.worker_node_id node_id) (claimable store))
        (find (suits node_id worker store) (claimable store))

  pub claim_next :
      ℕ → String → StoredWorker → Store → Option ProvisioningJob → Option AgentJob × Store
  unfolding start_job
  claim_next now node_id worker store none = (none, store)
  claim_next now node_id worker store (some job) =
      if not (is_allowed store job) then (none, store) else start_job now node_id worker store job

  pub claim_or_resume :
      ℕ
      → (String → String)
      → String
      → StoredWorker
      → WorkerNode
      → Store
      → Option ProvisioningJob
      → Option AgentJob × Store
  unfolding resume_job claim_next
  claim_or_resume now job_id node_id worker capacity_worker store (some running) =
      resume_job now job_id store running
  claim_or_resume now job_id node_id worker capacity_worker store none =
      claim_next now node_id worker store (next_job node_id capacity_worker store)

  -- The steps for a ready worker: the holds expire first, and the capacity that is compared bears
  -- what the others take.
  pub claim_ready :
      ℕ
      → (String → String)
      → String
      → StoredWorker
      → Store
      → Option WorkerNode
      → Option AgentJob × Store
  unfolding claim_or_resume
  claim_ready now job_id node_id worker store none = (none, store)
  claim_ready now job_id node_id worker store (some capacity_worker) =
      claim_or_resume now job_id node_id worker capacity_worker store
        (find (runs_on node_id) (values store.jobs))

  unfoldable pub claim_worker_job : ℕ → (String → String) → String → Store → Option AgentJob × Store
  unfolding claim_ready
  claim_worker_job now job_id node_id store = elim (get store.workers node_id) [
    | none ↦ (none, store)
    | some worker ↦
        if not (is_ready worker.node.status)
        then (none, store)
        else claim_ready now job_id node_id worker (expire_checkout_capacity_holds now store) (
            find (λ (w : WorkerNode). str_eq w.id node_id)
              (workers_with_active_checkout_holds now store))
  ]
