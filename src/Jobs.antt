-- ===== src/Jobs.antt =====
-- The provisioning jobs of `MemoryRepository`, server/repository.ts: how jobs are queued, which of
-- them need a paid subscription, and the stop jobs of a suspended installation.
pub mod Stops
use managed_oss_cloud.Common.{
  ℕ, String, Bool, true, false, not, ◌&&◌, ◌||◌, List, [], ◌∷◌, Option, none, some, any, given,
  str_eq, if◌then◌else◌,
}
use managed_oss_cloud.Common.Dict.{Dict, get, set, values}
use managed_oss_cloud.Types.{
  InstallationState, ApplicationState, JobAction, JobStatus, ProvisioningJob, queued, running,
  install, upgrade, stop, start, restore,
}
use managed_oss_cloud.Visibility.Values.{Value, Fields, text, end, entry, field_of, is_text}
use managed_oss_cloud.Store.{Store}
use managed_oss_cloud.Store.Records.{Installation, ApplicationInstance}

-- `paidWorkerActions`
abbrev pub is_paid : JobAction → Bool
is_paid install = true
is_paid upgrade = true
is_paid start = true
is_paid restore = true
is_paid _ = false

-- `["queued", "running"].includes(status)`
abbrev pub is_open : JobStatus → Bool
is_open JobStatus.queued = true
is_open JobStatus.running = true
is_open _ = false

abbrev pub is_running : JobStatus → Bool
is_running JobStatus.running = true
is_running _ = false

abbrev pub is_stop : JobAction → Bool
is_stop stop = true
is_stop _ = false

abbrev text_of : Option Value → Option String
text_of (some (text s)) = some s
text_of _ = none

-- the application that a job is for, where its payload names one
abbrev pub target_of : Fields → Option String
target_of payload = text_of (field_of payload "applicationInstanceId")

abbrev target_worker : Store → Option String → Option String
target_worker store none = none
target_worker store (some id) = elim (get store.applications id) [
  | none ↦ none
  | some a ↦ a.worker_node_id
]

-- `target?.workerNodeId ?? installation?.workerNodeId`
abbrev or_home : Store → String → Option String → Option String
or_home store installation_id (some worker) = some worker
or_home store installation_id none = elim (get store.installations installation_id) [
  | none ↦ none
  | some i ↦ i.worker_node_id
]

abbrev pub new_job : ℕ → String → String → JobAction → Fields → Store → ProvisioningJob
new_job now id installation_id action payload store = record {
  id = id;
  installation_id = installation_id;
  action = action;
  status = JobStatus.queued;
  attempts = 0;
  payload = payload;
  worker_node_id = or_home store installation_id (target_worker store (target_of payload));
  lease_expires_at = none;
  created_at = now;
}

abbrev pub put_job : Store → ProvisioningJob → Store
put_job store job = record store { jobs = set store.jobs job.id job }

unfoldable pub enqueue_job :
    ℕ → String → String → JobAction → Fields → Store → ProvisioningJob × Store
enqueue_job now id installation_id action payload store =
    let job = new_job now id installation_id action payload store in (job, put_job store job)

abbrev pub is_open_stop : String → String → ProvisioningJob → Bool
is_open_stop installation_id app_id job =
    str_eq job.installation_id installation_id
    && is_stop job.action
    && is_open job.status
    && is_text (field_of job.payload "applicationInstanceId") app_id

-- `["live", "provisioning"].includes(state)`
abbrev pub is_up : ApplicationState → Bool
is_up ApplicationState.live = true
is_up ApplicationState.provisioning = true
is_up _ = false

abbrev pub runs_for : String → ApplicationInstance → Bool
runs_for installation_id app =
    str_eq app.installation_id installation_id && given app.worker_node_id && is_up app.state

-- The application has an open stop job, and so it has if it runs for the installation.
abbrev pub is_stopping : String → Dict ProvisioningJob → String → Bool
is_stopping installation_id jobs app_id = any (is_open_stop installation_id app_id) (values jobs)

abbrev pub is_covered : String → Dict ProvisioningJob → ApplicationInstance → Bool
is_covered installation_id jobs app =
    not (runs_for installation_id app) || is_stopping installation_id jobs app.id

abbrev pub stop_payload : String → String → Fields
stop_payload app_id reason =
    entry "applicationInstanceId" (text app_id) (entry "reason" (text reason) end)

-- The body of the loop that queues a stop job for each running application, once. The identifier
-- that is drawn for the job of an application is `job_id` of it.
unfoldable pub stop_application :
    ℕ → String → (String → String) → String → Store → ApplicationInstance → Store
unfolding enqueue_job
stop_application now reason job_id installation_id store app =
    if runs_for installation_id app && not (is_stopping installation_id store.jobs app.id)
    then (enqueue_job now (job_id app.id) installation_id stop (stop_payload app.id reason) store).1
    else store

unfoldable pub stop_applications :
    ℕ → String → (String → String) → String → Store → List ApplicationInstance → Store
unfolding stop_application
stop_applications now reason job_id installation_id store [] = store
stop_applications now reason job_id installation_id store (app ∷ apps) =
    stop_applications now reason job_id installation_id
      (stop_application now reason job_id installation_id store app) apps

abbrev pub is_open_paid : String → ProvisioningJob → Bool
is_open_paid installation_id job =
    str_eq job.installation_id installation_id && is_open job.status && is_paid job.action

abbrev pub fail_paid_job : String → ProvisioningJob → ProvisioningJob
fail_paid_job installation_id job =
    if is_open_paid installation_id job
    then record job { status = JobStatus.failed; lease_expires_at = none }
    else job

abbrev with_installation_state :
    ℕ → InstallationState → Option String → Store → String → Option Installation → Store
with_installation_state now state failure_reason store id none = store
with_installation_state now state failure_reason store id (some item) = record store {
  installations =
      set store.installations id
        (record item { state = state; failure_reason = failure_reason; updated_at = now });
}

unfoldable pub update_installation_state :
    ℕ → String → InstallationState → Option String → Store → Store
update_installation_state now id state failure_reason store =
    with_installation_state now state failure_reason store id (get store.installations id)

abbrev with_application_state :
    ℕ → ApplicationState → Option ℕ → Store → String → Option ApplicationInstance → Store
with_application_state now state health_at store id none = store
with_application_state now state health_at store id (some item) = record store {
  applications =
      set store.applications id
        (record item { state = state; last_health_at = health_at; updated_at = now });
}

unfoldable pub update_application_state : ℕ → String → ApplicationState → Option ℕ → Store → Store
update_application_state now id state health_at store =
    with_application_state now state health_at store id (get store.applications id)
