-- ===== src/Workers/Reports.antt =====
-- `reportWorkerJob` of server/repository.ts: the result of a job, from the worker that runs it.
use managed_oss_cloud.Common.{
  ℕ, suc, ◌-◌, String, Bool, true, false, not, List, [], ◌∷◌, ◌++◌, Option, none, some, any, all,
  keep, total, str_eq, if◌then◌else◌,
}
use managed_oss_cloud.Common.Dict.{get, set, values, update_all}
use managed_oss_cloud.Types.{
  InstallationState, ApplicationState, JobAction, JobStatus, ProvisioningJob, BackupRecord,
  uninstall,
}
use managed_oss_cloud.Store.{Store}
use managed_oss_cloud.Store.Records.{ApplicationInstance, StoredWorker}
use managed_oss_cloud.Jobs.{put_job, update_installation_state, update_application_state}
use managed_oss_cloud.Entitlement.{is_live, is_entitled}
use managed_oss_cloud.Workers.{runs_on, concerns, applications_of, memory_of, cpu_of, storage_of}

pub record ApplicationReport : Type 0 where
  pub id : String
  pub state : ApplicationState
  pub healthy : Bool

pub record BackupReport : Type 0 where
  pub application_instance_id : String
  pub object_name : String
  pub size_bytes : ℕ

-- The status is `succeeded` or `failed`; a list that is absent is empty.
pub record WorkerJobReport : Type 0 where
  pub status : JobStatus
  pub error : Option String
  pub applications : List ApplicationReport
  pub backups : List BackupReport

abbrev health : ℕ → Bool → Option ℕ
health now healthy = if healthy then some now else none

unfoldable pub report_applications : ℕ → List ApplicationReport → Store → Store
unfolding update_application_state
report_applications now [] store = store
report_applications now (r ∷ rs) store =
    report_applications now rs
      (update_application_state now r.id r.state (health now r.healthy) store)

abbrev is_failed : ApplicationState → Bool
is_failed ApplicationState.failed = true
is_failed _ = false

-- `nextState`, from the applications of the installation
abbrev pub next_state : Bool → List ApplicationInstance → InstallationState
next_state entitled apps =
    if not entitled
    then InstallationState.suspended
    else if any (λ (a : ApplicationInstance). is_failed a.state) apps
    then InstallationState.failed
    else if all (λ (a : ApplicationInstance). is_live a.state) apps
    then InstallationState.live
    else InstallationState.provisioning

-- A reservation that is given back does not go below nothing.
abbrev pub give_back : List ApplicationInstance → StoredWorker → StoredWorker
give_back apps worker = record worker {
  node = record worker.node {
    reserved_memory_mb = worker.node.reserved_memory_mb - total memory_of apps;
    reserved_cpu_millis = worker.node.reserved_cpu_millis - total cpu_of apps;
    reserved_storage_gb = worker.node.reserved_storage_gb - total storage_of apps;
  };
}

abbrev unplaced : ProvisioningJob → ApplicationInstance → ApplicationInstance
unplaced job app = if concerns job app then record app { worker_node_id = none } else app

unfoldable pub uninstalled : String → ProvisioningJob → Store → Store
uninstalled node_id job store =
    let apps = applications_of store job in
    record store {
      applications = update_all (unplaced job) store.applications;
      workers = elim (get store.workers node_id) [
        | none ↦ store.workers
        | some worker ↦ set store.workers node_id (give_back apps worker)
      ];
    }

abbrev pub is_uninstall : JobAction → Bool
is_uninstall uninstall = true
is_uninstall _ = false

abbrev backups_of : ℕ → (ℕ → String) → String → ℕ → List BackupReport → List BackupRecord
backups_of now backup_id installation_id i [] = []
backups_of now backup_id installation_id i (r ∷ rs) =
    (record {
      id = backup_id i;
      installation_id = installation_id;
      application_instance_id = r.application_instance_id;
      object_name = r.object_name;
      size_bytes = r.size_bytes;
      created_at = now;
    })
    ∷ backups_of now backup_id installation_id (suc i) rs

abbrev pub is_succeeded : JobStatus → Bool
is_succeeded JobStatus.succeeded = true
is_succeeded _ = false

module _ (unrestricted : Bool) where
  unfoldable pub report_success : ℕ → String → ProvisioningJob → WorkerJobReport → Store → Store
  unfolding report_applications update_installation_state uninstalled
  report_success now node_id job report store =
      let reported = report_applications now report.applications store in
      let apps =
        keep (λ (a : ApplicationInstance). str_eq a.installation_id job.installation_id)
          (values reported.applications) in
      let entitled = is_entitled unrestricted reported job.installation_id in
      let moved =
        update_installation_state now job.installation_id (next_state entitled apps) none
          reported in
      if is_uninstall job.action then uninstalled node_id job moved else moved

  unfoldable pub report_failure : ℕ → ProvisioningJob → WorkerJobReport → Store → Store
  unfolding update_installation_state
  report_failure now job report store =
      if is_entitled unrestricted store job.installation_id
      then update_installation_state now job.installation_id InstallationState.failed report.error
          store
      else store

  unfoldable pub accept_report :
      ℕ → (ℕ → String) → String → ProvisioningJob → WorkerJobReport → Store → Store
  unfolding report_success report_failure
  accept_report now backup_id node_id job report store =
      let done = put_job store (record job { status = report.status }) in
      let settled =
        if is_succeeded report.status
        then report_success now node_id job report done
        else report_failure now job report done in
      record settled {
        backups = settled.backups ++ backups_of now backup_id job.installation_id 0 report.backups;
      }

  -- The identifier of the i-th backup that is stored is `backup_id i`.
  unfoldable pub report_worker_job :
      ℕ → (ℕ → String) → String → String → WorkerJobReport → Store → Bool × Store
  unfolding accept_report
  report_worker_job now backup_id node_id id report store = elim (get store.jobs id) [
    | none ↦ (false, store)
    | some job ↦
        if not (runs_on node_id job)
        then (false, store)
        else (true, accept_report now backup_id node_id job report store)
  ]
