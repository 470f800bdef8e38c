-- ===== src/Workers/Tests.antt =====
-- A worker that claims the start of an application, and a late report.
use mathlib.Core.List.{Memᴰ}
use managed_oss_cloud.Common.{ℕ, String, true, false, [], ◌∷◌, none, some, ◌≡◌, refl, inr, find}
use managed_oss_cloud.Common.Dict
use managed_oss_cloud.Common.Dict.{get, values}
use managed_oss_cloud.Common.Sort
use managed_oss_cloud.Types.{InstallationState, JobAction, JobStatus, ProvisioningJob}
use managed_oss_cloud.Visibility.Values.{text, entry, end}
use managed_oss_cloud.Store.{Store, hosting_entitlement_active}
use managed_oss_cloud.Holds.{expire_checkout_capacity_holds, workers_with_active_checkout_holds}
use managed_oss_cloud.Entitlement.{is_entitled}
use managed_oss_cloud.Samples.{worker, installation, application, subscription, empty_store}
use managed_oss_cloud.Workers.{runs_on, AgentJob, running_job, claim_worker_job}
use managed_oss_cloud.Workers.Claimed.{IsGranted, claim-IsGranted}
use managed_oss_cloud.Workers.Progress.{IsTaken, claim_progress}
use managed_oss_cloud.Workers.Reports.{WorkerJobReport, report_worker_job}
use managed_oss_cloud.Workers.Settled.{IsSuspended, report_keeps_suspended}

abbrev start_request : ProvisioningJob
start_request = record {
  id = "j";
  installation_id = "i";
  action = JobAction.start;
  status = JobStatus.queued;
  attempts = 0;
  payload = entry "applicationInstanceId" (text "a") end;
  worker_node_id = some "w";
  lease_expires_at = none;
  created_at = 0;
}

abbrev store : Store
store = record empty_store {
  installations = ("i", installation) ∷ [];
  applications = ("a", record application { worker_node_id = some "w" }) ∷ [];
  jobs = ("j", start_request) ∷ [];
  subscriptions = ("sub", subscription) ∷ [];
  workers = ("w", worker) ∷ [];
}

abbrev backup_id : ℕ → String
backup_id i = "b"

abbrev job_id : String → String
job_id a = a

abbrev handed : AgentJob
handed = record {
  job = running_job 1000000 "w" start_request;
  applications = record application { worker_node_id = some "w" } ∷ [];
}

claim_runs : (claim_worker_job false 1000000 job_id "w" store).0 ≡ some handed
unfolding claim_worker_job expire_checkout_capacity_holds workers_with_active_checkout_holds
    hosting_entitlement_active Sort.sort Dict.get Dict.values Dict.update_all
claim_runs = refl

claim-IsGranted_example :
    IsGranted false 1000000 "w"
      (claim_worker_job false 1000000 job_id "w" store).1
      (running_job 1000000 "w" start_request)
claim-IsGranted_example = claim-IsGranted false 1000000 job_id "w" store handed claim_runs

found : get store.workers "w" ≡ some worker
unfolding get
found = refl

idle : find (runs_on "w") (values store.jobs) ≡ none
unfolding values
idle = refl

waiting : Memᴰ start_request (values store.jobs)
unfolding values
waiting = Memᴰ.head refl

paid : is_entitled false store "i" ≡ true
unfolding hosting_entitlement_active values
paid = refl

claim_progress_example :
    (a : AgentJob) × ((claim_worker_job false 1000000 job_id "w" store).0 ≡ some a)
    × IsTaken (values store.jobs) "w" start_request a
claim_progress_example =
    claim_progress false 1000000 job_id "w" store worker start_request found refl refl idle waiting
      refl refl (inr paid)

abbrev late : WorkerJobReport
late = record { status = JobStatus.succeeded; error = none; applications = []; backups = [] }

abbrev running : ProvisioningJob
running = running_job 1000000 "w" start_request

abbrev unpaid_store : Store
unpaid_store = record store {
  installations = ("i", record installation { state = InstallationState.suspended }) ∷ [];
  jobs = ("j", running) ∷ [];
  subscriptions = [];
}

its_job : get unpaid_store.jobs "j" ≡ some running
unfolding get
its_job = refl

unpaid : is_entitled false unpaid_store "i" ≡ false
unfolding hosting_entitlement_active values
unpaid = refl

suspended : IsSuspended unpaid_store "i"
unfolding get
suspended = (record installation { state = InstallationState.suspended }, refl, refl)

report_keeps_suspended_example :
    IsSuspended (report_worker_job false 1100000 backup_id "w" "j" late unpaid_store).1 "i"
report_keeps_suspended_example =
    report_keeps_suspended false 1100000 backup_id "w" "j" late unpaid_store running its_job unpaid
      suspended
