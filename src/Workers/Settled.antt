-- ===== src/Workers/Settled.antt =====
-- A late report of a job does not bring a suspended installation back.
use managed_oss_cloud.Common.{
  ℕ, String, Bool, false, List, [], ◌∷◌, Option, none, some, ◌≡◌, refl, ap, ◌∙◌, inl, inr, eq_refl,
  Bool-cases, Option-cases, if◌then◌else◌,
}
use managed_oss_cloud.Common.Dict.{get, get-set}
use managed_oss_cloud.Types.{InstallationState, ApplicationState, ProvisioningJob}
use managed_oss_cloud.Store.{Store}
use managed_oss_cloud.Store.Records.{Installation}
use managed_oss_cloud.Jobs.{put_job, update_installation_state, update_application_state}
use managed_oss_cloud.Entitlement.{is_entitled}
use managed_oss_cloud.Workers.{runs_on}
use managed_oss_cloud.Workers.Reports.{
  ApplicationReport, WorkerJobReport, report_applications, uninstalled, is_uninstall, is_succeeded,
  report_success, report_failure, accept_report, report_worker_job,
}

abbrev pub IsSuspended : Store → String → Type 0
IsSuspended store id =
    (i : Installation) × (get store.installations id ≡ some i)
    × (i.state ≡ InstallationState.suspended)

update_application_state-keeps :
    (now : ℕ) (id : String) (state : ApplicationState) (health : Option ℕ) (store : Store)
    → let after = update_application_state now id state health store in
      after ≡ record store { applications = after.applications }
unfolding update_application_state
update_application_state-keeps now id state health store =
    elim (Option-cases (get store.applications id)) [
      | inl e ↦ rw (e, update_application_state) refl
      | inr (a, e) ↦ rw (e, update_application_state) refl
    ]

report_applications-keeps :
    (now : ℕ) (rs : List ApplicationReport) (store : Store)
    → let after = report_applications now rs store in
      after ≡ record store { applications = after.applications }
unfolding report_applications
report_applications-keeps now [] store = refl
report_applications-keeps now (r ∷ rs) store =
    let next =
      update_application_state now r.id r.state (if r.healthy then some now else none) store in
    report_applications-keeps now rs next
    ∙ ap (λ (s : Store). record s { applications = (report_applications now rs next).applications })
        (update_application_state-keeps now r.id r.state (if r.healthy then some now else none)
          store)

update_installation_state-IsSuspended :
    (now : ℕ) (id : String) (reason : Option String) (store : Store)
    → IsSuspended store id
    → IsSuspended (update_installation_state now id InstallationState.suspended reason store) id
unfolding update_installation_state
update_installation_state-IsSuspended now id reason store (i, e, s) =
    let after : Installation = record i {
      state = InstallationState.suspended;
      failure_reason = reason;
      updated_at = now;
    } in
    rw (e, update_installation_state)
      (after, get-set store.installations id id after ∙ rw (eq_refl id) refl, refl)

module _ (unrestricted : Bool) (now : ℕ) where
  report_success-IsSuspended :
      (node_id : String) (job : ProvisioningJob) (report : WorkerJobReport) (store : Store)
      → is_entitled unrestricted store job.installation_id ≡ false
      → IsSuspended store job.installation_id
      → IsSuspended (report_success unrestricted now node_id job report store) job.installation_id
  unfolding report_success uninstalled
  report_success-IsSuspended node_id job report store off s =
      let kept = report_applications-keeps now report.applications store in
      let still : is_entitled unrestricted (report_applications now report.applications store)
            job.installation_id
          ≡ false =
        ap (λ (s : Store). is_entitled unrestricted s job.installation_id) kept ∙ off in
      let moved =
        update_installation_state-IsSuspended now job.installation_id none
          (report_applications now report.applications store)
          (s.0, ap (λ (s : Store). get s.installations job.installation_id) kept ∙ s.1, s.2) in
      elim (Bool-cases (is_uninstall job.action)) [
        | inl b ↦ rw (still, b) moved
        | inr b ↦ rw (still, b) moved
      ]

  report_failure-IsSuspended :
      (job : ProvisioningJob) (report : WorkerJobReport) (store : Store)
      → is_entitled unrestricted store job.installation_id ≡ false
      → IsSuspended store job.installation_id
      → IsSuspended (report_failure unrestricted now job report store) job.installation_id
  unfolding report_failure
  report_failure-IsSuspended job report store off s = rw off s

  -- A report of a job, whatever its result, leaves a suspended installation suspended while it has
  -- no entitlement.
  pub report_keeps_suspended :
      (backup_id : ℕ → String) (node_id id : String) (report : WorkerJobReport) (store : Store)
      (job : ProvisioningJob)
      → get store.jobs id ≡ some job
      → is_entitled unrestricted store job.installation_id ≡ false
      → IsSuspended store job.installation_id
      → IsSuspended
          (report_worker_job unrestricted now backup_id node_id id report store).1
          job.installation_id
  unfolding report_worker_job accept_report
  report_keeps_suspended backup_id node_id id report store job e off s =
      elim (Bool-cases (runs_on node_id job)) [
        | inl b ↦ elim (Bool-cases (is_succeeded report.status)) [
          | inl ok ↦
              rw (e, report_worker_job, b, ok)
                (report_success-IsSuspended node_id job report
                  (put_job store (record job { status = report.status })) off s)
          | inr bad ↦
              rw (e, report_worker_job, b, bad)
                (report_failure-IsSuspended job report
                  (put_job store (record job { status = report.status })) off s)
        ]
        | inr b ↦ rw (e, report_worker_job, b) s
      ]
