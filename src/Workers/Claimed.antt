-- ===== src/Workers/Claimed.antt =====
-- What a claim hands out: a running job of the worker that may run.
use managed_oss_cloud.Common.{
  ℕ, ◌+◌, String, Bool, true, Option, none, some, ◌≡◌, refl, ap, inl, inr, find, str_eq, eq_refl,
  some_inj, Bool-cases, Option-cases,
}
use mathlib.Core.Path.{subst}
use managed_oss_cloud.Common.Dict.{get, values}
use managed_oss_cloud.Common.Sorted.{find-passes}
use managed_oss_cloud.Types.{WorkerNode, ProvisioningJob, is_ready}
use managed_oss_cloud.Store.{Store}
use managed_oss_cloud.Store.Records.{StoredWorker}
use managed_oss_cloud.Holds.{expire_checkout_capacity_holds, workers_with_active_checkout_holds}
use managed_oss_cloud.Workers.{
  runs_on, leased, AgentJob, is_allowed, next_job, running_job, start_job, resume_job, claim_next,
  claim_or_resume, claim_ready, claim_worker_job,
}

-- The job runs on the worker for the next fifteen minutes and is allowed to.
pub record IsGranted (unrestricted : Bool) (now : ℕ) (node_id : String) (after : Store)
    (job : ProvisioningJob) : Type 0 where
  pub runs : runs_on node_id job ≡ true
  pub lease : job.lease_expires_at ≡ some (now + 900000)
  pub allowed : is_allowed unrestricted after job ≡ true

module _ (unrestricted : Bool) (now : ℕ) (job_id : String → String) (node_id : String) where
  resume_job-IsGranted :
      (store : Store) (running : ProvisioningJob) (a : AgentJob)
      → runs_on node_id running ≡ true
      → (resume_job unrestricted now job_id store running).0 ≡ some a
      → IsGranted unrestricted now node_id
          (resume_job unrestricted now job_id store running).1
          a.job
  unfolding resume_job
  resume_job-IsGranted store running a on h =
      elim (Bool-cases (is_allowed unrestricted store running)) [
        | inl b ↦
            let same : leased now running ≡ a.job =
              ap (λ (x : AgentJob). x.job) (some_inj (rw b at h)) in
            rw b (
              subst (IsGranted unrestricted now node_id _) same
                (record { runs = on; lease = refl; allowed = b }))
        | inr b ↦ cc (rw b at h)
      ]

  claim_next-IsGranted :
      (worker : StoredWorker) (store : Store) (next : Option ProvisioningJob) (a : AgentJob)
      → (claim_next unrestricted now node_id worker store next).0 ≡ some a
      → IsGranted unrestricted now node_id
          (claim_next unrestricted now node_id worker store next).1
          a.job
  unfolding claim_next start_job
  claim_next-IsGranted worker store none a h = cc
  claim_next-IsGranted worker store (some job) a h =
      elim (Bool-cases (is_allowed unrestricted store job)) [
        | inl b ↦
            let same : running_job now node_id job ≡ a.job =
              ap (λ (x : AgentJob). x.job) (some_inj (rw b at h)) in
            rw b (
              subst (IsGranted unrestricted now node_id _) same
                (record { runs = rw (eq_refl node_id) refl; lease = refl; allowed = b }))
        | inr b ↦ cc (rw b at h)
      ]

  claim_ready-IsGranted :
      (worker : StoredWorker) (store : Store) (capacity_worker : Option WorkerNode) (a : AgentJob)
      → (claim_ready unrestricted now job_id node_id worker store capacity_worker).0 ≡ some a
      → IsGranted unrestricted now node_id
          (claim_ready unrestricted now job_id node_id worker store capacity_worker).1
          a.job
  unfolding claim_ready claim_or_resume
  claim_ready-IsGranted worker store none a h = cc
  claim_ready-IsGranted worker store (some w) a h =
      elim (Option-cases (find (runs_on node_id) (values store.jobs))) [
        | inl e ↦ rw e (
            claim_next-IsGranted worker store (next_job unrestricted node_id w store) a (rw e at h))
        | inr (running, e) ↦ rw e (
            resume_job-IsGranted store running a
              (find-passes (runs_on node_id) (values store.jobs) running e) (rw e at h))
      ]

  -- A job that a worker is handed runs on that worker, its lease ends fifteen minutes later, and if
  -- its action has to be paid for, its installation is entitled.
  pub claim-IsGranted :
      (store : Store) (a : AgentJob)
      → (claim_worker_job unrestricted now job_id node_id store).0 ≡ some a
      → IsGranted unrestricted now node_id
          (claim_worker_job unrestricted now job_id node_id store).1
          a.job
  unfolding claim_worker_job
  claim-IsGranted store a h = elim (Option-cases (get store.workers node_id)) [
    | inl e ↦ cc (rw (e, claim_worker_job) at h)
    | inr (worker, e) ↦ elim (Bool-cases (is_ready worker.node.status)) [
      | inl b ↦
          rw (e, claim_worker_job, b)
            (claim_ready-IsGranted worker (expire_checkout_capacity_holds now store)
              (find (λ (w : WorkerNode). str_eq w.id node_id)
                (workers_with_active_checkout_holds now store))
              a (rw (e, claim_worker_job, b) at h))
      | inr b ↦ cc (rw (e, claim_worker_job, b) at h)
    ]
  ]
