-- ===== src/Workers/Progress.antt =====
-- A claim goes on with the jobs that are bound to the worker: the oldest that may run is started.
use mathlib.Core.List.{Memᴰ}
use managed_oss_cloud.Common.{
  ℕ, ◌+◌, ◌≤◌, String, Bool, true, false, ◌&&◌, List, Option, none, some, ◌≡◌, ◌⊎◌, refl, ap, inl,
  inr, arith, find, keep, str_eq, eq_iff, eq_refl, All, Option-cases, and-parts,
}
use managed_oss_cloud.Common.Dict.{get, values}
use managed_oss_cloud.Common.Members.{All-Mem, All-of_map, keep-Mem, Mem-keep, get-Mem}
use managed_oss_cloud.Common.Sort.{sort}
use managed_oss_cloud.Common.Sorted.{
  find-passes, find-All, find-none, find_least, sort-IsSorted, All-sort, All-of_sort,
}
use managed_oss_cloud.Types.{WorkerNode, JobStatus, ProvisioningJob, is_ready}
use managed_oss_cloud.Store.{Store, is_given}
use managed_oss_cloud.Store.Records.{StoredWorker}
use managed_oss_cloud.Holds.{expire_checkout_capacity_holds, workers_with_active_checkout_holds}
use managed_oss_cloud.Jobs.{is_paid}
use managed_oss_cloud.Entitlement.{is_entitled}
use managed_oss_cloud.Workers.{
  runs_on, AgentJob, is_allowed, is_queued, earlier, next_job, start_job, claim_next,
  claim_or_resume, claim_ready, claim_worker_job,
}

earlier-asym : (x y : ProvisioningJob) → earlier x y ≡ true → earlier y x ≡ false
earlier-asym x y h = ground arith

earlier_trans :
    (x y z : ProvisioningJob) → earlier y x ≡ false → earlier z y ≡ false → earlier z x ≡ false
earlier_trans x y z h k = ground arith

queued_of : (status : JobStatus) → is_queued status ≡ true → status ≡ JobStatus.queued
queued_of JobStatus.queued h = refl
queued_of JobStatus.running h = cc
queued_of JobStatus.succeeded h = cc
queued_of JobStatus.failed h = cc

given_of : (o : Option String) (t : String) → is_given o t ≡ true → o ≡ some t
given_of none t h = cc
given_of (some s) t h = ap some ((eq_iff s t).0 h)

-- The job that a worker is handed was queued for it, and is no newer than `job`.
pub record IsTaken (jobs : List ProvisioningJob) (node_id : String) (job : ProvisioningJob)
    (a : AgentJob) : Type 0 where
  pub origin : ProvisioningJob
  pub member : Memᴰ origin jobs
  pub queued : origin.status ≡ JobStatus.queued
  pub bound : origin.worker_node_id ≡ some node_id
  pub oldest : origin.created_at ≤ job.created_at
  pub same : a.job.id ≡ origin.id
  pub worker : a.job.worker_node_id ≡ some node_id
  pub running : a.job.status ≡ JobStatus.running
  pub counted : a.job.attempts ≡ origin.attempts + 1

module _ (unrestricted : Bool) (node_id : String) (store : Store) where
  abbrev may_take : ProvisioningJob → Bool
  may_take j = is_queued j.status && is_allowed unrestricted store j

  abbrev own : ProvisioningJob → Bool
  own j = is_given j.worker_node_id node_id

  -- A job that is found first among the worker's own.
  record IsFirst (job origin : ProvisioningJob) : Type 0 where
    next : (worker : WorkerNode) → next_job unrestricted node_id worker store ≡ some origin
    member : Memᴰ origin (values store.jobs)
    queued : is_queued origin.status ≡ true
    allowed : is_allowed unrestricted store origin ≡ true
    bound : own origin ≡ true
    oldest : earlier job origin ≡ false

  find-IsFirst :
      (job : ProvisioningJob)
      → Memᴰ job (values store.jobs)
      → may_take job ≡ true
      → own job ≡ true
      → (origin : ProvisioningJob) × IsFirst job origin
  find-IsFirst job m ready bound =
      let jobs = values store.jobs in
      let kept = keep may_take jobs in
      let here = Mem-keep may_take jobs job m ready in
      elim (Option-cases (find own (sort earlier kept))) [
        | inl e ↦
            let refused =
              All-Mem (λ j. own j ≡ false) kept job
                (All-of_sort (λ j. own j ≡ false) earlier kept (find-none own _ e)) here in
            cc
        | inr (origin, e) ↦
            let Taken = λ (j : ProvisioningJob). Memᴰ j jobs × (may_take j ≡ true) in
            let (member, taken) =
              find-All Taken own (sort earlier kept) origin
                (All-sort Taken earlier kept (keep-Mem may_take jobs)) e in
            let (queued, allowed) =
              and-parts (is_queued origin.status) (is_allowed unrestricted store origin) taken in
            let NotBefore = λ (j : ProvisioningJob). own j ≡ true → earlier j origin ≡ false in
            (
              origin,
              record {
                next = λ worker. rw e refl;
                member = member;
                queued = queued;
                allowed = allowed;
                bound = find-passes own (sort earlier kept) origin e;
                oldest =
                    All-Mem NotBefore kept job
                      (All-of_sort NotBefore earlier kept (
                        find_least earlier earlier-asym earlier_trans own (sort earlier kept) origin
                          (sort-IsSorted earlier earlier-asym earlier_trans kept) e))
                      here bound;
              },
            )
      ]

  first-allowed :
      (job : ProvisioningJob)
      → (is_paid job.action ≡ false) ⊎ (is_entitled unrestricted store job.installation_id ≡ true)
      → is_allowed unrestricted store job ≡ true
  first-allowed job (inl unpaid) = rw unpaid refl
  first-allowed job (inr paid) = ground (arith, paid)

-- A worker that is stored under its identifier is among those whose capacity is compared.
worker_compared :
    (now : ℕ) (node_id : String) (store : Store) (worker : StoredWorker)
    → get store.workers node_id ≡ some worker
    → worker.node.id ≡ node_id
    → (w : WorkerNode) × (find
          (λ (n : WorkerNode). str_eq n.id node_id)
          (workers_with_active_checkout_holds now store)
        ≡ some w)
unfolding workers_with_active_checkout_holds
worker_compared now node_id store worker e named =
    let Other = λ (n : WorkerNode). str_eq n.id node_id ≡ false in
    elim (Option-cases (
      find (λ (n : WorkerNode). str_eq n.id node_id)
        (workers_with_active_checkout_holds now store))) [
          | inr (w, f) ↦ (w, f)
          | inl f ↦
              let others : All (λ (s : StoredWorker). str_eq s.node.id node_id ≡ false)
                  (values store.workers) =
                All-of_map Other _ (values store.workers) (find-none _ _ f) in
              let other =
                All-Mem (λ (s : StoredWorker). str_eq s.node.id node_id ≡ false)
                  (values store.workers) worker others (get-Mem store.workers node_id worker e) in
              let same = (eq_iff worker.node.id node_id).1 named in cc
        ]

module _ (unrestricted : Bool) (now : ℕ) (job_id : String → String) (node_id : String) where
  started-IsTaken :
      (worker : StoredWorker) (store : Store) (job origin : ProvisioningJob)
      → IsFirst unrestricted node_id store job origin
      → (a : AgentJob) × ((claim_next unrestricted now node_id worker store (some origin)).0
          ≡ some a)
        × IsTaken (values store.jobs) node_id job a
  unfolding claim_next start_job
  started-IsTaken worker store job origin h = rw h.allowed (
    _,
    refl,
    record {
      origin = origin;
      member = h.member;
      queued = queued_of origin.status h.queued;
      bound = given_of origin.worker_node_id node_id h.bound;
      oldest = ground (arith, h.oldest);
      same = refl;
      worker = refl;
      running = refl;
      counted = omega arith;
    },
  )

  -- A ready worker that no job runs on and that asks for one, while a queued job is bound to it
  -- that is not paid for or whose installation is entitled, gets a job that was queued for it and
  -- is no newer than that one; the job is now running, and one attempt more is counted.
  pub claim_progress :
      (store : Store) (worker : StoredWorker) (job : ProvisioningJob)
      → get store.workers node_id ≡ some worker
      → worker.node.id ≡ node_id
      → is_ready worker.node.status ≡ true
      → find (runs_on node_id) (values store.jobs) ≡ none
      → Memᴰ job (values store.jobs)
      → job.status ≡ JobStatus.queued
      → job.worker_node_id ≡ some node_id
      → (is_paid job.action ≡ false) ⊎ (is_entitled unrestricted store job.installation_id ≡ true)
      → (a : AgentJob) × ((claim_worker_job unrestricted now job_id node_id store).0 ≡ some a)
        × IsTaken (values store.jobs) node_id job a
  unfolding claim_worker_job claim_ready claim_or_resume expire_checkout_capacity_holds
  claim_progress store worker job e named b idle m queued bound paid =
      let current = expire_checkout_capacity_holds now store in
      let (w, found) = worker_compared now node_id store worker e named in
      let allowed = first-allowed unrestricted node_id store job paid in
      let (origin, first) =
        find-IsFirst unrestricted node_id current job m (rw (queued, allowed) refl)
          (rw (bound, eq_refl node_id) refl) in
      rw (e, claim_worker_job, b, found, idle, first.next w)
        (started-IsTaken worker current job origin first)
