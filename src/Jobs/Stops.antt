-- ===== src/Jobs/Stops.antt =====
-- The loop that stops the applications of an installation: what it leaves alone, and that every
-- running application ends with an open stop job.
use managed_oss_cloud.Common.{
  ℕ, String, true, false, not, ◌&&◌, List, [], ◌∷◌, ◌≡◌, refl, ap, sym, ◌∙◌, inl, inr, arith, any,
  all, str_eq, eq_iff, eq_refl, Bool-cases,
}
use managed_oss_cloud.Common.Dict.{
  Dict, has, values, update_all, has-set, any-set-none, any-set-new, any-set-old, any-update_all,
}
use managed_oss_cloud.Types.{ProvisioningJob, stop}
use managed_oss_cloud.Store.{Store}
use managed_oss_cloud.Store.Records.{ApplicationInstance}
use managed_oss_cloud.Jobs.{
  enqueue_job, new_job, stop_payload, stop_application, stop_applications, is_open_stop,
  is_open_paid, fail_paid_job, runs_for, is_stopping, is_covered,
}

module _ (now : ℕ) (reason : String) (job_id : String → String) (inst : String) where
  -- Only the jobs change.
  stop_application-keeps :
      (store : Store) (app : ApplicationInstance)
      → stop_application now reason job_id inst store app
        ≡ record store { jobs = (stop_application now reason job_id inst store app).jobs }
  unfolding stop_application enqueue_job
  stop_application-keeps store app =
      elim (Bool-cases
        (runs_for inst app && not (any (is_open_stop inst app.id) (values store.jobs)))) [
          | inl b ↦ rw b refl
          | inr b ↦ rw b refl
        ]

  pub stop_applications-keeps :
      (store : Store) (apps : List ApplicationInstance)
      → stop_applications now reason job_id inst store apps
        ≡ record store { jobs = (stop_applications now reason job_id inst store apps).jobs }
  unfolding stop_applications
  stop_applications-keeps store [] = refl
  stop_applications-keeps store (app ∷ apps) =
      let next = stop_application now reason job_id inst store app in
      stop_applications-keeps next apps
      ∙ ap
          (λ (s : Store). record s {
            jobs = (stop_applications now reason job_id inst next apps).jobs;
          })
          (stop_application-keeps store app)

  -- No open paid job comes up.
  stop_application-unpaid :
      (store : Store) (app : ApplicationInstance)
      → any (is_open_paid inst) (values store.jobs) ≡ false
      → any (is_open_paid inst) (values (stop_application now reason job_id inst store app).jobs)
        ≡ false
  unfolding stop_application enqueue_job
  stop_application-unpaid store app h =
      elim (Bool-cases
        (runs_for inst app && not (any (is_open_stop inst app.id) (values store.jobs)))) [
          | inl b ↦ rw b (
              any-set-none (is_open_paid inst) store.jobs (job_id app.id)
                (new_job now (job_id app.id) inst stop (stop_payload app.id reason) store) h
                (ground arith))
          | inr b ↦ rw b h
        ]

  pub stop_applications-unpaid :
      (store : Store) (apps : List ApplicationInstance)
      → any (is_open_paid inst) (values store.jobs) ≡ false
      → any (is_open_paid inst) (values (stop_applications now reason job_id inst store apps).jobs)
        ≡ false
  unfolding stop_applications
  stop_applications-unpaid store [] h = h
  stop_applications-unpaid store (app ∷ apps) h =
      stop_applications-unpaid (stop_application now reason job_id inst store app) apps
        (stop_application-unpaid store app h)

  covered_stopping :
      (jobs : Dict ProvisioningJob) (app : ApplicationInstance)
      → is_covered inst jobs app ≡ true
      → runs_for inst app ≡ true
      → is_stopping inst jobs app.id ≡ true
  covered_stopping jobs app c r = rw r at c

  stopping_covered :
      (jobs : Dict ProvisioningJob) (app : ApplicationInstance)
      → is_stopping inst jobs app.id ≡ true
      → is_covered inst jobs app ≡ true
  stopping_covered jobs app h = rw h (ground arith)

  -- Drawn identifiers that are taken are taken by stop jobs of their applications.
  abbrev IsFresh : Dict ProvisioningJob → Type 0
  IsFresh jobs = (a : String) → has jobs (job_id a) ≡ true → is_stopping inst jobs a ≡ true

  module _ (different : (a b : String) → job_id a ≡ job_id b → a ≡ b) where
    stop_application-stopping :
        (store : Store) (app : ApplicationInstance) (a : String)
        → IsFresh store.jobs
        → is_stopping inst store.jobs a ≡ true
        → is_stopping inst (stop_application now reason job_id inst store app).jobs a ≡ true
    unfolding stop_application enqueue_job
    stop_application-stopping store app a fresh h =
        elim (Bool-cases
          (runs_for inst app && not (any (is_open_stop inst app.id) (values store.jobs)))) [
            | inl b ↦
                let absent : has store.jobs (job_id app.id) ≡ false =
                  ground (arith, b, fresh app.id) in
                rw b (
                  any-set-old (is_open_stop inst a) store.jobs (job_id app.id)
                    (new_job now (job_id app.id) inst stop (stop_payload app.id reason) store)
                    absent h)
            | inr b ↦ rw b h
          ]

    new_stop :
        (store : Store) (app : ApplicationInstance)
        → is_open_stop inst app.id
            (new_job now (job_id app.id) inst stop (stop_payload app.id reason) store)
          ≡ true
    new_stop store app = rw (eq_refl inst, eq_refl app.id) refl

    stop_application-IsFresh :
        (store : Store) (app : ApplicationInstance)
        → IsFresh store.jobs
        → IsFresh (stop_application now reason job_id inst store app).jobs
    unfolding stop_application enqueue_job
    stop_application-IsFresh store app fresh a h =
        elim (Bool-cases
          (runs_for inst app && not (any (is_open_stop inst app.id) (values store.jobs)))) [
            | inl b ↦
                let job =
                  new_job now (job_id app.id) inst stop (stop_payload app.id reason) store in
                elim (Bool-cases (str_eq (job_id app.id) (job_id a))) [
                  | inl same ↦
                      let is : app.id ≡ a =
                        different app.id a ((eq_iff (job_id app.id) (job_id a)).0 same) in
                      rw b (
                        any-set-new (is_open_stop inst a) store.jobs (job_id app.id) job
                          (ap (λ x. is_open_stop inst x job) (sym is) ∙ new_stop store app))
                  | inr other ↦
                      let was : has store.jobs (job_id a) ≡ true =
                        rw other at
                          (sym (has-set store.jobs (job_id app.id) (job_id a) job) ∙ (rw b at h)) in
                      stop_application-stopping store app a fresh (fresh a was)
                ]
            | inr b ↦ rw b (fresh a (rw b at h))
          ]

    stop_application-covers :
        (store : Store) (app : ApplicationInstance)
        → is_covered inst (stop_application now reason job_id inst store app).jobs app ≡ true
    unfolding stop_application enqueue_job
    stop_application-covers store app =
        elim (Bool-cases
          (runs_for inst app && not (any (is_open_stop inst app.id) (values store.jobs)))) [
            | inl b ↦
                let found =
                  any-set-new (is_open_stop inst app.id) store.jobs (job_id app.id)
                    (new_job now (job_id app.id) inst stop (stop_payload app.id reason) store)
                    (new_stop store app) in
                rw (b, found) (ground arith)
            | inr b ↦ rw b (ground (arith, b))
          ]

    stop_applications-stopping :
        (store : Store) (apps : List ApplicationInstance) (a : String)
        → IsFresh store.jobs
        → is_stopping inst store.jobs a ≡ true
        → is_stopping inst (stop_applications now reason job_id inst store apps).jobs a ≡ true
    unfolding stop_applications
    stop_applications-stopping store [] a fresh h = h
    stop_applications-stopping store (app ∷ apps) a fresh h =
        stop_applications-stopping (stop_application now reason job_id inst store app) apps a
          (stop_application-IsFresh store app fresh) (stop_application-stopping store app a fresh h)

    stop_applications-fresh :
        (store : Store) (apps : List ApplicationInstance)
        → IsFresh store.jobs
        → all (is_covered inst (stop_applications now reason job_id inst store apps).jobs) apps
          ≡ true
    unfolding stop_applications
    stop_applications-fresh store [] fresh = refl
    stop_applications-fresh store (app ∷ apps) fresh =
        let next = stop_application now reason job_id inst store app in
        let later = stop_applications-fresh next apps (stop_application-IsFresh store app fresh) in
        let now_covered = stop_application-covers store app in
        elim (Bool-cases (runs_for inst app)) [
          | inl b ↦
              let kept =
                stop_applications-stopping next apps app.id
                  (stop_application-IsFresh store app fresh)
                  (covered_stopping next.jobs app now_covered b) in
              rw (b, kept) later
          | inr b ↦ rw b later
        ]

    -- Where no job has a drawn identifier yet, every running application of the installation ends
    -- with an open stop job.
    pub stop_applications-covers :
        (store : Store) (apps : List ApplicationInstance)
        → ((a : String) → has store.jobs (job_id a) ≡ false)
        → all (is_covered inst (stop_applications now reason job_id inst store apps).jobs) apps
          ≡ true
    stop_applications-covers store apps new =
        stop_applications-fresh store apps (λ a h. cc (new a, h))

pub fail_paid_job-none :
    (inst : String) (jobs : Dict ProvisioningJob)
    → any (is_open_paid inst) (values (update_all (fail_paid_job inst) jobs)) ≡ false
fail_paid_job-none inst jobs = any-update_all (is_open_paid inst) (fail_paid_job inst) jobs (λ job.
    elim (Bool-cases (is_open_paid inst job)) [ inl b ↦ rw b (ground arith) | inr b ↦ rw b b ])
