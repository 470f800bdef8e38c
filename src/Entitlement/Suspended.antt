-- ===== src/Entitlement/Suspended.antt =====
-- The end of an entitlement: what `updateSubscriptionStatus` leaves behind when no subscription of
-- the installation is entitled any more.
use managed_oss_cloud.Common.{
  none, Option, ℕ, String, Bool, true, false, some, ◌≡◌, refl, ap, ◌∙◌, inl, inr, any, all, eq_refl,
  Option-cases,
}
use managed_oss_cloud.Common.Dict.{
  get, has, set, values, update_all, get-set, get-set_same, has-update_all,
}
use managed_oss_cloud.Types.{InstallationState}
use managed_oss_cloud.Store.{Store, is_active_allocation}
use managed_oss_cloud.Store.Records.{
  Installation, StoredSubscription, InstallationCapacityAllocation, AllocationState,
}
use managed_oss_cloud.Jobs.{is_open_paid, fail_paid_job, is_covered}
use managed_oss_cloud.Jobs.Stops.{
  stop_applications-keeps, stop_applications-unpaid, stop_applications-covers, fail_paid_job-none,
}
use managed_oss_cloud.Entitlement.{
  suspended_allocation, synchronized, synchronize_capacity_allocation_entitlement, is_bound,
  is_entitled, put_subscription, suspend, suspended_installation, follow_entitlement,
  settle_entitlement, update_subscription_status,
}

-- An allocation that is there and active
abbrev pub is_allocated : Option InstallationCapacityAllocation → Bool
is_allocated none = false
is_allocated (some a) = is_active_allocation a.state

-- Without an entitlement the synchronisation changes allocations and change holds only, and leaves
-- the installation without an active allocation.
module _ (now : ℕ) (id reason : String) where
  synchronized-keeps :
      (store : Store) (a : InstallationCapacityAllocation) (st : AllocationState)
      → let after = synchronized now false reason id store a st in
        after ≡ record store {
          plan_capacity_change_holds = after.plan_capacity_change_holds;
          capacity_allocations = after.capacity_allocations;
        }
  unfolding synchronized
  synchronized-keeps store a AllocationState.active = refl
  synchronized-keeps store a AllocationState.suspended = refl
  synchronized-keeps store a AllocationState.released = refl

  synchronize-keeps :
      (store : Store)
      → let after = synchronize_capacity_allocation_entitlement now id false reason store in
        after ≡ record store {
          plan_capacity_change_holds = after.plan_capacity_change_holds;
          capacity_allocations = after.capacity_allocations;
        }
  unfolding synchronize_capacity_allocation_entitlement
  synchronize-keeps store = elim (Option-cases (get store.capacity_allocations id)) [
    | inl e ↦ rw (e, synchronize_capacity_allocation_entitlement) refl
    | inr (a, e) ↦
        rw (e, synchronize_capacity_allocation_entitlement) (synchronized-keeps store a a.state)
  ]

  synchronized-inactive :
      (store : Store) (a : InstallationCapacityAllocation) (st : AllocationState)
      → get store.capacity_allocations id ≡ some a
      → a.state ≡ st
      → is_allocated (get (synchronized now false reason id store a st).capacity_allocations id)
        ≡ false
  unfolding synchronized
  synchronized-inactive store a AllocationState.active e s =
      ap is_allocated
        (get-set_same store.capacity_allocations id (suspended_allocation now reason a))
  synchronized-inactive store a AllocationState.suspended e s =
      ap is_allocated e ∙ ap is_active_allocation s
  synchronized-inactive store a AllocationState.released e s =
      ap is_allocated e ∙ ap is_active_allocation s

  synchronize-inactive :
      (store : Store)
      → let after = synchronize_capacity_allocation_entitlement now id false reason store in
        is_allocated (get after.capacity_allocations id) ≡ false
  unfolding synchronize_capacity_allocation_entitlement
  synchronize-inactive store = elim (Option-cases (get store.capacity_allocations id)) [
    | inl e ↦ rw (e, synchronize_capacity_allocation_entitlement) (ap is_allocated e)
    | inr (a, e) ↦
        rw (e, synchronize_capacity_allocation_entitlement)
          (synchronized-inactive store a a.state e refl)
  ]

-- The installation is suspended and has no entitlement, no active allocation and no open paid job,
-- and each of its running applications has an open stop job.
pub record IsHalted (unrestricted : Bool) (store : Store) (id : String) : Type 0 where
  pub unentitled : is_entitled unrestricted store id ≡ false
  pub suspended :
      (i : Installation) × (get store.installations id ≡ some i)
      × (i.state ≡ InstallationState.suspended)
  pub unallocated : is_allocated (get store.capacity_allocations id) ≡ false
  pub unpaid : any (is_open_paid id) (values store.jobs) ≡ false
  pub stopping : all (is_covered id store.jobs) (values store.applications) ≡ true

module _ (unrestricted : Bool) (now : ℕ) (job_id : String → String)
    (different : (a b : String) → job_id a ≡ job_id b → a ≡ b) where
  suspend-IsHalted :
      (reason stop_reason : String) (installation : Installation) (store : Store)
      → ((a : String)
          → has (update_all (fail_paid_job installation.id) store.jobs) (job_id a) ≡ false)
      → is_entitled unrestricted store installation.id ≡ false
      → is_allocated (get store.capacity_allocations installation.id) ≡ false
      → IsHalted unrestricted
          (suspend now reason stop_reason job_id installation.id installation store)
          installation.id
  unfolding suspend
  suspend-IsHalted reason stop_reason installation store new off inactive =
      let id = installation.id in
      let after = suspended_installation now reason installation in
      let halted : Store = record store {
        installations = set store.installations id after;
        jobs = update_all (fail_paid_job id) store.jobs;
      } in
      let apps = values store.applications in
      rw (stop_applications-keeps now stop_reason job_id id halted apps) (record {
        unentitled = off;
        suspended = (after, get-set store.installations id id after ∙ rw (eq_refl id) refl, refl);
        unallocated = inactive;
        unpaid =
            stop_applications-unpaid now stop_reason job_id id halted apps
              (fail_paid_job-none id store.jobs);
        stopping = stop_applications-covers now stop_reason job_id id different halted apps new;
      })

  settle-IsHalted :
      (installation : Installation) (store : Store)
      → get store.installations installation.id ≡ some installation
      → ((a : String) → has store.jobs (job_id a) ≡ false)
      → is_entitled unrestricted store installation.id ≡ false
      → IsHalted unrestricted
          (settle_entitlement unrestricted now job_id installation.id store)
          installation.id
  unfolding settle_entitlement follow_entitlement
  settle-IsHalted installation store found new off =
      let id = installation.id in
      let synced =
        synchronize_capacity_allocation_entitlement now id false "Subscription became inactive."
          store in
      let kept = synchronize-keeps now id "Subscription became inactive." store in
      let there : get synced.installations id ≡ some installation =
        ap (λ (s : Store). get s.installations id) kept ∙ found in
      rw (off, there)
        (suspend-IsHalted "Subscription inactive; customer routes and paid mutations are suspended."
          "subscription_inactive" installation synced
          (λ a.
            has-update_all (fail_paid_job id) synced.jobs (job_id a)
            ∙ ap (λ (s : Store). has s.jobs (job_id a)) kept
            ∙ new a)
          (ap (λ (s : Store). is_entitled unrestricted s id) kept ∙ off)
          (synchronize-inactive now id "Subscription became inactive." store))

  -- When a status comes in that leaves an installation of the subscription without an entitlement,
  -- then, the new jobs having new and different identifiers, the installation is suspended and has
  -- no active allocation and no open paid job, and each of its running applications has an open
  -- stop job.
  pub inactive_halts :
      (id status : String) (item : StoredSubscription) (installation : Installation) (store : Store)
      → get store.subscriptions id ≡ some item
      → is_bound item ≡ some installation.id
      → get store.installations installation.id ≡ some installation
      → ((a : String) → has store.jobs (job_id a) ≡ false)
      → is_entitled unrestricted
          (put_subscription store id (record item { status = status }))
          installation.id
        ≡ false
      → IsHalted unrestricted
          (update_subscription_status unrestricted now job_id id status store).1
          installation.id
  unfolding update_subscription_status
  inactive_halts id status item installation store there bound found new off =
      rw (there, bound, update_subscription_status)
        (settle-IsHalted installation (put_subscription store id (record item { status = status }))
          found new off)

-- The jobs that stop the applications leave the subscriptions as the update wrote them.
module _ (unrestricted : Bool) (now : ℕ) (job_id : String → String) where
  suspend-subscriptions :
      (reason stop_reason id : String) (installation : Installation) (store : Store)
      → (suspend now reason stop_reason job_id id installation store).subscriptions
        ≡ store.subscriptions
  unfolding suspend
  suspend-subscriptions reason stop_reason id installation store =
      ap (λ (s : Store). s.subscriptions)
        (stop_applications-keeps now stop_reason job_id installation.id
          (record store {
            installations =
                set store.installations id (suspended_installation now reason installation);
            jobs = update_all (fail_paid_job installation.id) store.jobs;
          })
          (values store.applications))

  settle-subscriptions :
      (installation : Installation) (store : Store)
      → get store.installations installation.id ≡ some installation
      → is_entitled unrestricted store installation.id ≡ false
      → (settle_entitlement unrestricted now job_id installation.id store).subscriptions
        ≡ store.subscriptions
  unfolding settle_entitlement follow_entitlement
  settle-subscriptions installation store found off =
      let id = installation.id in
      let synced =
        synchronize_capacity_allocation_entitlement now id false "Subscription became inactive."
          store in
      let kept = synchronize-keeps now id "Subscription became inactive." store in
      let there : get synced.installations id ≡ some installation =
        ap (λ (s : Store). get s.installations id) kept ∙ found in
      rw (off, there)
        (suspend-subscriptions
            "Subscription inactive; customer routes and paid mutations are suspended."
            "subscription_inactive" id installation synced
          ∙ ap (λ (s : Store). s.subscriptions) kept)

  pub inactive_subscriptions :
      (id status : String) (item : StoredSubscription) (installation : Installation) (store : Store)
      → get store.subscriptions id ≡ some item
      → is_bound item ≡ some installation.id
      → get store.installations installation.id ≡ some installation
      → is_entitled unrestricted
          (put_subscription store id (record item { status = status }))
          installation.id
        ≡ false
      → (update_subscription_status unrestricted now job_id id status store).1.subscriptions
        ≡ (put_subscription store id (record item { status = status })).subscriptions
  unfolding update_subscription_status
  inactive_subscriptions id status item installation store there bound found off =
      rw (there, bound, update_subscription_status)
        (settle-subscriptions installation
          (put_subscription store id (record item { status = status })) found off)
