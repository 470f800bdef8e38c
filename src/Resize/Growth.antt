-- ===== src/Resize/Growth.antt =====
-- What a resize reserves while the payment provider confirms it.
use mathlib.Core.List.{Memᴰ}
use mathlib.Core.Path.{subst}
use managed_oss_cloud.Common.{
  ℕ, ◌+◌, max, String, Bool, true, false, ◌&&◌, some, none, ◌≡◌, refl, ◌⊎◌, inl, inr, arith, any,
  find, str_eq, Option, some_inj, Bool-cases, Option-cases, not, keep, map, if◌then◌else◌,
}
use managed_oss_cloud.Common.Dict.{get, values}
use managed_oss_cloud.Common.Sorted.{find-All, All-of_Mem}
use managed_oss_cloud.Common.Number.{NumberOps}
use managed_oss_cloud.Common.Result.{Result, thrown, returned, ◌>>◌, >>=-eq-returned, returned_inj}
use managed_oss_cloud.Capacity.{
  PlanCapacitySnapshot, positive_capacity_delta, application_capacity_usage, capacity_envelope_fit,
}
use managed_oss_cloud.Pricing.{PricingPolicy}
use managed_oss_cloud.Store.{Store, is_active}
use managed_oss_cloud.Store.Records.{
  Installation, ApplicationInstance, InstallationCapacityAllocation, PlanCapacityChangeHold,
  AcquirePlanCapacityChangeHoldInput,
}
use managed_oss_cloud.Resize.{
  Acquired, replayed, granted, unavailable, new_change_hold, replay_change, new_change,
  respond_change, record_change, expire_plan_capacity_change_holds,
  acquire_plan_capacity_change_hold, may_resize, same_change, reservation_of,
}

-- With the current allocation of the installation, a hold takes of each resource as much as the
-- larger of the current and the requested plan grants.
pub record IsCovering (store : Store) (installation_id : String) (requested : PlanCapacitySnapshot)
    (hold : PlanCapacityChangeHold) : Type 0 where
  pub current : InstallationCapacityAllocation
  pub allocated : get store.capacity_allocations installation_id ≡ some current
  pub generation : hold.expected_generation ≡ current.generation
  pub worker : hold.worker_node_id ≡ current.worker_node_id
  pub target : hold.snapshot ≡ requested
  pub memory :
      current.snapshot.memory_mb + hold.reserved_delta_memory_mb
      ≡ max current.snapshot.memory_mb requested.memory_mb
  pub processor :
      current.snapshot.cpu_millis + hold.reserved_delta_cpu_millis
      ≡ max current.snapshot.cpu_millis requested.cpu_millis
  pub storage :
      current.snapshot.storage_gb + hold.reserved_delta_storage_gb
      ≡ max current.snapshot.storage_gb requested.storage_gb

new_change_hold-IsCovering :
    (now : ℕ) (id : String) (input : AcquirePlanCapacityChangeHoldInput) (store : Store)
    (installation : Installation) (allocation : InstallationCapacityAllocation)
    → get store.capacity_allocations input.installation_id ≡ some allocation
    → IsCovering store input.installation_id input.requested
        (new_change_hold now id input installation allocation)
unfolding positive_capacity_delta
new_change_hold-IsCovering now id input store installation allocation e = record {
  current = allocation;
  allocated = e;
  generation = refl;
  worker = refl;
  target = refl;
  memory = ground arith;
  processor = ground arith;
  storage = ground arith;
}

-- A hold that the store has, or a new one
abbrev pub IsHeldOrCovering :
    Store → AcquirePlanCapacityChangeHoldInput → PlanCapacityChangeHold → Type 0
IsHeldOrCovering store input hold =
    Memᴰ hold (values store.plan_capacity_change_holds)
    ⊎ IsCovering store input.installation_id input.requested hold

-- The decision that is written names a hold of that kind, if any.
abbrev IsSound : Store → AcquirePlanCapacityChangeHoldInput → Acquired → Type 0
IsSound store input (replayed hold) = IsHeldOrCovering store input hold
IsSound store input (granted hold) = IsHeldOrCovering store input hold
IsSound store input unavailable = Unit

IsSound-eq :
    (store : Store) (input : AcquirePlanCapacityChangeHoldInput) (d d' : Acquired)
    → returned d ≡ returned d'
    → IsSound store input d
    → IsSound store input d'
IsSound-eq store input d d' e h = subst (IsSound store input) (returned_inj e) h

module _ (now : ℕ) (id : String) (input : AcquirePlanCapacityChangeHoldInput) (store : Store) where
  -- the end of `new_change`, for the usage of the installation's applications
  fitting-IsSound :
      (installation : Installation) (allocation : InstallationCapacityAllocation) (fits : Bool)
      (d : Acquired)
      → get store.capacity_allocations input.installation_id ≡ some allocation
      → returned (
          if not fits
          then unavailable
          else granted (new_change_hold now id input installation allocation))
        ≡ returned d
      → IsSound store input d
  fitting-IsSound installation allocation false d e h = IsSound-eq store input unavailable d h tt
  fitting-IsSound installation allocation true d e h =
      IsSound-eq store input (granted (new_change_hold now id input installation allocation)) d h
        (inr (new_change_hold-IsCovering now id input store installation allocation e))

  new_change-IsSound :
      (installation : Option Installation) (allocation : Option InstallationCapacityAllocation)
      (d : Acquired)
      → get store.capacity_allocations input.installation_id ≡ allocation
      → new_change now id input store installation allocation ≡ returned d
      → IsSound store input d
  unfolding new_change
  new_change-IsSound none allocation d e h = IsSound-eq store input unavailable d h tt
  new_change-IsSound (some i) none d e h = IsSound-eq store input unavailable d h tt
  new_change-IsSound (some i) (some a) d e h = elim (Bool-cases (may_resize input i a)) [
    | inr b ↦ IsSound-eq store input unavailable d (rw b at h) tt
    | inl b ↦
        let (usage, _, last) =
          >>=-eq-returned
            (application_capacity_usage
              (map reservation_of (
                keep (λ (app : ApplicationInstance). str_eq app.installation_id i.id)
                  (values store.applications)))
              input.memory_safety_reserve_mb)
            _ (rw b at h) in
        fitting-IsSound i a (capacity_envelope_fit usage input.requested).fits d e last
  ]

  replay_change-IsSound :
      (existing : PlanCapacityChangeHold) (d : Acquired)
      → Memᴰ existing (values store.plan_capacity_change_holds)
      → replay_change input existing ≡ returned d
      → IsSound store input d
  unfolding replay_change
  replay_change-IsSound existing d m h = elim (Bool-cases (same_change existing input)) [
    | inr b ↦ cc (rw b at h)
    | inl b ↦ elim (Bool-cases (is_active existing.state)) [
      | inl live ↦ IsSound-eq store input (replayed existing) d (rw (b, live) at h) (inl m)
      | inr over ↦ IsSound-eq store input unavailable d (rw (b, over) at h) tt
    ]
  ]

  respond_change-IsSound :
      (d : Acquired) → respond_change now id input store ≡ returned d → IsSound store input d
  unfolding respond_change
  respond_change-IsSound d h =
      let holds = values store.plan_capacity_change_holds in
      let same = λ (hold : PlanCapacityChangeHold).
        str_eq hold.user_id input.user_id && str_eq hold.idempotency_key input.idempotency_key in
      let busy = λ (hold : PlanCapacityChangeHold).
        str_eq hold.installation_id input.installation_id && is_active hold.state in
      let Held = λ (hold : PlanCapacityChangeHold). Memᴰ hold holds in
      elim (Option-cases (find same holds)) [
        | inr (existing, e) ↦
            replay_change-IsSound existing d
              (find-All Held same holds existing (All-of_Mem Held holds (λ x m. m)) e)
              (rw (e, respond_change) at h)
        | inl e ↦ elim (Bool-cases (any busy holds)) [
          | inl b ↦ IsSound-eq store input unavailable d (rw (e, respond_change, b) at h) tt
          | inr b ↦
              new_change-IsSound (get store.installations input.installation_id)
                (get store.capacity_allocations input.installation_id) d refl
                (rw (e, respond_change, b) at h)
        ]
      ]

  record_change-held :
      (checks : Result (Unit {0})) (decision : Result Acquired) (hold : PlanCapacityChangeHold)
      → ((d : Acquired) → decision ≡ returned d → IsSound store input d)
      → (record_change store (checks >> decision)).0 ≡ returned (some hold)
      → IsHeldOrCovering store input hold
  unfolding record_change
  record_change-held (thrown message) decision hold sound h = cc
  record_change-held (returned _) (thrown message) hold sound h = cc
  record_change-held (returned _) (returned unavailable) hold sound h = cc
  record_change-held (returned _) (returned (replayed x)) hold sound h =
      subst (IsHeldOrCovering store input) (some_inj (returned_inj h)) (sound (replayed x) refl)
  record_change-held (returned _) (returned (granted x)) hold sound h =
      subst (IsHeldOrCovering store input) (some_inj (returned_inj h)) (sound (granted x) refl)

-- Whoever asks for a resize and gets a hold gets one that is held already, or a new one of the
-- requested plan for the current generation and worker of the allocation, which, together with
-- what the current plan grants, takes of memory, processor and storage what the larger of the two
-- plans grants.
pub acquire_covers_growth :
    (ops : NumberOps) (policy : PricingPolicy ops.Num) (now : ℕ) (id : String)
    (input : AcquirePlanCapacityChangeHoldInput) (store : Store) (hold : PlanCapacityChangeHold)
    → (acquire_plan_capacity_change_hold ops policy now id input store).0 ≡ returned (some hold)
    → IsHeldOrCovering (expire_plan_capacity_change_holds now store) input hold
unfolding acquire_plan_capacity_change_hold
acquire_covers_growth ops policy now id input store hold h =
    let current = expire_plan_capacity_change_holds now store in
    record_change-held now id input current _ (respond_change now id input current) hold
      (respond_change-IsSound now id input current) h
