-- ===== src/Capacity/Fit.antt =====
-- When an envelope fits, and when the usage of a list of applications is computed and exact.
use managed_oss_cloud.Common.{
  ℕ, ◌+◌, ◌≤◌, ◌≡◌, ◌↔◌, true, List, [], ◌∷◌, arith, total, length, Bool, all, leb, le→leb,
  and-parts, ◌&&◌, refl, ap, ◌∙◌,
}
use managed_oss_cloud.Common.Number.{add_number, add_number-exact}
use managed_oss_cloud.Common.Result.{◌>>=◌, Result, returned, >>=-eq-returned}
use managed_oss_cloud.Capacity.{
  max_safe_integer, PlanCapacitySnapshot, ApplicationCapacityUsage, CapacityReservation,
  capacity_envelope_fit, application_capacity_usage, add_usages, add_usage,
  safe_non_negative_integer,
}

-- The usage stays within the allocation in each dimension.
pub record Within (u : ApplicationCapacityUsage) (a : PlanCapacitySnapshot) : Type 0 where
  pub memory_within : u.memory_mb ≤ a.memory_mb
  pub cpu_within : u.cpu_millis ≤ a.cpu_millis
  pub storage_within : u.storage_gb ≤ a.storage_gb
  pub services_within : u.services ≤ a.max_services

fits-Within :
    (u : ApplicationCapacityUsage) (a : PlanCapacitySnapshot)
    → (capacity_envelope_fit u a).fits ≡ true
    → Within u a
unfolding capacity_envelope_fit
fits-Within u a h = ground arith

Within-fits :
    (u : ApplicationCapacityUsage) (a : PlanCapacitySnapshot)
    → Within u a
    → (capacity_envelope_fit u a).fits ≡ true
unfolding capacity_envelope_fit
Within-fits u a h = ground arith

-- The envelope fits exactly when memory, processor, storage and the number of services each stay
-- within the allocation.
pub fits_iff :
    (u : ApplicationCapacityUsage) (a : PlanCapacitySnapshot)
    → ((capacity_envelope_fit u a).fits ≡ true) ↔ Within u a
fits_iff u a = (fits-Within u a, Within-fits u a)

-- Each number of a reservation is a safe integer.
abbrev pub is_safe : CapacityReservation → Bool
is_safe a =
    leb a.memory_reservation_mb max_safe_integer
    && leb a.cpu_reservation_millis max_safe_integer
    && leb a.storage_reservation_gb max_safe_integer

-- The usage with one reservation more, each sum rounded
abbrev counted : ApplicationCapacityUsage → CapacityReservation → ApplicationCapacityUsage
counted u a = record {
  memory_mb = add_number u.memory_mb a.memory_reservation_mb;
  cpu_millis = add_number u.cpu_millis a.cpu_reservation_millis;
  storage_gb = add_number u.storage_gb a.storage_reservation_gb;
  services = add_number u.services 1;
}

add_usage-safe :
    (u : ApplicationCapacityUsage) (a : CapacityReservation)
    → is_safe a ≡ true
    → add_usage u a ≡ returned (counted u a)
unfolding add_usage safe_non_negative_integer
add_usage-safe u a h =
    let (sizes, storage) = and-parts _ (leb a.storage_reservation_gb max_safe_integer) h in
    let (memory, cpu) =
      and-parts (leb a.memory_reservation_mb max_safe_integer)
        (leb a.cpu_reservation_millis max_safe_integer) sizes in
    rw (memory, cpu, storage) refl

safe-add_usage :
    (u : ApplicationCapacityUsage) (a : CapacityReservation) (v : ApplicationCapacityUsage)
    → add_usage u a ≡ returned v
    → is_safe a ≡ true
unfolding add_usage safe_non_negative_integer
safe-add_usage u a v h = ground arith

add_usages-returns :
    (u : ApplicationCapacityUsage) (apps : List CapacityReservation)
    → all is_safe apps ≡ true
    → (v : ApplicationCapacityUsage) × (add_usages u apps ≡ returned v)
unfolding add_usages
add_usages-returns u [] h = (u, refl)
add_usages-returns u (a ∷ apps) h =
    let (here, later) = and-parts (is_safe a) (all is_safe apps) h in
    let (v, e) = add_usages-returns (counted u a) apps later in
    (
      v,
      ap (λ (r : Result ApplicationCapacityUsage). r >>= λ next. add_usages next apps)
            (add_usage-safe u a here)
          ∙ e,
    )

returns-safe :
    (u : ApplicationCapacityUsage) (apps : List CapacityReservation) (v : ApplicationCapacityUsage)
    → add_usages u apps ≡ returned v
    → all is_safe apps ≡ true
unfolding add_usages
returns-safe u [] v h = refl
returns-safe u (a ∷ apps) v h =
    let (w, first, rest) = >>=-eq-returned (add_usage u a) (λ next. add_usages next apps) h in
    rw (safe-add_usage u a w first, returns-safe w apps v rest) refl

abbrev from_reserve : ℕ → ApplicationCapacityUsage
from_reserve reserve = record { memory_mb = reserve; cpu_millis = 0; storage_gb = 0; services = 0 }

-- The usage is computed without an error exactly when the reserve and every number of every
-- reservation is a safe integer.
pub usage_returns :
    (apps : List CapacityReservation) (reserve : ℕ)
    → ((u : ApplicationCapacityUsage) × (application_capacity_usage apps reserve ≡ returned u))
      ↔ ((reserve ≤ max_safe_integer) × (all is_safe apps ≡ true))
unfolding application_capacity_usage safe_non_negative_integer
usage_returns apps reserve =
    let checked = safe_non_negative_integer "Application memory safety reserve" reserve in
    (
      (λ r.
          let (u, h) = r in
          let (_, first, rest) =
            >>=-eq-returned checked (λ _. add_usages (from_reserve reserve) apps) h in
          (ground (arith, first), returns-safe (from_reserve reserve) apps u rest)),
      (λ r.
          let (small, safe) = r in
          let (u, e) = add_usages-returns (from_reserve reserve) apps safe in
          (u, rw (le→leb reserve max_safe_integer small) e)),
    )

-- Each number of the usage is a safe integer.
abbrev pub IsExact : ApplicationCapacityUsage → Type 0
IsExact u =
    (u.memory_mb ≤ max_safe_integer)
    × (u.cpu_millis ≤ max_safe_integer)
    × (u.storage_gb ≤ max_safe_integer)
    × (u.services ≤ max_safe_integer)

-- The sums over the usage that the loop starts from, without rounding
abbrev pub sums : ApplicationCapacityUsage → List CapacityReservation → ApplicationCapacityUsage
sums u apps = record {
  memory_mb = u.memory_mb + total (λ a. a.memory_reservation_mb) apps;
  cpu_millis = u.cpu_millis + total (λ a. a.cpu_reservation_millis) apps;
  storage_gb = u.storage_gb + total (λ a. a.storage_reservation_gb) apps;
  services = u.services + length apps;
}

abbrev plus : ApplicationCapacityUsage → CapacityReservation → ApplicationCapacityUsage
plus u a = record {
  memory_mb = u.memory_mb + a.memory_reservation_mb;
  cpu_millis = u.cpu_millis + a.cpu_reservation_millis;
  storage_gb = u.storage_gb + a.storage_reservation_gb;
  services = u.services + 1;
}

add_usage-exact :
    (u : ApplicationCapacityUsage) (a : CapacityReservation)
    → IsExact (plus u a)
    → add_usage u a ≡ returned (plus u a)
unfolding add_usage safe_non_negative_integer
add_usage-exact u a h =
    rw
      (
        le→leb a.memory_reservation_mb max_safe_integer (omega (arith, h)),
        le→leb a.cpu_reservation_millis max_safe_integer (omega (arith, h)),
        le→leb a.storage_reservation_gb max_safe_integer (omega (arith, h)),
        add_number-exact u.memory_mb a.memory_reservation_mb (omega (arith, h)),
        add_number-exact u.cpu_millis a.cpu_reservation_millis (omega (arith, h)),
        add_number-exact u.storage_gb a.storage_reservation_gb (omega (arith, h)),
        add_number-exact u.services 1 (omega (arith, h)),
      )
      refl

same_usage :
    (u v : ApplicationCapacityUsage)
    → u.memory_mb ≡ v.memory_mb
    → u.cpu_millis ≡ v.cpu_millis
    → u.storage_gb ≡ v.storage_gb
    → u.services ≡ v.services
    → u ≡ v
same_usage u v m c s n = cc

sums_step :
    (u : ApplicationCapacityUsage) (a : CapacityReservation) (apps : List CapacityReservation)
    → sums (plus u a) apps ≡ sums u (a ∷ apps)
sums_step u a apps =
    same_usage (sums (plus u a) apps) (sums u (a ∷ apps)) (omega arith) (omega arith) (omega arith)
      (omega arith)

add_usages-exact :
    (u : ApplicationCapacityUsage) (apps : List CapacityReservation)
    → IsExact (sums u apps)
    → add_usages u apps ≡ returned (sums u apps)
unfolding add_usages
add_usages-exact u [] h =
    ap returned (same_usage u (sums u []) (omega arith) (omega arith) (omega arith) (omega arith))
add_usages-exact u (a ∷ apps) h =
    ap (λ (r : Result ApplicationCapacityUsage). r >>= λ next. add_usages next apps)
      (add_usage-exact u a (omega (arith, h), omega (arith, h), omega (arith, h), omega (arith, h)))
    ∙ add_usages-exact (plus u a) apps
        (omega (arith, h), omega (arith, h), omega (arith, h), omega (arith, h))
    ∙ ap returned (sums_step u a apps)

-- Where the sums are safe integers, the usage is computed without an error and without rounding: it
-- is the sum of the reservations, the safety reserve counted once and only in the memory, and each
-- application counted as one service.
pub usage_exact :
    (apps : List CapacityReservation) (reserve : ℕ)
    → reserve + total (λ a. a.memory_reservation_mb) apps ≤ max_safe_integer
    → total (λ a. a.cpu_reservation_millis) apps ≤ max_safe_integer
    → total (λ a. a.storage_reservation_gb) apps ≤ max_safe_integer
    → length apps ≤ max_safe_integer
    → application_capacity_usage apps reserve
      ≡ returned (record {
        memory_mb = reserve + total (λ a. a.memory_reservation_mb) apps;
        cpu_millis = total (λ a. a.cpu_reservation_millis) apps;
        storage_gb = total (λ a. a.storage_reservation_gb) apps;
        services = length apps;
      })
unfolding application_capacity_usage safe_non_negative_integer
usage_exact apps reserve memory cpu storage services =
    let small : reserve ≤ max_safe_integer = omega (arith, memory) in
    rw (le→leb reserve max_safe_integer small) (
      add_usages-exact (from_reserve reserve) apps
        (memory, omega (arith, cpu), omega (arith, storage), omega (arith, services))
      ∙ ap returned (
          same_usage (sums (from_reserve reserve) apps) _ refl (omega arith) (omega arith)
            (omega arith)))
