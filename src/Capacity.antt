-- ===== src/Capacity.antt =====
-- shared/plan-capacity.ts: what a plan grants, what applications use, and whether it fits.
pub mod Fit
mod Tests
use Prim.Native.String
use managed_oss_cloud.Common.{
  ℕ, ◌+◌, ◌-◌, ◌*◌, max, String, Bool, true, false, not, List, [], ◌∷◌, Option, none, some, leb,
  has_ink, keep, if◌then◌else◌,
}
use managed_oss_cloud.Common.Int.{ℤ, pos, sub_ℕ, ltb_ℤ, at_least_zero}
use managed_oss_cloud.Common.Number.{NumberOps, add_number}
use managed_oss_cloud.Common.Result.{Result, returned, thrown, throw_if, ◌>>=◌, ◌>>◌}
use managed_oss_cloud.Types.{ComputePlan}

pub record CapacityVector : Type 0 where
  pub memory_mb : ℕ
  pub cpu_millis : ℕ
  pub storage_gb : ℕ

pub record PlanCapacitySnapshot : Type 0 where
  pub plan_id : String
  pub memory_mb : ℕ
  pub cpu_millis : ℕ
  pub storage_gb : ℕ
  pub max_services : ℕ

pub record ApplicationCapacityUsage : Type 0 where
  pub memory_mb : ℕ
  pub cpu_millis : ℕ
  pub storage_gb : ℕ
  pub services : ℕ

-- The memory, processor and storage that an application instance reserves.
pub record CapacityReservation : Type 0 where
  pub memory_reservation_mb : ℕ
  pub cpu_reservation_millis : ℕ
  pub storage_reservation_gb : ℕ

pub data Dimension : Type 0 where
  memory_dimension cpu_dimension storage_dimension services_dimension : Dimension

pub record Remaining : Type 0 where
  pub memory_mb : ℤ
  pub cpu_millis : ℤ
  pub storage_gb : ℤ
  pub services : ℤ

pub record CapacityEnvelopeFit : Type 0 where
  pub fits : Bool
  pub remaining : Remaining
  pub exceeded : List Dimension

abbrev pub max_safe_integer : ℕ
max_safe_integer = 9007199254740991

-- `safeNonNegativeInteger` of a whole number, which is unsafe only above 2^53 - 1.
unfoldable pub safe_non_negative_integer : String → ℕ → Result ℕ
safe_non_negative_integer name value =
    if leb value max_safe_integer
    then returned value
    else thrown (String.◌++◌ name " must be a non-negative integer.")

module _ (ops : NumberOps) where
  open ops use {Num, of_ℕ, mul, safe_integer}

  safe_number : String → Num → Result ℕ
  safe_number name value = elim (safe_integer value) [
    | some n ↦ returned n
    | none ↦ thrown (String.◌++◌ name " must be a non-negative integer.")
  ]

  unfoldable pub plan_capacity_snapshot : ComputePlan Num → Result PlanCapacitySnapshot
  unfolding safe_number safe_non_negative_integer
  plan_capacity_snapshot plan = do
    throw_if (not (has_ink plan.id)) "Plan capacity requires a stable plan ID."
    memory ← safe_number "Plan memory" plan.memory_mb
    cpu ← safe_number "Plan CPU" (mul plan.cpu (of_ℕ 1000))
    storage ← safe_non_negative_integer "Plan storage" plan.storage_gb
    services ← safe_non_negative_integer "Plan service limit" plan.max_services
    returned (record {
      plan_id = plan.id;
      memory_mb = memory;
      cpu_millis = cpu;
      storage_gb = storage;
      max_services = services;
    })

abbrev or_zero : Option CapacityVector → CapacityVector
or_zero none = record { memory_mb = 0; cpu_millis = 0; storage_gb = 0 }
or_zero (some current) = current

unfoldable pub positive_capacity_delta : Option CapacityVector → CapacityVector → CapacityVector
positive_capacity_delta current target = record {
  memory_mb = at_least_zero (sub_ℕ target.memory_mb (or_zero current).memory_mb);
  cpu_millis = at_least_zero (sub_ℕ target.cpu_millis (or_zero current).cpu_millis);
  storage_gb = at_least_zero (sub_ℕ target.storage_gb (or_zero current).storage_gb);
}

-- the callback of the `reduce`
add_usage : ApplicationCapacityUsage → CapacityReservation → Result ApplicationCapacityUsage
add_usage usage application = do
  memory ←
      safe_non_negative_integer "Application memory reservation" application.memory_reservation_mb
  cpu ← safe_non_negative_integer "Application CPU reservation" application.cpu_reservation_millis
  storage ←
      safe_non_negative_integer "Application storage reservation" application.storage_reservation_gb
  returned (record {
    memory_mb = add_number usage.memory_mb memory;
    cpu_millis = add_number usage.cpu_millis cpu;
    storage_gb = add_number usage.storage_gb storage;
    services = add_number usage.services 1;
  })

add_usages : ApplicationCapacityUsage → List CapacityReservation → Result ApplicationCapacityUsage
add_usages usage [] = returned usage
add_usages usage (application ∷ rest) = add_usage usage application >>= λ next. add_usages next rest

unfoldable pub application_capacity_usage :
    List CapacityReservation → ℕ → Result ApplicationCapacityUsage
unfolding add_usages add_usage safe_non_negative_integer
application_capacity_usage applications memory_safety_reserve_mb = do
  reserve ← safe_non_negative_integer "Application memory safety reserve" memory_safety_reserve_mb
  add_usages
      (record {
        memory_mb = memory_safety_reserve_mb;
        cpu_millis = 0;
        storage_gb = 0;
        services = 0;
      })
      applications

abbrev remaining_of : Remaining → Dimension → ℤ
remaining_of r memory_dimension = r.memory_mb
remaining_of r cpu_dimension = r.cpu_millis
remaining_of r storage_dimension = r.storage_gb
remaining_of r services_dimension = r.services

abbrev no_dimensions : List Dimension → Bool
no_dimensions [] = true
no_dimensions (d ∷ ds) = false

unfoldable pub capacity_envelope_fit :
    ApplicationCapacityUsage → PlanCapacitySnapshot → CapacityEnvelopeFit
capacity_envelope_fit usage allocation =
    let remaining : Remaining = record {
      memory_mb = sub_ℕ allocation.memory_mb usage.memory_mb;
      cpu_millis = sub_ℕ allocation.cpu_millis usage.cpu_millis;
      storage_gb = sub_ℕ allocation.storage_gb usage.storage_gb;
      services = sub_ℕ allocation.max_services usage.services;
    } in
    let exceeded =
      keep (λ d. ltb_ℤ (remaining_of remaining d) (pos 0))
        (memory_dimension ∷ cpu_dimension ∷ storage_dimension ∷ services_dimension ∷ []) in
    record { fits = no_dimensions exceeded; remaining = remaining; exceeded = exceeded }
