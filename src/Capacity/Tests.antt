-- ===== src/Capacity/Tests.antt =====
-- The starter plan and two applications.
use managed_oss_cloud.Common.{
  ℕ, ◌+◌, ◌≤◌, ◌≡◌, refl, ◌↔◌, true, some, List, [], ◌∷◌, arith, total, length, all,
}
use managed_oss_cloud.Common.Number.{fractions, add_number}
use managed_oss_cloud.Common.Result.{returned}
use managed_oss_cloud.Types.{ComputePlan}
use managed_oss_cloud.Capacity.{
  PlanCapacitySnapshot, ApplicationCapacityUsage, CapacityReservation, memory_dimension,
  plan_capacity_snapshot, application_capacity_usage, capacity_envelope_fit, CapacityVector,
  positive_capacity_delta, max_safe_integer,
}
use managed_oss_cloud.Capacity.Fit.{is_safe, usage_returns, usage_exact, fits_iff, Within}

-- half a processor
abbrev starter : ComputePlan (ℕ × ℕ)
starter = record {
  id = "starter";
  label = "Starter";
  memory_mb = (1536, 1);
  cpu = (1, 2);
  storage_gb = 10;
  max_services = 2;
  infrastructure_monthly_cents = 500;
  monthly_cents = 700;
}

abbrev starter_snapshot : PlanCapacitySnapshot
starter_snapshot = record {
  plan_id = "starter";
  memory_mb = 1536;
  cpu_millis = 500;
  storage_gb = 10;
  max_services = 2;
}

starter_runs : plan_capacity_snapshot fractions starter ≡ returned starter_snapshot
unfolding plan_capacity_snapshot
starter_runs = refl

abbrev apps : List CapacityReservation
apps =
    record { memory_reservation_mb = 416; cpu_reservation_millis = 250; storage_reservation_gb = 3 }
    ∷ record {
      memory_reservation_mb = 800;
      cpu_reservation_millis = 250;
      storage_reservation_gb = 7;
    }
    ∷ []

abbrev usage : ApplicationCapacityUsage
usage = record { memory_mb = 1728; cpu_millis = 500; storage_gb = 10; services = 2 }

usage_runs : application_capacity_usage apps 512 ≡ returned usage
unfolding application_capacity_usage add_number
usage_runs = refl

too_much_memory : (capacity_envelope_fit usage starter_snapshot).exceeded ≡ memory_dimension ∷ []
unfolding capacity_envelope_fit
too_much_memory = refl

usage_exact_example :
    application_capacity_usage apps 512
    ≡ returned (record {
      memory_mb = 512 + total (λ (a : CapacityReservation). a.memory_reservation_mb) apps;
      cpu_millis = total (λ (a : CapacityReservation). a.cpu_reservation_millis) apps;
      storage_gb = total (λ (a : CapacityReservation). a.storage_reservation_gb) apps;
      services = length apps;
    })
usage_exact_example = usage_exact apps 512 (omega arith) (omega arith) (omega arith) (omega arith)

fits_iff_example :
    ((capacity_envelope_fit usage starter_snapshot).fits ≡ true) ↔ Within usage starter_snapshot
fits_iff_example = fits_iff usage starter_snapshot

usage_returns_example :
    ((u : ApplicationCapacityUsage) × (application_capacity_usage apps 512 ≡ returned u))
    ↔ ((512 ≤ max_safe_integer) × (all is_safe apps ≡ true))
usage_returns_example = usage_returns apps 512

abbrev small : CapacityVector
small = record { memory_mb = 512; cpu_millis = 500; storage_gb = 10 }

abbrev large : CapacityVector
large = record { memory_mb = 1024; cpu_millis = 250; storage_gb = 10 }

-- Less processor is not a negative growth.
growth :
    positive_capacity_delta (some small) large
    ≡ record { memory_mb = 512; cpu_millis = 0; storage_gb = 0 }
unfolding positive_capacity_delta
growth = refl

-- A sum of safe integers beyond 2 ^ 53 is rounded.
rounded :
    application_capacity_usage
      (record { memory_reservation_mb = 4; cpu_reservation_millis = 0; storage_reservation_gb = 0 }
        ∷ [])
      9007199254740991
    ≡ returned
        (record { memory_mb = 9007199254740996; cpu_millis = 0; storage_gb = 0; services = 1 })
unfolding application_capacity_usage add_number
rounded = refl
