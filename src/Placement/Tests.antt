-- ===== src/Placement/Tests.antt =====
-- Placements on two small workers.
use managed_oss_cloud.Common.{
  ℕ, ◌≤◌, ◌≡◌, refl, String, Bool, List, [], ◌∷◌, none, some, false, All,
}
use managed_oss_cloud.Common.Dict
use managed_oss_cloud.Common.Int.{◌-ℤ◌}
use managed_oss_cloud.Common.Sort.{sort}
use managed_oss_cloud.Types.{WorkerNode, ready}
use managed_oss_cloud.Placement.{CheckoutCapacityReservation, bin_of, allocate_capacity}
use managed_oss_cloud.Placement.Resources.{Kind, resource}
use managed_oss_cloud.Placement.Safety.{
  IsAssigned, has_worker, demand, spare, allocate_capacity-IsSafe,
}

abbrev worker : String → ℕ → WorkerNode
worker id memory = record {
  id = id;
  name = id;
  status = ready;
  private_address = "10.0.0.4";
  machine_type = "e2-standard-4";
  capacity_memory_mb = memory;
  capacity_cpu_millis = 4000;
  capacity_storage_gb = 100;
  system_reserve_memory_mb = 512;
  reserved_memory_mb = 0;
  reserved_cpu_millis = 0;
  reserved_storage_gb = 0;
  last_heartbeat_at = 0;
  created_at = 0;
  updated_at = 0;
}

abbrev reservation : String → ℕ → CheckoutCapacityReservation
reservation id memory = record {
  application_instance_id = id;
  app_id = "umami";
  memory_reservation_mb = memory;
  cpu_reservation_millis = 750;
  storage_reservation_gb = 10;
}

abbrev workers : List WorkerNode
workers = worker "big" 8192 ∷ worker "small" 2048 ∷ []

abbrev reservations : List CheckoutCapacityReservation
reservations = reservation "a" 1344 ∷ reservation "b" 3104 ∷ []

abbrev by_nothing : String → String → Bool
by_nothing a b = false

-- The larger goes first, to the only worker that holds it; the other to the tighter worker.
best_fit :
    allocate_capacity by_nothing workers reservations ≡ some (("b", "big") ∷ ("a", "small") ∷ [])
unfolding allocate_capacity bin_of sort ◌-ℤ◌ Dict.set
best_fit = refl

too_large : allocate_capacity by_nothing workers (reservation "c" 9000 ∷ []) ≡ none
unfolding allocate_capacity bin_of sort ◌-ℤ◌ Dict.set
too_large = refl

allocate_capacity-IsSafe_example :
    All (IsAssigned (has_worker workers) (("b", "big") ∷ ("a", "small") ∷ [])) reservations
    × ((k : Kind) (w : String)
        → demand (resource k) w (("b", "big") ∷ ("a", "small") ∷ []) reservations
          ≤ spare (resource k) w workers)
allocate_capacity-IsSafe_example =
    allocate_capacity-IsSafe by_nothing workers reservations (("b", "big") ∷ ("a", "small") ∷ [])
      ((refl, tt), (tt, tt)) best_fit
