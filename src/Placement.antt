-- ===== src/Placement.antt =====
-- `allocateCapacity` of server/repository.ts: best-fit placement of reservations on the worker
-- nodes, over bins that hold each worker's remaining memory, processor and storage. The order that
-- `localeCompare` gives texts is a parameter.
pub mod Bins
pub mod Resources
pub mod Safety
mod Tests
use managed_oss_cloud.Common.{
  ℕ, zero, suc, ◌+◌, String, Bool, ◌&&◌, ◌||◌, List, [], ◌∷◌, map, Option, none, some, ltb, ◌==◌,
  keep, if◌then◌else◌,
}
use managed_oss_cloud.Common.Int.{ℤ, pos, sub_ℕ, ◌-ℤ◌, leb_ℤ, ltb_ℤ}
use managed_oss_cloud.Common.Dict.{Dict, set}
use managed_oss_cloud.Common.Sort.{sort}
use managed_oss_cloud.Types.{WorkerNode}

pub record CheckoutCapacityReservation : Type 0 where
  pub application_instance_id : String
  pub app_id : String
  pub memory_reservation_mb : ℕ
  pub cpu_reservation_millis : ℕ
  pub storage_reservation_gb : ℕ

pub record Bin : Type 0 where
  pub worker_id : String
  pub memory : ℤ
  pub cpu : ℤ
  pub storage : ℤ

-- A worker may be overcommitted, so the differences are signed.
unfoldable pub bin_of : WorkerNode → Bin
bin_of worker = record {
  worker_id = worker.id;
  memory =
      sub_ℕ worker.capacity_memory_mb (worker.system_reserve_memory_mb + worker.reserved_memory_mb);
  cpu = sub_ℕ worker.capacity_cpu_millis worker.reserved_cpu_millis;
  storage = sub_ℕ worker.capacity_storage_gb worker.reserved_storage_gb;
}

abbrev pub fits : CheckoutCapacityReservation → Bin → Bool
fits r bin =
    leb_ℤ (pos r.memory_reservation_mb) bin.memory
    && leb_ℤ (pos r.cpu_reservation_millis) bin.cpu
    && leb_ℤ (pos r.storage_reservation_gb) bin.storage

abbrev pub charge : CheckoutCapacityReservation → Bin → Bin
charge r bin = record bin {
  memory = bin.memory -ℤ pos r.memory_reservation_mb;
  cpu = bin.cpu -ℤ pos r.cpu_reservation_millis;
  storage = bin.storage -ℤ pos r.storage_reservation_gb;
}

-- `bins.map((bin, index) => ({ bin, index }))`
pub indexed : ℕ → List Bin → List (ℕ × Bin)
indexed i [] = []
indexed i (bin ∷ bins) = (i, bin) ∷ indexed (suc i) bins

-- less memory left over
abbrev pub tighter : CheckoutCapacityReservation → ℕ × Bin → ℕ × Bin → Bool
tighter r a b =
    ltb_ℤ (a.1.memory -ℤ pos r.memory_reservation_mb) (b.1.memory -ℤ pos r.memory_reservation_mb)

pub candidates : CheckoutCapacityReservation → List Bin → List (ℕ × Bin)
candidates r bins = sort (tighter r) (keep (λ c. fits r c.1) (indexed 0 bins))

pub charge_at : CheckoutCapacityReservation → List Bin → ℕ → List Bin
charge_at r [] i = []
charge_at r (bin ∷ bins) zero = charge r bin ∷ bins
charge_at r (bin ∷ bins) (suc i) = bin ∷ charge_at r bins i

-- One round of the loop: the bins after it and the worker chosen; `none` if no bin fits.
pub place_in : CheckoutCapacityReservation → List Bin → List (ℕ × Bin) → Option (List Bin × String)
place_in r bins [] = none
place_in r bins ((i, bin) ∷ rest) = some (charge_at r bins i, bin.worker_id)

pub place : CheckoutCapacityReservation → List Bin → Option (List Bin × String)
place r bins = place_in r bins (candidates r bins)

pub allocate_each : List Bin → Dict String → List CheckoutCapacityReservation → Option (Dict String)
allocate_each bins allocated [] = some allocated
allocate_each bins allocated (r ∷ rs) = elim (place r bins) [
  | none ↦ none
  | some (bins', worker) ↦ allocate_each bins' (set allocated r.application_instance_id worker) rs
]

module _ (locale_before : String → String → Bool) where
  -- the comparator: larger reservations first, then by application
  abbrev pub larger : CheckoutCapacityReservation → CheckoutCapacityReservation → Bool
  larger l r =
      ltb r.memory_reservation_mb l.memory_reservation_mb
      || (r.memory_reservation_mb == l.memory_reservation_mb
          && (ltb r.cpu_reservation_millis l.cpu_reservation_millis
              || (r.cpu_reservation_millis == l.cpu_reservation_millis
                  && (ltb r.storage_reservation_gb l.storage_reservation_gb
                      || (r.storage_reservation_gb == l.storage_reservation_gb
                          && locale_before l.application_instance_id r.application_instance_id)))))

  -- `false` is `none`.
  unfoldable pub allocate_capacity :
      List WorkerNode → List CheckoutCapacityReservation → Option (Dict String)
  unfolding allocate_each place place_in candidates indexed charge_at
  allocate_capacity [] reservations = none
  allocate_capacity (worker ∷ workers) [] = some []
  allocate_capacity (worker ∷ workers) (r ∷ rs) =
      allocate_each (map bin_of (worker ∷ workers)) [] (sort larger (r ∷ rs))
