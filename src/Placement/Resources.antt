-- ===== src/Placement/Resources.antt =====
-- Memory, processor and storage as the resources that a placement takes from a bin.
use managed_oss_cloud.Common.{ℕ, ◌+◌, ◌≡◌, true, arith}
use managed_oss_cloud.Common.Int.{ℤ, pos, pos_part, ◌-ℤ◌, leb_ℤ}
use managed_oss_cloud.Placement.{CheckoutCapacityReservation, Bin, fits, charge}
use managed_oss_cloud.Placement.Bins.{Resource}

-- Taking no more than there is leaves the rest.
taken :
    (n : ℕ) (left : ℤ) → leb_ℤ (pos n) left ≡ true → pos_part left ≡ n + pos_part (left -ℤ pos n)
unfolding ◌-ℤ◌
taken n left h = ground arith

pub memory_left :
    (r : CheckoutCapacityReservation) (b : Bin)
    → fits r b ≡ true
    → pos_part b.memory ≡ r.memory_reservation_mb + pos_part (charge r b).memory
memory_left r b h = taken r.memory_reservation_mb b.memory (ground arith)

pub cpu_left :
    (r : CheckoutCapacityReservation) (b : Bin)
    → fits r b ≡ true
    → pos_part b.cpu ≡ r.cpu_reservation_millis + pos_part (charge r b).cpu
cpu_left r b h = taken r.cpu_reservation_millis b.cpu (ground arith)

pub storage_left :
    (r : CheckoutCapacityReservation) (b : Bin)
    → fits r b ≡ true
    → pos_part b.storage ≡ r.storage_reservation_gb + pos_part (charge r b).storage
storage_left r b h = taken r.storage_reservation_gb b.storage (ground arith)

abbrev pub memory_resource : Resource
memory_resource = record {
  asked = λ r. r.memory_reservation_mb;
  left = λ b. b.memory;
  fits_left = memory_left;
}

abbrev pub cpu_resource : Resource
cpu_resource = record {
  asked = λ r. r.cpu_reservation_millis;
  left = λ b. b.cpu;
  fits_left = cpu_left;
}

abbrev pub storage_resource : Resource
storage_resource = record {
  asked = λ r. r.storage_reservation_gb;
  left = λ b. b.storage;
  fits_left = storage_left;
}

pub data Kind : Type 0 where
  memory cpu storage : Kind

abbrev pub resource : Kind → Resource
resource memory = memory_resource
resource cpu = cpu_resource
resource storage = storage_resource
