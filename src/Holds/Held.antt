-- ===== src/Holds/Held.antt =====
-- What the active holds take of a worker, as a sum over the items and as the two loops add it up.
use managed_oss_cloud.Common.{
  ℕ, ◌+◌, ◌≤◌, String, true, false, List, [], ◌∷◌, some, ◌≡◌, refl, ap, ◌∙◌, arith, total, str_eq,
  eq_iff, if◌then◌else◌, Bool-cases, ◌⊎◌, inl, inr,
}
use managed_oss_cloud.Common.Dict.{Dict, get, get-set, values}
use managed_oss_cloud.Types.{WorkerNode}
use managed_oss_cloud.Capacity.{CapacityReservation}
use managed_oss_cloud.Placement.{CheckoutCapacityReservation}
use managed_oss_cloud.Placement.Resources.{Kind, memory, cpu, storage}
use managed_oss_cloud.Store.{Store, is_active}
use managed_oss_cloud.Store.Records.{CheckoutCapacityHold, CheckoutCapacityHoldItem}
use managed_oss_cloud.Holds.{
  hold_item, hold_items, held_by, or_nothing, add_reservation, item_worker, expire_hold,
}

abbrev pub asked : Kind → CheckoutCapacityReservation → ℕ
asked memory r = r.memory_reservation_mb
asked cpu r = r.cpu_reservation_millis
asked storage r = r.storage_reservation_gb

abbrev used : Kind → CapacityReservation → ℕ
used memory r = r.memory_reservation_mb
used cpu r = r.cpu_reservation_millis
used storage r = r.storage_reservation_gb

-- What a worker keeps for its system and has given to running applications.
abbrev pub committed : Kind → WorkerNode → ℕ
committed memory n = n.system_reserve_memory_mb + n.reserved_memory_mb
committed cpu n = n.reserved_cpu_millis
committed storage n = n.reserved_storage_gb

abbrev pub capacity : Kind → WorkerNode → ℕ
capacity memory n = n.capacity_memory_mb
capacity cpu n = n.capacity_cpu_millis
capacity storage n = n.capacity_storage_gb

abbrev pub item_asks : Kind → String → CheckoutCapacityHoldItem → ℕ
item_asks k w item = if str_eq (item_worker item) w then asked k item.reservation else 0

abbrev pub hold_asks : Kind → String → CheckoutCapacityHold → ℕ
hold_asks k w hold = if is_active hold.state then total (item_asks k w) hold.items else 0

-- What the active holds take of the worker named `w`.
abbrev pub held : Kind → String → Store → ℕ
held k w s = total (hold_asks k w) (values s.checkout_capacity_holds)

abbrev pub used_of : Kind → String → Dict CapacityReservation → ℕ
used_of k w m = used k (or_nothing (get m w))

used-add_reservation :
    (k : Kind) (u : CapacityReservation) (item : CheckoutCapacityHoldItem)
    → used k (add_reservation u item) ≡ used k u + asked k item.reservation
used-add_reservation memory u item = refl
used-add_reservation cpu u item = refl
used-add_reservation storage u item = refl

used-hold_item :
    (k : Kind) (w : String) (m : Dict CapacityReservation) (item : CheckoutCapacityHoldItem)
    → used_of k w (hold_item m item) ≡ used_of k w m + item_asks k w item
unfolding hold_item
used-hold_item k w m item =
    ap (λ o. used k (or_nothing o))
      (get-set m (item_worker item) w
        (add_reservation (or_nothing (get m (item_worker item))) item))
    ∙ by_worker (Bool-cases (str_eq (item_worker item) w))
  where
    by_worker :
        (str_eq (item_worker item) w ≡ true) ⊎ (str_eq (item_worker item) w ≡ false)
        → used k (
            or_nothing (
              if str_eq (item_worker item) w
              then some (add_reservation (or_nothing (get m (item_worker item))) item)
              else get m w))
          ≡ used_of k w m + item_asks k w item
    by_worker (inl b) = rw (
      b,
      used-add_reservation k (or_nothing (get m (item_worker item))) item,
      (eq_iff (item_worker item) w).0 b,
    )
    by_worker (inr b) = rw b (omega arith)

used-hold_items :
    (k : Kind) (w : String) (m : Dict CapacityReservation) (items : List CheckoutCapacityHoldItem)
    → used_of k w (hold_items m items) ≡ used_of k w m + total (item_asks k w) items
unfolding hold_items
used-hold_items k w m [] = omega arith
used-hold_items k w m (item ∷ items) =
    omega (arith, used-hold_item k w m item, used-hold_items k w (hold_item m item) items)

pub used-held_by :
    (k : Kind) (w : String) (m : Dict CapacityReservation) (holds : List CheckoutCapacityHold)
    → used_of k w (held_by m holds) ≡ used_of k w m + total (hold_asks k w) holds
unfolding held_by
used-held_by k w m [] = omega arith
used-held_by k w m (hold ∷ holds) = elim (Bool-cases (is_active hold.state)) [
  | inl b ↦ rw b (
      omega
        (arith, used-hold_items k w m hold.items, used-held_by k w (hold_items m hold.items) holds))
  | inr b ↦ rw b (omega (arith, used-held_by k w m holds))
]

pub hold_asks-expire_hold :
    (k : Kind) (w : String) (now : ℕ) (hold : CheckoutCapacityHold)
    → hold_asks k w (expire_hold now hold) ≤ hold_asks k w hold
hold_asks-expire_hold k w now hold = ground arith

pub expire_hold-twice :
    (k : Kind) (w : String) (now : ℕ) (hold : CheckoutCapacityHold)
    → hold_asks k w (expire_hold now (expire_hold now hold)) ≡ hold_asks k w (expire_hold now hold)
expire_hold-twice k w now hold = ground arith
