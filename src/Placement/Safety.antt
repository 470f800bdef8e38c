-- ===== src/Placement/Safety.antt =====
-- What an allocation promises: every reservation gets a worker, and no worker is given more than it
-- has left.
use mathlib.Core.List.{map}
use managed_oss_cloud.Common.{
  ℕ, ◌+◌, ◌≤◌, ◌≡◌, refl, sym, ap, ◌∙◌, String, Bool, true, false, List, [], ◌∷◌, Option, none,
  some, arith, some_inj, str_eq, str_eq_flip, any, eq_refl, total, All, if◌then◌else◌, Bool-cases,
  Option-cases, inl, inr,
}
use managed_oss_cloud.Common.Int.{pos_part}
use managed_oss_cloud.Common.Dict.{Dict, get, set, get-set}
use managed_oss_cloud.Common.Sort.{sort, insert_sorted}
use managed_oss_cloud.Common.Sorted.{All-sort, All-of_sort, total-sort, All-insert_sorted}
use managed_oss_cloud.Types.{WorkerNode}
use managed_oss_cloud.Placement.{
  CheckoutCapacityReservation, Bin, bin_of, place, allocate_each, larger, allocate_capacity,
}
use managed_oss_cloud.Placement.Resources.{Kind, resource}
use managed_oss_cloud.Placement.Bins.{Resource, room, share, place-room, has_bin, place-has_bin}

-- No reservation of the list is for this application.
abbrev pub Fresh : String → List CheckoutCapacityReservation → Type 0
Fresh id = All (λ r. str_eq r.application_instance_id id ≡ false)

-- Each application is reserved for once.
abbrev pub Distinct : List CheckoutCapacityReservation → Type 0
Distinct [] = Unit
Distinct (r ∷ rs) = Fresh r.application_instance_id rs × Distinct rs

abbrev pub owned_by : Option String → String → Bool
owned_by none w = false
owned_by (some v) w = str_eq v w

abbrev pub assigned_to : Dict String → String → String → Bool
assigned_to m id w = owned_by (get m id) w

-- What the reservations that an assignment gives to worker `w` ask of a resource, all together.
abbrev pub demand : Resource → String → Dict String → List CheckoutCapacityReservation → ℕ
demand res w m rs =
    total
      (λ (r : CheckoutCapacityReservation).
        if assigned_to m r.application_instance_id w then res.asked r else 0)
      rs

allocate_each-get :
    (bins : List Bin) (acc m : Dict String) (rs : List CheckoutCapacityReservation) (id : String)
    → Fresh id rs
    → allocate_each bins acc rs ≡ some m
    → get m id ≡ get acc id
unfolding allocate_each
allocate_each-get bins acc m [] id f h = let e : acc ≡ m = some_inj h in rw (← e)
allocate_each-get bins acc m (r ∷ rs) id f h = elim (Option-cases (place r bins)) [
  | inl e ↦ cc (rw (e, allocate_each) at h)
  | inr ((bins', v), e) ↦
      allocate_each-get bins' (set acc r.application_instance_id v) m rs id f.1
        (rw (e, allocate_each) at h)
      ∙ get-set acc r.application_instance_id id v
      ∙ rw f.0
]

-- The application that was just placed keeps its worker to the end.
placed-get :
    (bins : List Bin) (acc m : Dict String) (r : CheckoutCapacityReservation)
    (rs : List CheckoutCapacityReservation) (v : String)
    → Fresh r.application_instance_id rs
    → allocate_each bins (set acc r.application_instance_id v) rs ≡ some m
    → get m r.application_instance_id ≡ some v
placed-get bins acc m r rs v f h =
    allocate_each-get bins (set acc r.application_instance_id v) m rs r.application_instance_id f h
    ∙ get-set acc r.application_instance_id r.application_instance_id v
    ∙ rw (eq_refl r.application_instance_id)

demand-cons :
    (res : Resource) (w v : String) (m : Dict String) (r : CheckoutCapacityReservation)
    (rs : List CheckoutCapacityReservation)
    → get m r.application_instance_id ≡ some v
    → demand res w m (r ∷ rs) ≡ share res w v r + demand res w m rs
demand-cons res w v m r rs e =
    ap (λ o. (if owned_by o w then res.asked r else 0) + demand res w m rs) e

demand-le-room :
    (res : Resource) (w : String) (bins : List Bin) (acc m : Dict String)
    (rs : List CheckoutCapacityReservation)
    → Distinct rs
    → allocate_each bins acc rs ≡ some m
    → demand res w m rs ≤ room res w bins
unfolding allocate_each
demand-le-room res w bins acc m [] d h = omega arith
demand-le-room res w bins acc m (r ∷ rs) d h = elim (Option-cases (place r bins)) [
  | inl e ↦ cc (rw (e, allocate_each) at h)
  | inr ((bins', v), e) ↦
      let rest : allocate_each bins' (set acc r.application_instance_id v) rs ≡ some m =
        rw (e, allocate_each) at h in
      omega (
        arith,
        demand-cons res w v m r rs (placed-get bins' acc m r rs v d.0 rest),
        place-room res w v r bins bins' e,
        demand-le-room res w bins' (set acc r.application_instance_id v) m rs d.1 rest,
      )
]

-- The assignment names a worker of the list for the reservation.
abbrev pub IsAssigned : (String → Bool) → Dict String → CheckoutCapacityReservation → Type 0
IsAssigned known m r = (v : String) × (get m r.application_instance_id ≡ some v) × (known v ≡ true)

All-IsAssigned :
    (known : String → Bool) (bins : List Bin) (acc m : Dict String)
    (rs : List CheckoutCapacityReservation)
    → ((w : String) → has_bin w bins ≡ known w)
    → Distinct rs
    → allocate_each bins acc rs ≡ some m
    → All (IsAssigned known m) rs
unfolding allocate_each
All-IsAssigned known bins acc m [] k d h = tt
All-IsAssigned known bins acc m (r ∷ rs) k d h = elim (Option-cases (place r bins)) [
  | inl e ↦ cc (rw (e, allocate_each) at h)
  | inr ((bins', v), e) ↦
      let rest : allocate_each bins' (set acc r.application_instance_id v) rs ≡ some m =
        rw (e, allocate_each) at h in
      let (hit, same) = place-has_bin r bins bins' v e in
      (
        (v, placed-get bins' acc m r rs v d.0 rest, sym (k v) ∙ hit),
        All-IsAssigned known bins' (set acc r.application_instance_id v) m rs (λ w. same w ∙ k w)
            d.1 rest,
      )
]

insert_sorted-Distinct :
    (before : CheckoutCapacityReservation → CheckoutCapacityReservation → Bool)
    (r : CheckoutCapacityReservation) (rs : List CheckoutCapacityReservation)
    → Fresh r.application_instance_id rs
    → Distinct rs
    → Distinct (insert_sorted before r rs)
unfolding insert_sorted
insert_sorted-Distinct before r [] f d = (tt, tt)
insert_sorted-Distinct before r (s ∷ rs) f d = elim (Bool-cases (before s r)) [
  | inl b ↦ rw b (
    All-insert_sorted (λ x. str_eq x.application_instance_id s.application_instance_id ≡ false)
        before r rs (str_eq_flip _ _ f.0) d.0,
    insert_sorted-Distinct before r rs f.1 d.1,
  )
  | inr b ↦ rw b (f, d)
]

pub sort-Distinct :
    (before : CheckoutCapacityReservation → CheckoutCapacityReservation → Bool)
    (rs : List CheckoutCapacityReservation)
    → Distinct rs
    → Distinct (sort before rs)
unfolding sort
sort-Distinct before [] d = tt
sort-Distinct before (r ∷ rs) d =
    insert_sorted-Distinct before r (sort before rs)
      (All-sort (λ x. str_eq x.application_instance_id r.application_instance_id ≡ false) before rs
        d.0)
      (sort-Distinct before rs d.1)

-- What the workers named `w` can still take of a resource.
abbrev pub spare : Resource → String → List WorkerNode → ℕ
spare res w workers =
    total (λ (n : WorkerNode). if str_eq n.id w then pos_part (res.left (bin_of n)) else 0) workers

room-spare :
    (res : Resource) (w : String) (workers : List WorkerNode)
    → room res w (map bin_of workers) ≡ spare res w workers
unfolding bin_of
room-spare res w [] = refl
room-spare res w (n ∷ workers) = omega (arith, room-spare res w workers)

abbrev pub has_worker : List WorkerNode → String → Bool
has_worker workers w = any (λ (n : WorkerNode). str_eq n.id w) workers

has_bin-worker :
    (w : String) (workers : List WorkerNode) → has_bin w (map bin_of workers) ≡ has_worker workers w
unfolding bin_of
has_bin-worker w [] = refl
has_bin-worker w (n ∷ workers) = rw (has_bin-worker w workers)

-- Whenever an allocation of distinct applications succeeds, every reservation is assigned to one of
-- the given workers, and for each of the three resources and every worker the reservations that it
-- is assigned ask together for at most what it has left of its capacity.
pub allocate_capacity-IsSafe :
    (locale_before : String → String → Bool) (workers : List WorkerNode)
    (rs : List CheckoutCapacityReservation) (m : Dict String)
    → Distinct rs
    → allocate_capacity locale_before workers rs ≡ some m
    → All (IsAssigned (has_worker workers) m) rs
      × ((k : Kind) (w : String) → demand (resource k) w m rs ≤ spare (resource k) w workers)
unfolding allocate_capacity
allocate_capacity-IsSafe locale_before [] rs m d h = cc
allocate_capacity-IsSafe locale_before (n ∷ workers) [] m d h = (tt, λ k w. omega arith)
allocate_capacity-IsSafe locale_before (n ∷ workers) (r ∷ rs) m d h =
    let bins = map bin_of (n ∷ workers) in
    let before = larger locale_before in
    let sorted = sort-Distinct before (r ∷ rs) d in
    (
      All-of_sort (IsAssigned (has_worker (n ∷ workers)) m) before (r ∷ rs) (
          All-IsAssigned (has_worker (n ∷ workers)) bins [] m _
            (λ w. has_bin-worker w (n ∷ workers)) sorted h),
      λ k w.
          let res = resource k in
          omega (
            arith,
            demand-le-room res w bins [] m (sort before (r ∷ rs)) sorted h,
            room-spare res w (n ∷ workers),
            total-sort before
                (λ (r : CheckoutCapacityReservation).
                  if assigned_to m r.application_instance_id w then res.asked r else 0)
                (r ∷ rs),
          ),
    )
