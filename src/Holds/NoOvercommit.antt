-- ===== src/Holds/NoOvercommit.antt =====
-- A checkout hold is granted only where the workers have room for it.
use mathlib.Core.List.{Memᴰ}
use mathlib.Core.Path.{subst}
use managed_oss_cloud.Common.{
  ℕ, suc, ◌+◌, ◌-◌, ◌≤◌, String, Bool, false, List, [], ◌∷◌, ◌≡◌, refl, sym, ap, arith, any, total,
  map, keep, All, str_eq, str_eq_flip, eq_refl, if◌then◌else◌, inl, inr,
}
use managed_oss_cloud.Common.Int.{pos_part}
use managed_oss_cloud.Common.Members.{All-Mem}
use managed_oss_cloud.Common.Dict.{Dict, get, values, update_all, total-set, total-update_all}
use managed_oss_cloud.Common.Number.{NumberOps}
use managed_oss_cloud.Common.Sorted.{total-sort}
use managed_oss_cloud.Types.{WorkerNode}
use managed_oss_cloud.Capacity.{CapacityReservation}
use managed_oss_cloud.Pricing.{PricingPolicy}
use managed_oss_cloud.Placement.{CheckoutCapacityReservation, bin_of}
use managed_oss_cloud.Placement.Bins.{Resource}
use managed_oss_cloud.Placement.Safety.{
  Distinct, Fresh, sort-Distinct, demand, spare, IsAssigned, has_worker, allocate_capacity-IsSafe,
}
use managed_oss_cloud.Store.{Store}
use managed_oss_cloud.Store.Records.{
  CheckoutCapacityHold, StoredWorker, AcquireCheckoutCapacityHoldInput,
}
use managed_oss_cloud.Holds.{
  expire_checkout_capacity_holds, expire_hold, workers_with_active_checkout_holds, with_held,
  held_by, put_hold,
}
use managed_oss_cloud.Holds.Held.{
  asked, committed, capacity, item_asks, hold_asks, held, used_of, used-held_by,
  hold_asks-expire_hold, expire_hold-twice,
}
use managed_oss_cloud.Placement.Resources.{Kind, memory, cpu, storage, resource}
use managed_oss_cloud.Holds.Acquire.{
  acquire_checkout_capacity_hold, has_duplicates, by_application, eligible_workers, is_fresh,
  items_of,
}
use managed_oss_cloud.Holds.Acquire.Granted.{acquire-cases, IsPlaced}

-- The workers have different names.
abbrev pub DistinctWorkers : List StoredWorker → Type 0
DistinctWorkers [] = Unit
DistinctWorkers (x ∷ xs) =
    All (λ (y : StoredWorker). str_eq y.node.id x.node.id ≡ false) xs × DistinctWorkers xs

-- On every worker, what it has given away and what active holds take stay within its capacity.
abbrev pub NoOvercommit : Store → Type 0
NoOvercommit s =
    (worker : StoredWorker) (k : Kind)
    → Memᴰ worker (values s.workers)
    → committed k worker.node + held k worker.node.id s ≤ capacity k worker.node

abbrev named : String → (StoredWorker → ℕ) → StoredWorker → ℕ
named w f x = if str_eq x.node.id w then f x else 0

none-named :
    (w : String) (f : StoredWorker → ℕ) (xs : List StoredWorker)
    → All (λ (y : StoredWorker). str_eq y.node.id w ≡ false) xs
    → total (named w f) xs ≡ 0
none-named w f [] a = refl
none-named w f (x ∷ xs) a = rw a.0 (omega (arith, none-named w f xs a.1))

-- Of distinct workers only the named one counts.
total-named :
    (f : StoredWorker → ℕ) (xs : List StoredWorker) (x : StoredWorker)
    → DistinctWorkers xs
    → Memᴰ x xs
    → total (named x.node.id f) xs ≡ f x
total-named f [] x d m = elim m [ ]
total-named f (y ∷ ys) x d (Memᴰ.head e) =
    subst (λ z. total (named z.node.id f) (y ∷ ys) ≡ f z) (sym e)
      (rw (eq_refl y.node.id) (omega (arith, none-named y.node.id f ys d.0)))
total-named f (y ∷ ys) x d (Memᴰ.tail m) =
    rw
      (str_eq_flip x.node.id y.node.id
        (All-Mem (λ (z : StoredWorker). str_eq z.node.id y.node.id ≡ false) ys x d.0 m))
      (omega (arith, total-named f ys x d.1 m))

-- the room of a worker that also bears what is held on it
left_room :
    (k : Kind) (m : Dict CapacityReservation) (x : StoredWorker)
    → pos_part ((resource k).left (bin_of (with_held m x)))
      ≡ capacity k x.node - (committed k x.node + used_of k x.node.id m)
unfolding bin_of
left_room memory m x = ground arith
left_room cpu m x = ground arith
left_room storage m x = ground arith

total-keep :
    (f : WorkerNode → ℕ) (p : WorkerNode → Bool) (ns : List WorkerNode)
    → total f (keep p ns) ≤ total f ns
total-keep f p [] = omega arith
total-keep f p (n ∷ ns) = ground (arith, total-keep f p ns)

spare-with_held :
    (res : Resource) (w : String) (m : Dict CapacityReservation) (xs : List StoredWorker)
    → spare res w (map (with_held m) xs)
      ≡ total (named w (λ x. pos_part (res.left (bin_of (with_held m x))))) xs
unfolding bin_of
spare-with_held res w m [] = refl
spare-with_held res w m (x ∷ xs) = omega (arith, spare-with_held res w m xs)

used_of-nothing : (k : Kind) (w : String) → used_of k w [] ≡ 0
unfolding get
used_of-nothing memory w = refl
used_of-nothing cpu w = refl
used_of-nothing storage w = refl

total-twice :
    (k : Kind) (w : String) (now : ℕ) (m : Dict CheckoutCapacityHold)
    → total (hold_asks k w) (values (update_all (expire_hold now) (update_all (expire_hold now) m)))
      ≡ total (hold_asks k w) (values (update_all (expire_hold now) m))
unfolding values update_all
total-twice k w now [] = refl
total-twice k w now ((j, h) ∷ m) = omega (arith, expire_hold-twice k w now h, total-twice k w now m)

held-expire :
    (k : Kind) (w : String) (now : ℕ) (s : Store)
    → held k w (expire_checkout_capacity_holds now s) ≤ held k w s
unfolding expire_checkout_capacity_holds
held-expire k w now s =
    total-update_all (hold_asks k w) (expire_hold now) s.checkout_capacity_holds
      (hold_asks-expire_hold k w now)

resource-asked : (k : Kind) (r : CheckoutCapacityReservation) → (resource k).asked r ≡ asked k r
resource-asked memory r = refl
resource-asked cpu r = refl
resource-asked storage r = refl

-- The items of a hold ask of a worker what the reservations assigned to it ask.
items-demand :
    (k : Kind) (w : String) (now : ℕ) (item_id : ℕ → String) (hold_id : String)
    (known : String → Bool) (assigned : Dict String) (i : ℕ) (rs : List CheckoutCapacityReservation)
    → All (IsAssigned known assigned) rs
    → total (item_asks k w) (items_of now item_id hold_id assigned i rs)
      ≡ demand (resource k) w assigned rs
items-demand k w now item_id hold_id known assigned i [] a = refl
items-demand k w now item_id hold_id known assigned i (r ∷ rs) a =
    let (v, e, _) = a.0 in
    rw (e, resource-asked k r)
      (omega (arith, items-demand k w now item_id hold_id known assigned (suc i) rs a.1))

has_duplicates-Distinct :
    (rs : List CheckoutCapacityReservation) → has_duplicates rs ≡ false → Distinct rs
has_duplicates-Distinct [] h = tt
has_duplicates-Distinct (r ∷ rs) h =
    (none_alike rs (ground arith), has_duplicates-Distinct rs (ground arith))
  where
    none_alike :
        (others : List CheckoutCapacityReservation)
        → any
            (λ (other : CheckoutCapacityReservation).
              str_eq other.application_instance_id r.application_instance_id)
            others
          ≡ false
        → Fresh r.application_instance_id others
    none_alike [] h = tt
    none_alike (o ∷ others) h = (ground arith, none_alike others (ground arith))

module _ (locale_before : String → String → Bool) (now : ℕ) where
  -- The eligible workers have no more room than what is not yet given away or held.
  eligible-spare :
      (k : Kind) (s : Store) (x : StoredWorker)
      → DistinctWorkers (values s.workers)
      → Memᴰ x (values s.workers)
      → spare (resource k) x.node.id (eligible_workers locale_before now s)
        ≤ capacity k x.node
          - (committed k x.node + held k x.node.id (expire_checkout_capacity_holds now s))
  unfolding eligible_workers workers_with_active_checkout_holds expire_checkout_capacity_holds
  eligible-spare k s x d m =
      let res = resource k in
      let w = x.node.id in
      let room = λ (n : WorkerNode). if str_eq n.id w then pos_part (res.left (bin_of n)) else 0 in
      let holds = values (update_all (expire_hold now) s.checkout_capacity_holds) in
      let usage = held_by [] holds in
      let all = map (with_held usage) (values s.workers) in
      omega (
        arith,
        total-sort (λ (l r : WorkerNode). locale_before l.id r.id) room (keep (is_fresh now) all),
        total-keep room (is_fresh now) all,
        spare-with_held res w usage (values s.workers),
        total-named (λ y. pos_part (res.left (bin_of (with_held usage y)))) (values s.workers) x d
            m,
        left_room k usage x,
        used-held_by k w [] holds,
        used_of-nothing k w,
      )

  module _ (item_id : ℕ → String) (hold_id : String) (input : AcquireCheckoutCapacityHoldInput)
      (s : Store) where
    -- What a placed hold takes of a worker fits into what is left of it.
    placed-asks :
        (hold : CheckoutCapacityHold) (k : Kind) (x : StoredWorker)
        → has_duplicates input.reservations ≡ false
        → IsPlaced locale_before now item_id hold_id input s hold
        → DistinctWorkers (values s.workers)
        → Memᴰ x (values s.workers)
        → hold_asks k x.node.id hold
          ≤ capacity k x.node
            - (committed k x.node + held k x.node.id (expire_checkout_capacity_holds now s))
    placed-asks hold k x distinct placed d m =
        let rs = by_application locale_before input.reservations in
        let (known, bounded) =
          allocate_capacity-IsSafe locale_before (eligible_workers locale_before now s) rs
            placed.assigned
            (sort-Distinct
              (λ (l r : CheckoutCapacityReservation).
                locale_before l.application_instance_id r.application_instance_id)
              input.reservations (has_duplicates-Distinct input.reservations distinct))
            placed.allocated in
        let asks : hold_asks k x.node.id hold
            ≡ total (item_asks k x.node.id) (items_of now item_id hold_id placed.assigned 0 rs) =
          ap (hold_asks k x.node.id) placed.built in
        omega (
          arith,
          asks,
          items-demand k x.node.id now item_id hold_id
              (has_worker (eligible_workers locale_before now s)) placed.assigned 0 rs known,
          bounded k x.node.id,
          eligible-spare k s x d m,
        )

    expire-NoOvercommit : NoOvercommit s → NoOvercommit (expire_checkout_capacity_holds now s)
    unfolding expire_checkout_capacity_holds
    expire-NoOvercommit within x k m = omega (arith, held-expire k x.node.id now s, within x k m)

    placed-NoOvercommit :
        (hold : CheckoutCapacityHold)
        → has_duplicates input.reservations ≡ false
        → IsPlaced locale_before now item_id hold_id input s hold
        → ((k : Kind) (w : String) → held k w (expire_checkout_capacity_holds now s) ≡ held k w s)
        → DistinctWorkers (values s.workers)
        → NoOvercommit s
        → NoOvercommit (put_hold s hold_id hold)
    placed-NoOvercommit hold distinct placed same d within x k m = omega (
      arith,
      total-set (hold_asks k x.node.id) s.checkout_capacity_holds hold_id hold,
      placed-asks hold k x distinct placed d m,
      same k x.node.id,
      within x k m,
    )

module _ (locale_before : String → String → Bool) (now : ℕ) (item_id : ℕ → String)
    (hold_id : String) (input : AcquireCheckoutCapacityHoldInput) (s : Store) where
  -- An acquisition, granted or not, leaves every worker within its capacity if it was so before and
  -- the workers have different names: the memory that is reserved for the system, what is given to
  -- applications and what active holds take, and the same for processor and storage.
  pub acquire-NoOvercommit :
      (ops : NumberOps) (policy : PricingPolicy ops.Num)
      → DistinctWorkers (values s.workers)
      → NoOvercommit s
      → NoOvercommit
          (acquire_checkout_capacity_hold locale_before ops policy now item_id hold_id input s).1
  unfolding expire_checkout_capacity_holds
  acquire-NoOvercommit ops policy d within =
      let kept = expire-NoOvercommit locale_before now item_id hold_id input s within in
      elim (acquire-cases locale_before now item_id hold_id input s ops policy) [
        | inl e ↦ subst NoOvercommit (sym e) kept
        | inr (hold, distinct, placed, e) ↦ subst NoOvercommit (sym e) (
            placed-NoOvercommit locale_before now item_id hold_id input
              (expire_checkout_capacity_holds now s) hold distinct placed
              (λ k w. total-twice k w now s.checkout_capacity_holds) d kept)
      ]
