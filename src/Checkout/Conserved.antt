-- ===== src/Checkout/Conserved.antt =====
-- The fulfilment of an active hold takes from each worker what the hold held of it.
use managed_oss_cloud.Common.{
  ℕ, ◌+◌, String, Bool, true, List, [], ◌∷◌, Option, none, some, ◌≡◌, refl, ap, sym, ◌∙◌, inl, inr,
  arith, total, str_eq, eq_iff, All, Bool-cases, Option-cases, some_inj, if◌then◌else◌,
}
use mathlib.Core.Path.{subst}
use managed_oss_cloud.Common.Dict.{Dict, get, set, values, get-set, measure_of, total-set}
use managed_oss_cloud.Common.Result.{Result, thrown, returned}
use managed_oss_cloud.Common.Sort.{sort}
use managed_oss_cloud.Common.Sorted.{All-sort, total-sort}
use managed_oss_cloud.Placement.{CheckoutCapacityReservation}
use managed_oss_cloud.Placement.Resources.{Kind, memory, cpu, storage}
use managed_oss_cloud.Store.{Store, is_active}
use managed_oss_cloud.Store.Records.{
  Installation, ApplicationInstance, StoredWorker, CheckoutCapacityHold, CheckoutCapacityHoldItem,
  PaidCheckoutCapacityRecovery,
}
use managed_oss_cloud.Holds.{workers_with_active_checkout_holds}
use managed_oss_cloud.Holds.Held.{asked, committed, item_asks, hold_asks, held}
use managed_oss_cloud.Checkout.Fulfil.{
  ProcessPaidCheckoutInput, Draws, new_allocation, reserved_for, assigned_worker, put_worker_of,
  place_item, place_items, conclude, fulfill_on, affinity_of, concluded, by_item, consumed_hold,
  fulfill_paid_checkout,
}

-- What the worker named `w` keeps for its system and has given to applications.
abbrev pub committed_at : Kind → String → Store → ℕ
committed_at k w store = measure_of (λ (x : StoredWorker). committed k x.node) (get store.workers w)

reserved_for-committed :
    (k : Kind) (r : CheckoutCapacityReservation) (x : StoredWorker)
    → committed k (reserved_for r x).node ≡ committed k x.node + asked k r
reserved_for-committed memory r x = omega arith
reserved_for-committed cpu r x = omega arith
reserved_for-committed storage r x = omega arith

put_worker-committed :
    (k : Kind) (w id : String) (r : CheckoutCapacityReservation) (x : StoredWorker) (store : Store)
    → get store.workers id ≡ some x
    → committed_at k w (put_worker_of store id (reserved_for r x))
      ≡ committed_at k w store + (if str_eq id w then asked k r else 0)
put_worker-committed k w id r x store e = elim (Bool-cases (str_eq id w)) [
  | inl b ↦
      let here : get store.workers w ≡ some x =
        ap (get store.workers) (sym ((eq_iff id w).0 b)) ∙ e in
      rw (get-set store.workers id w (reserved_for r x), b, here) (reserved_for-committed k r x)
  | inr b ↦ rw (get-set store.workers id w (reserved_for r x), b) (omega arith)
]

assigned_worker-there :
    (store : Store) (o : Option String) (id : String) (x : StoredWorker)
    → assigned_worker store o ≡ some (id, x)
    → (o ≡ some id) × (get store.workers id ≡ some x)
assigned_worker-there store none id x h = cc
assigned_worker-there store (some j) id x h = elim (Option-cases (get store.workers j)) [
  | inl e ↦ cc (rw (e, assigned_worker) at h)
  | inr (y, e) ↦ elim (Bool-cases (str_eq j "")) [
    | inl b ↦ cc (rw (e, assigned_worker, b) at h)
    | inr b ↦
        let same : some (j, y) ≡ some (id, x) = rw (e, assigned_worker, b) at h in
        let names = ap (λ (p : String × StoredWorker). p.0) (some_inj same) in
        let workers = ap (λ (p : String × StoredWorker). p.1) (some_inj same) in
        (ap some names, ap (get store.workers) (sym names) ∙ e ∙ ap some workers)
  ]
]

item_asks-on :
    (k : Kind) (w : String) (item : CheckoutCapacityHoldItem) (id : String)
    → item.worker_node_id ≡ some id
    → item_asks k w item ≡ (if str_eq id w then asked k item.reservation else 0)
item_asks-on k w item id mine = rw mine refl

-- a round and what comes after it
abbrev continued :
    (Store → Result (Unit {0}) × Store) → Result (Unit {0}) × Store → Result (Unit {0}) × Store
continued later round = elim round.0 [
  | thrown message ↦ (thrown message, round.1)
  | returned _ ↦ later round.1
]

-- Each item is assigned the worker that holds it.
abbrev pub IsHeldBy : Dict String → CheckoutCapacityHoldItem → Type 0
IsHeldBy assignments item =
    get assignments item.reservation.application_instance_id ≡ item.worker_node_id

module _ (now : ℕ) (draws : Draws) (input : ProcessPaidCheckoutInput) (installation : Installation)
    (hold : CheckoutCapacityHold) (recovery : Option PaidCheckoutCapacityRecovery)
    (assignments : Dict String) (k : Kind) (w : String) where
  -- A round that does not throw has found a worker and an application.
  place_item-succeeds :
      (store : Store) (item : CheckoutCapacityHoldItem) (worker : Option (String × StoredWorker))
      (app : Option ApplicationInstance) (later : Store → Result (Unit {0}) × Store) (after : Store)
      → continued later
          (place_item now draws input installation hold recovery store item worker app)
        ≡ (returned tt, after)
      → (id : String) × (x : StoredWorker) × (next : Store) × (worker ≡ some (id, x))
        × (later next ≡ (returned tt, after))
        × (next.workers ≡ (put_worker_of store id (reserved_for item.reservation x)).workers)
        × (next.checkout_capacity_holds ≡ store.checkout_capacity_holds)
  unfolding place_item
  place_item-succeeds store item none app later after h = cc
  place_item-succeeds store item (some (id, x)) none later after h = cc
  place_item-succeeds store item (some (id, x)) (some app) later after h =
      (id, x, _, refl, h, refl, refl)

  place_items-committed :
      (items : List CheckoutCapacityHoldItem) (store after : Store)
      → All (IsHeldBy assignments) items
      → place_items now draws input installation hold recovery assignments items store
        ≡ (returned tt, after)
      → (committed_at k w after ≡ committed_at k w store + total (item_asks k w) items)
        × (after.checkout_capacity_holds ≡ store.checkout_capacity_holds)
  unfolding place_items
  place_items-committed [] store after a h =
      let same : store ≡ after = ap (λ (r : Result (Unit {0}) × Store). r.1) h in
      subst
        (λ s.
          (committed_at k w s ≡ committed_at k w store + 0)
          × (s.checkout_capacity_holds ≡ store.checkout_capacity_holds))
        same (omega arith, refl)
  place_items-committed (item ∷ items) store after a h =
      let app_id = item.reservation.application_instance_id in
      let (id, x, next, found, h', moved, still) =
        place_item-succeeds store item (assigned_worker store (get assignments app_id))
          (get store.applications app_id)
          (place_items now draws input installation hold recovery assignments items) after h in
      let (named, there) = assigned_worker-there store (get assignments app_id) id x found in
      let mine : item.worker_node_id ≡ some id = sym a.0 ∙ named in
      let (rest, kept) = place_items-committed items next after a.1 h' in
      let first =
        ap (λ m. measure_of (λ (y : StoredWorker). committed k y.node) (get m w)) moved
        ∙ put_worker-committed k w id item.reservation x store there in
      let asks = item_asks-on k w item id mine in (omega (arith, rest, first, asks), kept ∙ still)

  conclude-workers :
      (affinity : String) (store : Store)
      → (conclude now draws input installation hold recovery affinity store).workers ≡ store.workers
  unfolding conclude
  conclude-workers affinity store = by_recovery recovery
    where
      by_recovery :
          (r : Option PaidCheckoutCapacityRecovery)
          → (conclude now draws input installation hold r affinity store).workers ≡ store.workers
      by_recovery none = refl
      by_recovery (some r) = refl

  conclude-held :
      (affinity : String) (store : Store)
      → get store.checkout_capacity_holds hold.id ≡ some hold
      → is_active hold.state ≡ true
      → held k w (conclude now draws input installation hold recovery affinity store)
          + total (item_asks k w) hold.items
        ≡ held k w store
  unfolding conclude
  conclude-held affinity store there on = by_recovery recovery
    where
      counted :
          total (hold_asks k w) (
              values (
                set store.checkout_capacity_holds hold.id
                  (consumed_hold now draws input installation hold recovery)))
            + total (item_asks k w) hold.items
          ≡ total (hold_asks k w) (values store.checkout_capacity_holds)
      counted =
          let moved =
            total-set (hold_asks k w) store.checkout_capacity_holds hold.id
              (consumed_hold now draws input installation hold recovery) in
          let was : measure_of (hold_asks k w) (get store.checkout_capacity_holds hold.id)
              ≡ total (item_asks k w) hold.items =
            rw (there, on) refl in
          omega (arith, moved, was)

      by_recovery :
          (r : Option PaidCheckoutCapacityRecovery)
          → held k w (conclude now draws input installation hold r affinity store)
              + total (item_asks k w) hold.items
            ≡ held k w store
      by_recovery none = rw on counted
      by_recovery (some r) = rw on counted

  concluded-succeeds :
      (affinity : String) (outcome : Result (Unit {0}) × Store) (after : Store)
      → concluded now draws input installation hold recovery affinity outcome ≡ (returned tt, after)
      → (placed : Store) × (outcome ≡ (returned tt, placed))
        × (conclude now draws input installation hold recovery affinity placed ≡ after)
  concluded-succeeds affinity (thrown message, store) after h = cc
  concluded-succeeds affinity (returned _, store) after h =
      (store, refl, ap (λ (r : Result (Unit {0}) × Store). r.1) h)

  -- What a worker has given away and what is held of it, before and after
  fulfill_on-conserves :
      (items : List CheckoutCapacityHoldItem) (affinity : Option String) (store after : Store)
      → fulfill_on now draws input installation hold recovery assignments items store affinity
        ≡ (returned tt, after)
      → get store.checkout_capacity_holds hold.id ≡ some hold
      → is_active hold.state ≡ true
      → All (IsHeldBy assignments) items
      → total (item_asks k w) items ≡ total (item_asks k w) hold.items
      → committed_at k w after + held k w after ≡ committed_at k w store + held k w store
  unfolding fulfill_on
  fulfill_on-conserves items none store after h there on a same = cc
  fulfill_on-conserves items (some affinity) store after h there on a same =
      elim (Bool-cases (str_eq affinity "")) [
        | inl b ↦ cc (rw b at h)
        | inr b ↦
            let allocated : Store = record store {
              capacity_allocations =
                  set store.capacity_allocations installation.id
                    (new_allocation now draws.allocation affinity installation hold);
            } in
            let (placed, e, last) =
              concluded-succeeds affinity
                (place_items now draws input installation hold recovery assignments items allocated)
                after (rw b at h) in
            let (grown, kept) = place_items-committed items allocated placed a e in
            let conclusion = conclude now draws input installation hold recovery affinity placed in
            let shrunk = conclude-held affinity placed (ap (λ m. get m hold.id) kept ∙ there) on in
            let moved =
              ap (λ m. measure_of (λ (y : StoredWorker). committed k y.node) (get m w))
                (conclude-workers affinity placed) in
            let before = ap (λ m. total (hold_asks k w) (values m)) kept in
            subst (λ s. committed_at k w s + held k w s ≡ committed_at k w store + held k w store)
              last (omega (arith, grown, shrunk, moved, before, same))
      ]

-- The fulfilment of a paid checkout whose hold is active takes from each worker exactly what the
-- hold held of it, where each item is assigned the worker that holds it: what the worker has given
-- away and what active holds take of it stay the same in sum.
pub fulfill-conserves :
    (locale_before : String → String → Bool) (now : ℕ) (draws : Draws)
    (input : ProcessPaidCheckoutInput) (hold : CheckoutCapacityHold) (assignments : Dict String)
    (recovery : Option PaidCheckoutCapacityRecovery) (store after : Store) (k : Kind) (w : String)
    → fulfill_paid_checkout locale_before now draws input hold assignments recovery store
      ≡ (returned tt, after)
    → get store.checkout_capacity_holds hold.id ≡ some hold
    → is_active hold.state ≡ true
    → All (IsHeldBy assignments) hold.items
    → committed_at k w after + held k w after ≡ committed_at k w store + held k w store
unfolding fulfill_paid_checkout
fulfill-conserves locale_before now draws input hold assignments recovery store after k w h there on
      a =
    elim (Option-cases (get store.installations input.installation_id)) [
      | inl e ↦ cc (rw (e, fulfill_paid_checkout) at h)
      | inr (installation, e) ↦
          fulfill_on-conserves now draws input installation hold recovery assignments k w
            (sort (by_item locale_before) hold.items)
            (affinity_of assignments (workers_with_active_checkout_holds now store)) store after
            (rw (e, fulfill_paid_checkout) at h) there on
            (All-sort (IsHeldBy assignments) (by_item locale_before) hold.items a)
            (total-sort (by_item locale_before) (item_asks k w) hold.items)
    ]
