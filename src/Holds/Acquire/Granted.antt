-- ===== src/Holds/Acquire/Granted.antt =====
-- What is known of a hold that a request is granted.
use managed_oss_cloud.Common.{
  ℕ, String, Bool, true, false, ◌&&◌, List, Option, none, some, ◌≡◌, refl, ap, arith, any, find,
  str_eq, if◌then◌else◌, Bool-cases, Option-cases, inl, inr, ◌⊎◌,
}
use managed_oss_cloud.Common.Dict.{Dict, values}
use managed_oss_cloud.Common.Number.{NumberOps}
use managed_oss_cloud.Common.Result.{Result, thrown, returned, ◌>>◌}
use managed_oss_cloud.Types.{WorkerNode}
use managed_oss_cloud.Pricing.{PricingPolicy}
use managed_oss_cloud.Placement.{allocate_capacity}
use managed_oss_cloud.Store.{Store}
use managed_oss_cloud.Store.Records.{CheckoutCapacityHold, AcquireCheckoutCapacityHoldInput}
use managed_oss_cloud.Holds.{holds_installation, put_hold, expire_checkout_capacity_holds}
use managed_oss_cloud.Holds.Acquire.{
  Acquired, replayed, granted, unavailable, grant_on, new_request, new_hold, replay, respond,
  eligible_workers, by_application, has_duplicates, check_request, acquire_decision, instant,
  first_value, acquire_checkout_capacity_hold, record_decision,
}

-- The new hold is built from an allocation of the request on the eligible workers, for an
-- installation that no active hold has.
pub record IsPlaced (locale_before : String → String → Bool) (now : ℕ) (item_id : ℕ → String)
    (hold_id : String) (input : AcquireCheckoutCapacityHoldInput) (s : Store)
    (hold : CheckoutCapacityHold) : Type 0 where
  pub assigned : Dict String
  pub affinity : String
  pub allocated :
      allocate_capacity locale_before
        (eligible_workers locale_before now s)
        (by_application locale_before input.reservations)
      ≡ some assigned
  pub built :
      hold
      ≡ new_hold locale_before now item_id hold_id input
          (instant locale_before input.expires_at)
          assigned
          affinity
  pub unheld :
      any (holds_installation input.installation_id) (values s.checkout_capacity_holds) ≡ false

unless-granted :
    (guard : Bool) (rest : Acquired) (hold : CheckoutCapacityHold)
    → (if guard then unavailable else rest) ≡ granted hold
    → (guard ≡ false) × (rest ≡ granted hold)
unless-granted true rest hold h = cc
unless-granted false rest hold h = (refl, h)

module _ (locale_before : String → String → Bool) where
  grant_on-granted :
      (make : Dict String → String → CheckoutCapacityHold) (workers : List WorkerNode)
      (found : Option (Dict String)) (hold : CheckoutCapacityHold)
      → grant_on locale_before make workers found ≡ granted hold
      → (assigned : Dict String) × (affinity : String) × (found ≡ some assigned)
        × (hold ≡ make assigned affinity)
  unfolding grant_on
  grant_on-granted make workers none hold h = cc
  grant_on-granted make workers (some assigned) hold h =
      elim (Option-cases (first_value assigned workers)) [
        | inl e ↦ cc (rw (e, grant_on) at h)
        | inr (affinity, e) ↦
            (assigned, affinity, refl, by_affinity affinity (rw (e, grant_on) at h))
      ]
    where
      by_affinity :
          (affinity : String)
          → (if str_eq affinity "" then unavailable else granted (make assigned affinity))
            ≡ granted hold
          → hold ≡ make assigned affinity
      by_affinity affinity h = elim (Bool-cases (str_eq affinity "")) [
        | inl b ↦ cc (rw b at h)
        | inr b ↦ cc (rw b at h)
      ]

  module _ (now : ℕ) (item_id : ℕ → String) (hold_id : String)
      (input : AcquireCheckoutCapacityHoldInput) (s : Store) (hold : CheckoutCapacityHold) where
    new_request-IsPlaced :
        new_request locale_before now item_id hold_id input
            (instant locale_before input.expires_at)
            s
          ≡ granted hold
        → IsPlaced locale_before now item_id hold_id input s hold
    unfolding new_request
    new_request-IsPlaced h =
        let (unheld, rest) =
          unless-granted
            (any (holds_installation input.installation_id) (values s.checkout_capacity_holds)) _
            hold h in
        let (_, rest) = unless-granted _ _ hold rest in
        let (_, rest) = unless-granted _ _ hold rest in
        let (assigned, affinity, allocated, built) = grant_on-granted _ _ _ hold rest in
        record {
          assigned = assigned;
          affinity = affinity;
          allocated = allocated;
          built = built;
          unheld = unheld;
        }

    replay-not_granted :
        (existing : CheckoutCapacityHold) (R : Type 0)
        → replay locale_before input existing ≡ returned (granted hold)
        → R
    unfolding replay
    replay-not_granted existing R h = ground arith

    respond-IsPlaced :
        respond locale_before now item_id hold_id input s ≡ returned (granted hold)
        → IsPlaced locale_before now item_id hold_id input s hold
    unfolding respond
    respond-IsPlaced h =
        elim (Option-cases (
          find
            (λ (hold : CheckoutCapacityHold).
              str_eq hold.user_id input.user_id
              && str_eq hold.idempotency_key input.idempotency_key)
            (values s.checkout_capacity_holds))) [
              | inl e ↦ new_request-IsPlaced (cc (rw (e, respond) at h))
              | inr (existing, e) ↦ replay-not_granted existing _ (rw (e, respond) at h)
            ]

    module _ (ops : NumberOps) (policy : PricingPolicy ops.Num) where
      check_request-distinct :
          check_request locale_before ops policy now input ≡ returned tt
          → has_duplicates input.reservations ≡ false
      unfolding check_request
      check_request-distinct h = ground arith

      -- A granted hold belongs to a request without duplicates and is placed.
      acquire_decision-IsPlaced :
          acquire_decision locale_before ops policy now item_id hold_id input s
            ≡ returned (granted hold)
          → (has_duplicates input.reservations ≡ false)
            × IsPlaced locale_before now item_id hold_id input s hold
      unfolding acquire_decision
      acquire_decision-IsPlaced h =
          by_check (check_request locale_before ops policy now input) refl h
        where
          by_check :
              (checked : Result (Unit {0}))
              → check_request locale_before ops policy now input ≡ checked
              → (checked >> respond locale_before now item_id hold_id input s)
                ≡ returned (granted hold)
              → (has_duplicates input.reservations ≡ false)
                × IsPlaced locale_before now item_id hold_id input s hold
          by_check (thrown message) e h = cc
          by_check (returned tt) e h = (check_request-distinct e, respond-IsPlaced h)

module _ (locale_before : String → String → Bool) (now : ℕ) (item_id : ℕ → String)
    (hold_id : String) (input : AcquireCheckoutCapacityHoldInput) (s : Store) (ops : NumberOps)
    (policy : PricingPolicy ops.Num) where
  -- An acquisition leaves the store as the expiry does, or puts a placed hold into it.
  pub acquire-cases :
      let current = expire_checkout_capacity_holds now s in
      let result =
        acquire_checkout_capacity_hold locale_before ops policy now item_id hold_id input s in
      (result.1 ≡ current)
      ⊎ ((hold : CheckoutCapacityHold) × (has_duplicates input.reservations ≡ false)
          × IsPlaced locale_before now item_id hold_id input current hold
          × (result.1 ≡ put_hold current hold_id hold))
  unfolding acquire_checkout_capacity_hold record_decision
  acquire-cases =
      let current = expire_checkout_capacity_holds now s in
      by_decision (acquire_decision locale_before ops policy now item_id hold_id input current) refl
    where
      by_decision :
          (d : Result Acquired)
          → acquire_decision locale_before ops policy now item_id hold_id input
              (expire_checkout_capacity_holds now s)
            ≡ d
          → ((record_decision locale_before ops policy (expire_checkout_capacity_holds now s) d).1
              ≡ expire_checkout_capacity_holds now s)
            ⊎ ((hold : CheckoutCapacityHold) × (has_duplicates input.reservations ≡ false)
                × IsPlaced locale_before now item_id hold_id input
                    (expire_checkout_capacity_holds now s)
                    hold
                × ((record_decision locale_before ops policy
                      (expire_checkout_capacity_holds now s)
                      d).1
                    ≡ put_hold (expire_checkout_capacity_holds now s) hold_id hold))
      by_decision (thrown message) e = inl refl
      by_decision (returned unavailable) e = inl refl
      by_decision (returned (replayed hold)) e = inl refl
      by_decision (returned (granted hold)) e =
          let (distinct, placed) =
            acquire_decision-IsPlaced locale_before now item_id hold_id input
              (expire_checkout_capacity_holds now s) hold ops policy e in
          inr (
            hold,
            distinct,
            placed,
            ap (λ id. put_hold (expire_checkout_capacity_holds now s) id hold)
                (ap (λ (x : CheckoutCapacityHold). x.id) placed.built),
          )
