-- ===== src/Holds/Steps.antt =====
-- The operations on checkout capacity holds as the steps of a state machine.
use managed_oss_cloud.Common.{ℕ, String, Bool, [], none, ◌≡◌}
use managed_oss_cloud.Common.Dict.{get}
use managed_oss_cloud.Common.Number.{NumberOps}
use managed_oss_cloud.Pricing.{PricingPolicy}
use managed_oss_cloud.Store.{Store}
use managed_oss_cloud.Store.Records.{AcquireCheckoutCapacityHoldInput, AttachCheckoutSessionInput}
use managed_oss_cloud.Holds.{
  attach_checkout_session, release_checkout_capacity_hold, get_checkout_capacity_hold,
  has_active_checkout_capacity_hold,
}
use managed_oss_cloud.Holds.Acquire.{acquire_checkout_capacity_hold}

-- An identifier that is drawn is new. A step `elsewhere` is one of an operation that does not touch
-- the holds.
pub data Step (locale_before : String → String → Bool) (ops : NumberOps)
    (policy : PricingPolicy ops.Num) : Store → Store → Type 0 where
  acquire :
      (now : ℕ) (item_id : ℕ → String) (hold_id : String) (input : AcquireCheckoutCapacityHoldInput)
      (s : Store)
      → get s.checkout_capacity_holds hold_id ≡ none
      → Step locale_before ops policy s
          (acquire_checkout_capacity_hold locale_before ops policy now item_id hold_id input s).1
  attach :
      (now : ℕ) (input : AttachCheckoutSessionInput) (s : Store)
      → Step locale_before ops policy s (attach_checkout_session now input s).1
  release :
      (now : ℕ) (hold_id user_id reason : String) (s : Store)
      → Step locale_before ops policy s
          (release_checkout_capacity_hold now hold_id user_id reason s).1
  look_up :
      (now : ℕ) (hold_id : String) (s : Store)
      → Step locale_before ops policy s (get_checkout_capacity_hold now hold_id s).1
  ask :
      (now : ℕ) (installation_id : String) (s : Store)
      → Step locale_before ops policy s (has_active_checkout_capacity_hold now installation_id s).1
  elsewhere :
      (s s' : Store)
      → s'.checkout_capacity_holds ≡ s.checkout_capacity_holds
      → Step locale_before ops policy s s'

-- The stores that steps lead to from one without holds.
pub data Reachable (locale_before : String → String → Bool) (ops : NumberOps)
    (policy : PricingPolicy ops.Num) : Store → Type 0 where
  start : (s : Store) → s.checkout_capacity_holds ≡ [] → Reachable locale_before ops policy s
  step :
      (s s' : Store)
      → Reachable locale_before ops policy s
      → Step locale_before ops policy s s'
      → Reachable locale_before ops policy s'
