-- ===== src/Resize/Consumed.antt =====
-- What a call that consumes a plan change hold comes to: nothing, a replay, or one application.
use managed_oss_cloud.Common.{
  ℕ, String, trim, true, Option, none, some, ◌≡◌, refl, inl, inr, Bool-cases,
}
use managed_oss_cloud.Common.Dict.{get}
use managed_oss_cloud.Store.{Store, slice}
use managed_oss_cloud.Store.Records.{
  Installation, StoredSubscription, InstallationCapacityAllocation, PlanCapacityChangeHold,
}
use managed_oss_cloud.Resize.{
  already_applied, may_consume, may_bill, resized, apply_change, consume_billed, consume_with,
  consume_found, expire_plan_capacity_change_holds, consume_plan_capacity_change_hold,
}

-- The outcome of a call on a store whose overdue holds have expired.
pub data Outcome (now : ℕ) (hold_id user_id source : String) (s : Store)
    : Option InstallationCapacityAllocation × Store → Type 0 where
  nothing : Outcome now hold_id user_id source s (none, s)
  replay :
      (hold : PlanCapacityChangeHold) (allocation : InstallationCapacityAllocation)
      → get s.plan_capacity_change_holds hold_id ≡ some hold
      → get s.capacity_allocations hold.installation_id ≡ some allocation
      → already_applied hold allocation ≡ true
      → Outcome now hold_id user_id source s (some allocation, s)
  applied :
      (hold : PlanCapacityChangeHold) (allocation : InstallationCapacityAllocation)
      (installation : Installation) (subscription : StoredSubscription)
      → get s.plan_capacity_change_holds hold_id ≡ some hold
      → get s.capacity_allocations hold.installation_id ≡ some allocation
      → may_consume user_id source hold allocation ≡ true
      → Outcome now hold_id user_id source s (
        some (resized now hold allocation),
        apply_change now hold_id source hold allocation installation subscription s,
      )

module _ (now : ℕ) (hold_id user_id source : String) (s : Store) where
  module _ (hold : PlanCapacityChangeHold)
      (h : get s.plan_capacity_change_holds hold_id ≡ some hold) where
    billed-Outcome :
        (allocation : InstallationCapacityAllocation) (i : Option Installation)
        (b : Option StoredSubscription)
        → get s.capacity_allocations hold.installation_id ≡ some allocation
        → may_consume user_id source hold allocation ≡ true
        → Outcome now hold_id user_id source s
            (consume_billed now hold_id user_id source hold allocation s i b)
    unfolding consume_billed
    billed-Outcome allocation none b a m = nothing
    billed-Outcome allocation (some i) none a m = nothing
    billed-Outcome allocation (some i) (some b) a m =
        elim (Bool-cases (may_bill user_id hold i b)) [
          | inl e ↦ rw e (applied hold allocation i b h a m)
          | inr e ↦ rw e nothing
        ]

    with-Outcome :
        (found : Option InstallationCapacityAllocation)
        → get s.capacity_allocations hold.installation_id ≡ found
        → Outcome now hold_id user_id source s
            (consume_with now hold_id user_id source hold s found)
    unfolding consume_with
    with-Outcome none a = nothing
    with-Outcome (some allocation) a = elim (Bool-cases (already_applied hold allocation)) [
      | inl e ↦ rw e (replay hold allocation h a e)
      | inr e ↦ rw e (elim (Bool-cases (may_consume user_id source hold allocation)) [
        | inl m ↦ rw m (billed-Outcome allocation _ _ a m)
        | inr m ↦ rw m nothing
      ])
    ]

  found-Outcome :
      (found : Option PlanCapacityChangeHold)
      → get s.plan_capacity_change_holds hold_id ≡ found
      → Outcome now hold_id user_id source s (consume_found now hold_id user_id source s found)
  unfolding consume_found
  found-Outcome none h = nothing
  found-Outcome (some hold) h = with-Outcome hold h _ refl

-- Every call comes to one of the outcomes.
pub consume-Outcome :
    (now : ℕ) (hold_id user_id confirmation_source : String) (s : Store)
    → Outcome now hold_id user_id
        (slice 100 (trim confirmation_source))
        (expire_plan_capacity_change_holds now s)
        (consume_plan_capacity_change_hold now hold_id user_id confirmation_source s)
unfolding consume_plan_capacity_change_hold
consume-Outcome now hold_id user_id confirmation_source s =
    found-Outcome now hold_id user_id (slice 100 (trim confirmation_source))
      (expire_plan_capacity_change_holds now s) _ refl
