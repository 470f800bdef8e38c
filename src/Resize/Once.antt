-- ===== src/Resize/Once.antt =====
-- A plan change hold is applied once, and moves its allocation by one generation.
use managed_oss_cloud.Common.{
  ℕ, ◌+◌, String, Bool, true, false, Option, some, ◌≡◌, refl, sym, ap, ◌∙◌, ◌⊎◌, inl, inr, arith,
  str_eq, eq_iff, eq_refl, trim, some_inj, Bool-cases,
}
use mathlib.Core.Path.{subst}
use managed_oss_cloud.Common.Dict.{Dict, get, get-set, get-update_all, update_all}
use managed_oss_cloud.Store.{Store, slice, is_active}
use managed_oss_cloud.Store.Records.{InstallationCapacityAllocation, PlanCapacityChangeHold}
use managed_oss_cloud.Resize.{
  expire_plan_capacity_change_holds, expire_change_hold, consume_plan_capacity_change_hold,
  consume_found, consume_with, already_applied, is_consumed, resized, consumed_hold,
}
use managed_oss_cloud.Resize.Consumed.{Outcome, nothing, replay, applied, consume-Outcome}

-- The hold was applied, and the allocation is still the one that it led to.
abbrev IsReplayable : String → Store → InstallationCapacityAllocation → Type 0
IsReplayable hold_id s allocation =
    (hold : PlanCapacityChangeHold) × (get s.plan_capacity_change_holds hold_id ≡ some hold)
    × (get s.capacity_allocations hold.installation_id ≡ some allocation)
    × (already_applied hold allocation ≡ true)

consumed_stays :
    (now : ℕ) (hold : PlanCapacityChangeHold)
    → is_consumed hold.state ≡ true
    → expire_change_hold now hold ≡ hold
consumed_stays now hold h = by_state (is_active hold.state) refl
  where
    by_state : (b : Bool) → is_active hold.state ≡ b → expire_change_hold now hold ≡ hold
    by_state false e = rw e refl
    by_state true e = ground (arith, e, h)

replay-consume :
    (now : ℕ) (hold_id user_id source : String) (s : Store) (a : InstallationCapacityAllocation)
    → IsReplayable hold_id s a
    → consume_plan_capacity_change_hold now hold_id user_id source s
      ≡ (some a, expire_plan_capacity_change_holds now s)
unfolding consume_plan_capacity_change_hold consume_found consume_with
    expire_plan_capacity_change_holds
replay-consume now hold_id user_id source s a (hold, there, allocated, done) =
    let current = expire_plan_capacity_change_holds now s in
    let kept : get (update_all (expire_change_hold now) s.plan_capacity_change_holds) hold_id
        ≡ some hold =
      get-update_all (expire_change_hold now) s.plan_capacity_change_holds hold_id
      ∙ rw there (ap some (consumed_stays now hold (ground (arith, done)))) in
    ap (consume_found now hold_id user_id (slice 100 (trim source)) current) kept
    ∙ ap (consume_with now hold_id user_id (slice 100 (trim source)) hold current) allocated
    ∙ rw done refl

outcome-IsReplayable :
    (now : ℕ) (hold_id user_id source : String) (s : Store)
    (r : Option InstallationCapacityAllocation × Store) (a : InstallationCapacityAllocation)
    → Outcome now hold_id user_id source s r
    → r.0 ≡ some a
    → IsReplayable hold_id r.1 a
outcome-IsReplayable now hold_id user_id source s _ a nothing e = cc
outcome-IsReplayable now hold_id user_id source s _ a (replay hold allocation there allocated done)
      e =
    subst (IsReplayable hold_id s) (some_inj e) (hold, there, allocated, done)
outcome-IsReplayable now hold_id user_id source s _ a
      (applied hold allocation i b there allocated m) e =
    let same : resized now hold allocation ≡ a = some_inj e in
    (
      consumed_hold now source hold,
      get-set s.plan_capacity_change_holds hold_id hold_id _ ∙ rw (eq_refl hold_id) refl,
      get-set s.capacity_allocations hold.installation_id hold.installation_id _
          ∙ rw (eq_refl hold.installation_id) (ap some same),
      subst (λ x. already_applied (consumed_hold now source hold) x ≡ true) same
          (ground (arith, m, eq_refl hold.snapshot.plan_id)),
    )

-- Once a call has answered with an allocation, a call for the same hold, on every store that has
-- this hold and the allocations as the first call left them, be it the next call or a later one,
-- answers with the same allocation and changes no allocation, installation or subscription.
pub consume_once :
    (now : ℕ) (hold_id user_id source : String) (s : Store) (a : InstallationCapacityAllocation)
    (now' : ℕ) (user_id' source' : String) (later : Store)
    → (consume_plan_capacity_change_hold now hold_id user_id source s).0 ≡ some a
    → let after = (consume_plan_capacity_change_hold now hold_id user_id source s).1 in
      get later.plan_capacity_change_holds hold_id ≡ get after.plan_capacity_change_holds hold_id
      → later.capacity_allocations ≡ after.capacity_allocations
      → let again = consume_plan_capacity_change_hold now' hold_id user_id' source' later in
        (again.0 ≡ some a)
        × (again.1.capacity_allocations ≡ later.capacity_allocations)
        × (again.1.installations ≡ later.installations)
        × (again.1.subscriptions ≡ later.subscriptions)
unfolding expire_plan_capacity_change_holds
consume_once now hold_id user_id source s a now' user_id' source' later e held allocations =
    let (hold, there, allocated, done) =
      outcome-IsReplayable now hold_id user_id (slice 100 (trim source))
        (expire_plan_capacity_change_holds now s) _ a (consume-Outcome now hold_id user_id source s)
        e in
    let same = replay-consume now' hold_id user_id' source' later a (
      hold,
      held ∙ there,
      ap (λ (m : Dict InstallationCapacityAllocation). get m hold.installation_id) allocations
          ∙ allocated,
      done,
    ) in
    (
      ap (λ (r : Option InstallationCapacityAllocation × Store). r.0) same,
      ap (λ (r : Option InstallationCapacityAllocation × Store). r.1.capacity_allocations) same,
      ap (λ (r : Option InstallationCapacityAllocation × Store). r.1.installations) same,
      ap (λ (r : Option InstallationCapacityAllocation × Store). r.1.subscriptions) same,
    )

-- What one call does to the allocation `a` of an installation.
abbrev pub Moved :
    String
    → String
    → Store
    → String
    → InstallationCapacityAllocation
    → InstallationCapacityAllocation
    → Type 0
Moved hold_id user_id s installation_id a b =
    (b ≡ a)
    ⊎ ((hold : PlanCapacityChangeHold) × (get s.plan_capacity_change_holds hold_id ≡ some hold)
        × (hold.user_id ≡ user_id)
        × (hold.installation_id ≡ installation_id)
        × (hold.expected_generation ≡ a.generation)
        × (b.generation ≡ a.generation + 1)
        × (b.snapshot ≡ hold.snapshot))

outcome-Moved :
    (now : ℕ) (hold_id user_id source : String) (s : Store)
    (r : Option InstallationCapacityAllocation × Store) (j : String)
    (a : InstallationCapacityAllocation)
    → Outcome now hold_id user_id source s r
    → get s.capacity_allocations j ≡ some a
    → (b : InstallationCapacityAllocation) × (get r.1.capacity_allocations j ≡ some b)
      × Moved hold_id user_id s j a b
outcome-Moved now hold_id user_id source s _ j a nothing g = (a, g, inl refl)
outcome-Moved now hold_id user_id source s _ j a (replay hold allocation there allocated done) g =
    (a, g, inl refl)
outcome-Moved now hold_id user_id source s _ j a (applied hold allocation i b there allocated m) g =
    elim (Bool-cases (str_eq hold.installation_id j)) [
      | inr other ↦
          (a, get-set s.capacity_allocations hold.installation_id j _ ∙ rw other g, inl refl)
      | inl same ↦
          let is_a : allocation ≡ a = some_inj (
            sym allocated
            ∙ ap (get s.capacity_allocations) ((eq_iff hold.installation_id j).0 same)
            ∙ g) in
          (
            resized now hold a,
            get-set s.capacity_allocations hold.installation_id j _
                ∙ rw same (ap (λ x. some (resized now hold x)) is_a),
            inr (
              hold,
              there,
              (eq_iff hold.user_id user_id).0 (ground (arith, m)),
              (eq_iff hold.installation_id j).0 same,
              subst
                  (λ (x : InstallationCapacityAllocation). hold.expected_generation ≡ x.generation)
                  is_a (ground (arith, m)),
              refl,
              refl,
            ),
          )
    ]

-- A call leaves the allocation of an installation as it is, or takes it to the next generation and
-- the plan of the hold, which belongs to the user and was made for the generation before.
pub generation_step :
    (now : ℕ) (hold_id user_id source : String) (s : Store) (installation_id : String)
    (a : InstallationCapacityAllocation)
    → get s.capacity_allocations installation_id ≡ some a
    → (b : InstallationCapacityAllocation) × (get
          (consume_plan_capacity_change_hold now hold_id user_id source s).1.capacity_allocations
          installation_id
        ≡ some b)
      × Moved hold_id user_id (expire_plan_capacity_change_holds now s) installation_id a b
unfolding expire_plan_capacity_change_holds
generation_step now hold_id user_id source s installation_id a g =
    outcome-Moved now hold_id user_id (slice 100 (trim source))
      (expire_plan_capacity_change_holds now s) _ installation_id a
      (consume-Outcome now hold_id user_id source s) g
