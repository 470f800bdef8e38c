-- ===== src/Entitlement/Plans.antt =====
-- The plan of a user's suite is the best that an entitled subscription gives, and no plan at all
-- where none does.
use mathlib.Core.List.{Memᴰ}
use mathlib.Core.Path.{sym, subst}
use managed_oss_cloud.Common.{
  ℕ, ◌≤◌, String, true, false, ◌&&◌, List, [], ◌∷◌, Option, none, some, ◌≡◌, ◌⊎◌, inl, inr, refl,
  arith, All, All-implies, Bool-cases, Option-cases, and-parts, keep, map, given, str_eq,
  if◌then◌else◌,
}
use managed_oss_cloud.Common.Sort.{sort}
use managed_oss_cloud.Common.Sorted.{IsSorted, sort-IsSorted, All-of_sort, All-sort}
use managed_oss_cloud.Store.{Store, is_entitled_status}
use managed_oss_cloud.Store.Records.{StoredSubscription}
use managed_oss_cloud.Common.Dict.{values}
use managed_oss_cloud.Entitlement.{
  SuitePlanId, no_plan, rank, best_first, first_or_none, collect, entitles, entitled_plans,
  plan_named, current_plan, get_effective_suite_plan,
}

best_first-asym : (x y : SuitePlanId) → best_first x y ≡ true → best_first y x ≡ false
best_first-asym x y h = ground arith

best_first-trans :
    (x y z : SuitePlanId) → best_first y x ≡ false → best_first z y ≡ false → best_first z x ≡ false
best_first-trans x y z h k = ground arith

first-best :
    (plans : List SuitePlanId)
    → IsSorted best_first best_first-asym best_first-trans plans
    → All (λ plan. rank plan ≤ rank (first_or_none plans)) plans
first-best [] s = tt
first-best (x ∷ xs) s = (
  omega arith,
  All-implies (λ y. best_first y x ≡ false) (λ y. rank y ≤ rank x) xs (λ y h. ground arith) s.0,
)

-- The plan that a subscription gives the user: that of its installation, while it is entitled.
abbrev pub given_plan : String → Store → StoredSubscription → Option SuitePlanId
given_plan user_id store s =
    if str_eq s.user_id user_id && is_entitled_status s.status
    then plan_named (current_plan store s.installation_id)
    else none

abbrev pub rank_of : Option SuitePlanId → ℕ
rank_of none = 0
rank_of (some plan) = rank plan

-- `P` holds of the plan, if there is one.
abbrev On : (SuitePlanId → Type 0) → Option SuitePlanId → Type 0
On P none = Unit
On P (some plan) = P plan

On-empty : (o : Option SuitePlanId) → On (λ plan. ⊥) o → o ≡ none
On-empty none h = refl
On-empty (some plan) h = elim h [ ]

On-rank :
    (top : SuitePlanId) (o : Option SuitePlanId)
    → On (λ plan. rank plan ≤ rank top) o
    → rank_of o ≤ rank top
On-rank top none h = omega arith
On-rank top (some plan) h = h

abbrev plans_of : String → Store → List StoredSubscription → List SuitePlanId
plans_of user_id store xs = collect (
    map (λ (s : StoredSubscription). plan_named (current_plan store s.installation_id))
      (keep (entitles user_id) xs))

-- The plans that are collected are those that the subscriptions give.
module _ (user_id : String) (store : Store) where
  abbrev Source : List StoredSubscription → SuitePlanId → Type 0
  Source xs plan = (s : StoredSubscription) × Memᴰ s xs × (given_plan user_id store s ≡ some plan)

  one-given :
      (s : StoredSubscription) (plan : SuitePlanId)
      → entitles user_id s ≡ true
      → plan_named (current_plan store s.installation_id) ≡ some plan
      → given_plan user_id store s ≡ some plan
  one-given s plan h e =
      let (both, bound) =
        and-parts (str_eq s.user_id user_id && is_entitled_status s.status)
          (given s.installation_id) h in
      rw both e

  none-given :
      (s : StoredSubscription)
      → entitles user_id s ≡ true
      → plan_named (current_plan store s.installation_id) ≡ none
      → given_plan user_id store s ≡ none
  none-given s h e =
      let (both, bound) =
        and-parts (str_eq s.user_id user_id && is_entitled_status s.status)
          (given s.installation_id) h in
      rw both e

  other-given :
      (s : StoredSubscription) → entitles user_id s ≡ false → given_plan user_id store s ≡ none
  other-given s h = elim (Bool-cases (str_eq s.user_id user_id && is_entitled_status s.status)) [
    | inr b ↦ rw b refl
    | inl b ↦ elim (Option-cases s.installation_id) [
      | inl e ↦ rw (b, e) refl
      | inr (id, e) ↦ rw (b, e) (ground (arith, h, e, b))
    ]
  ]

  plans_of-All : (xs : List StoredSubscription) → All (Source xs) (plans_of user_id store xs)
  plans_of-All [] = tt
  plans_of-All (s ∷ xs) =
      let later =
        All-implies (Source xs) (Source (s ∷ xs)) (plans_of user_id store xs)
          (λ plan m. (m.0, Memᴰ.tail m.1, m.2)) (plans_of-All xs) in
      elim (Bool-cases (entitles user_id s)) [
        | inr b ↦ rw b later
        | inl b ↦ elim (Option-cases (plan_named (current_plan store s.installation_id))) [
          | inl e ↦ rw (b, e) later
          | inr (plan, e) ↦ rw (b, e) ((s, Memᴰ.head refl, one-given s plan b e), later)
        ]
      ]

  All-plans_of :
      (P : SuitePlanId → Type 0) (xs : List StoredSubscription)
      → All P (plans_of user_id store xs)
      → All (λ s. On P (given_plan user_id store s)) xs
  All-plans_of P [] h = tt
  All-plans_of P (s ∷ xs) h = elim (Bool-cases (entitles user_id s)) [
    | inr b ↦ (rw (other-given s b) tt, All-plans_of P xs (rw b at h))
    | inl b ↦ elim (Option-cases (plan_named (current_plan store s.installation_id))) [
      | inl e ↦ (rw (none-given s b e) tt, All-plans_of P xs (rw (b, e) at h))
      | inr (plan, e) ↦
          let k : P plan × All P (plans_of user_id store xs) = rw (b, e) at h in
          (rw (one-given s plan b e) k.0, All-plans_of P xs k.1)
    ]
  ]

module _ (user_id : String) (store : Store) where
  -- The effective plan and the subscriptions that the user has
  abbrev pub IsEffective : SuitePlanId → Type 0
  IsEffective plan =
      ((plan ≡ no_plan) × All (λ s. given_plan user_id store s ≡ none) (values store.subscriptions))
      ⊎ ((s : StoredSubscription) × Memᴰ s (values store.subscriptions)
          × (given_plan user_id store s ≡ some plan)
          × All (λ t. rank_of (given_plan user_id store t) ≤ rank plan)
              (values store.subscriptions))

  sorted-IsEffective :
      (plans : List SuitePlanId)
      → plans ≡ sort best_first (entitled_plans user_id store)
      → IsEffective (first_or_none plans)
  sorted-IsEffective [] e =
      let empty : All (λ plan. ⊥) (entitled_plans user_id store) =
        All-of_sort (λ plan. ⊥) best_first (entitled_plans user_id store) (rw (← e) tt) in
      inl (
        refl,
        All-implies (λ s. On (λ plan. ⊥) (given_plan user_id store s))
            (λ s. given_plan user_id store s ≡ none) (values store.subscriptions)
            (λ s h. On-empty (given_plan user_id store s) h)
            (All-plans_of user_id store (λ plan. ⊥) (values store.subscriptions) empty),
      )
  sorted-IsEffective (plan ∷ plans) e =
      let all = entitled_plans user_id store in
      let subs = values store.subscriptions in
      let sources : All (Source user_id store subs) (plan ∷ plans) =
        subst (All (Source user_id store subs)) (sym e)
          (All-sort (Source user_id store subs) best_first all (plans_of-All user_id store subs)) in
      let sorted : IsSorted best_first best_first-asym best_first-trans (plan ∷ plans) =
        subst (IsSorted best_first best_first-asym best_first-trans) (sym e)
          (sort-IsSorted best_first best_first-asym best_first-trans all) in
      let top : All (λ p. rank p ≤ rank plan) all =
        All-of_sort (λ p. rank p ≤ rank plan) best_first all
          (rw (← e) (first-best (plan ∷ plans) sorted)) in
      inr (
        sources.0.0,
        sources.0.1,
        sources.0.2,
        All-implies (λ s. On (λ p. rank p ≤ rank plan) (given_plan user_id store s))
            (λ s. rank_of (given_plan user_id store s) ≤ rank plan) subs
            (λ s h. On-rank plan (given_plan user_id store s) h)
            (All-plans_of user_id store (λ p. rank p ≤ rank plan) subs top),
      )

  -- The effective plan of a user is one that an entitled subscription of the user gives, and none
  -- gives a higher one; or it is no plan, and no subscription gives one.
  pub get_effective_suite_plan-IsEffective : IsEffective (get_effective_suite_plan user_id store)
  unfolding get_effective_suite_plan
  get_effective_suite_plan-IsEffective =
      sorted-IsEffective (sort best_first (entitled_plans user_id store)) refl
