-- ===== src/Pricing/Quotes.antt =====
-- What a quote promises: the recommended plan, the price and the split.
use mathlib.Core.List.{Memᴰ}
use managed_oss_cloud.Common.{
  ◌+◌, ◌≤◌, ◌≡◌, refl, ◌↔◌, ◌⊎◌, inl, inr, Bool, true, false, not, ◌||◌, List, [], ◌∷◌, Option,
  none, some, arith, All, all, find, total, length,
}
use managed_oss_cloud.Common.Sort.{sort}
use managed_oss_cloud.Common.Sorted.{
  sort-IsSorted, find_least, find-passes, find-none, find-All, All-of_sort, All-sort, All-of_Mem,
}
use managed_oss_cloud.Common.Number.{NumberOps}
use managed_oss_cloud.Types.{CatalogApp, ComputePlan, Quote}
use managed_oss_cloud.Pricing.{
  PricingPolicy, is_none, plan_can_contain, demand_of, recommended, build_quote,
  build_quote_for_plan,
}

module _ (ops : NumberOps) (lt_asym : (x y : ops.Num) → ops.lt x y ≡ true → ops.lt y x ≡ false)
    (lt_trans : (x y z : ops.Num)
      → ops.lt y x ≡ false
      → ops.lt z y ≡ false
      → ops.lt z x ≡ false) where
  open ops use {Num, lt}

  -- Where the order of numbers is a strict weak order, the recommended plan holds the whole
  -- demand, and every plan of the policy that holds it has at least as much memory.
  pub recommended_least :
      (apps : List CatalogApp) (policy : PricingPolicy Num) (plan : ComputePlan Num)
      → (build_quote ops apps policy).recommended_plan ≡ some plan
      → (plan_can_contain ops (demand_of ops apps policy) plan policy ≡ true)
        × All
            (λ p.
              plan_can_contain ops (demand_of ops apps policy) p policy ≡ true
              → lt p.memory_mb plan.memory_mb ≡ false)
            policy.plans
  unfolding build_quote recommended
  recommended_least apps policy plan h =
      let before = λ (a b : ComputePlan Num). lt a.memory_mb b.memory_mb in
      let fits =
        λ (p : ComputePlan Num). plan_can_contain ops (demand_of ops apps policy) p policy in
      (
        find-passes fits (sort before policy.plans) plan h,
        All-of_sort (λ p. fits p ≡ true → before p plan ≡ false) before policy.plans
            (find_least before (λ x y. lt_asym x.memory_mb y.memory_mb)
              (λ x y z. lt_trans x.memory_mb y.memory_mb z.memory_mb) fits
              (sort before policy.plans) plan
              (sort-IsSorted before (λ x y. lt_asym x.memory_mb y.memory_mb)
                (λ x y z. lt_trans x.memory_mb y.memory_mb z.memory_mb) policy.plans)
              h),
      )

module _ (ops : NumberOps) where
  open ops use {Num}

  -- What each bound of a plan says of the demand of a selection.
  pub record IsRoomy (apps : List CatalogApp) (policy : PricingPolicy Num) (plan : ComputePlan Num)
      : Type 0 where
    pub memory :
        ops.le
          (ops.of_ℕ (total (λ app. app.memory_budget_mb) apps + policy.system_reserve_mb))
          (ops.mul plan.memory_mb policy.maximum_safe_utilization)
        ≡ true
    pub processor :
        ops.le
          (ops.of_ℕ (total (λ app. app.cpu_budget_millis) apps))
          (ops.mul plan.cpu (ops.of_ℕ 1000))
        ≡ true
    pub storage : total (λ app. app.storage_budget_gb) apps ≤ plan.storage_gb
    pub services : length apps ≤ plan.max_services

  abbrev pub can_hold : List CatalogApp → PricingPolicy Num → ComputePlan Num → Bool
  can_hold apps policy p = plan_can_contain ops (demand_of ops apps policy) p policy

  no_plan :
      (apps : List CatalogApp) (policy : PricingPolicy Num) (plans : List (ComputePlan Num))
      → All (λ p. can_hold apps policy p ≡ false) plans
      → find (can_hold apps policy) plans ≡ none
  no_plan apps policy [] h = refl
  no_plan apps policy (p ∷ plans) h = rw h.0 (no_plan apps policy plans h.1)

  recommended-none :
      (apps : List CatalogApp) (policy : PricingPolicy Num)
      → (recommended ops apps policy ≡ none)
        ↔ All (λ p. can_hold apps policy p ≡ false) policy.plans
  unfolding recommended
  recommended-none apps policy =
      let before = λ (a b : ComputePlan Num). ops.lt a.memory_mb b.memory_mb in
      let Refused = λ (p : ComputePlan Num). can_hold apps policy p ≡ false in
      (
        (λ h. All-of_sort Refused before policy.plans (find-none (can_hold apps policy) _ h)),
        (λ h. no_plan apps policy _ (All-sort Refused before policy.plans h)),
      )

  split_reason :
      {Q : Type 0} (bundled : Bool) (plan : Option (ComputePlan Num))
      → (plan ≡ none) ↔ Q
      → ((not bundled || is_none ops plan) ≡ true) ↔ ((bundled ≡ false) ⊎ Q)
  split_reason false plan e = ((λ _. inl refl), λ _. refl)
  split_reason true none e = ((λ _. inr (e.0 refl)), λ _. refl)
  split_reason true (some p) e = ((λ h. cc), λ h. elim h [ inl x ↦ cc | inr q ↦ cc (e.1 q) ])

  -- A selection is split exactly when an application may not be bundled or no plan of the policy
  -- holds the demand.
  pub requires_split_iff :
      (apps : List CatalogApp) (policy : PricingPolicy Num)
      → ((build_quote ops apps policy).requires_split ≡ true) ↔ (
          (all (λ (app : CatalogApp). app.bundle_eligible) apps ≡ false)
          ⊎ All (λ p. can_hold apps policy p ≡ false) policy.plans)
  unfolding build_quote
  requires_split_iff apps policy =
      split_reason (all (λ (app : CatalogApp). app.bundle_eligible) apps)
        (recommended ops apps policy) (recommended-none apps policy)

  fits-bounds :
      (apps : List CatalogApp) (policy : PricingPolicy Num) (plan : ComputePlan Num)
      → can_hold apps policy plan ≡ true
      → IsRoomy apps policy plan
  unfolding plan_can_contain demand_of
  fits-bounds apps policy plan h = ground arith

  -- A plan that the quote recommends is one of the policy; the demand is within its share of memory
  -- that is safe to use and within its processor, storage and number of services; and the quote for
  -- this plan as the chosen one exists and has the price of the quote that recommends it.
  pub recommended_chosen :
      (apps : List CatalogApp) (policy : PricingPolicy Num) (plan : ComputePlan Num)
      → (build_quote ops apps policy).recommended_plan ≡ some plan
      → Memᴰ plan policy.plans
        × IsRoomy apps policy plan
        × ((quote : Quote Num) × (build_quote_for_plan ops apps plan policy ≡ some quote)
            × (quote.recommended_plan ≡ some plan)
            × (quote.infrastructure_monthly_cents
                ≡ (build_quote ops apps policy).infrastructure_monthly_cents)
            × (quote.platform_fee_cents ≡ (build_quote ops apps policy).platform_fee_cents)
            × (quote.total_monthly_cents ≡ (build_quote ops apps policy).total_monthly_cents))
  unfolding build_quote build_quote_for_plan recommended
  recommended_chosen apps policy plan h =
      let before = λ (a b : ComputePlan Num). ops.lt a.memory_mb b.memory_mb in
      let sorted = sort before policy.plans in
      let Listed = λ (p : ComputePlan Num). Memᴰ p policy.plans in
      let fits = find-passes (can_hold apps policy) sorted plan h in
      (
        find-All Listed (can_hold apps policy) sorted plan
            (All-sort Listed before policy.plans (All-of_Mem Listed policy.plans (λ p m. m))) h,
        fits-bounds apps policy plan fits,
        rw (fits, h) (_, refl, refl, refl, refl, refl),
      )
