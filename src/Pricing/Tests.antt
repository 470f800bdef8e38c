-- ===== src/Pricing/Tests.antt =====
-- The default catalogue of plans, and a quote for one application.
use mathlib.Core.List.{Memᴰ}
use managed_oss_cloud.Common.{
  ℕ, String, ◌+◌, ◌*◌, ◌/◌, ◌≡◌, ◌↔◌, ◌⊎◌, refl, true, false, [], ◌∷◌, some, arith, All, all, ltb,
  leb,
}
use managed_oss_cloud.Common.Number.{NumberOps, fractions}
use managed_oss_cloud.Common.Sort.{sort}
use managed_oss_cloud.Types.{CatalogApp, ComputePlan, Quote}
use managed_oss_cloud.Pricing.{
  PricingPolicy, plan_can_contain, demand_of, recommended, platform_fee_for, build_quote,
  build_quote_for_plan,
}
use managed_oss_cloud.Pricing.Quotes.{
  recommended_least, requires_split_iff, recommended_chosen, can_hold, IsRoomy,
}

abbrev plan : String → ℕ → ℕ → ℕ → ComputePlan (ℕ × ℕ)
plan id memory cents services = record {
  id = id;
  label = id;
  memory_mb = (memory, 1);
  cpu = (2, 1);
  storage_gb = 100;
  max_services = services;
  infrastructure_monthly_cents = cents;
  monthly_cents = cents + 200;
}

abbrev policy : PricingPolicy (ℕ × ℕ)
policy = record {
  plans = plan "scale" 6144 4300 12 ∷ plan "starter" 1536 500 2 ∷ [];
  platform_fee_percent = (12, 1);
  platform_fee_minimum_cents = 200;
  system_reserve_mb = 512;
  maximum_safe_utilization = (8, 10);
}

abbrev umami : CatalogApp
umami = record {
  id = "umami";
  memory_budget_mb = 640;
  cpu_budget_millis = 750;
  storage_budget_gb = 10;
  bundle_eligible = true;
}

-- 1152 MB fit in 80 % of 1536 MB; the fee is the minimum.
quote_runs :
    ((build_quote fractions (umami ∷ []) policy).recommended_plan
      ≡ some (plan "starter" 1536 500 2))
    × ((build_quote fractions (umami ∷ []) policy).total_monthly_cents ≡ 700)
unfolding build_quote recommended plan_can_contain platform_fee_for sort demand_of
quote_runs = (refl, refl)

-- Whole numbers with truncated division are a number system with the order that the search needs.
abbrev whole_numbers : NumberOps
whole_numbers = record {
  Num = ℕ;
  of_ℕ = λ n. n;
  mul = λ a b. a * b;
  div = λ a b. a / b;
  ceil = λ a. a;
  le = λ a b. leb a b;
  lt = λ a b. ltb a b;
  safe_integer = λ a. some a;
}

ltb_asym : (x y : ℕ) → ltb x y ≡ true → ltb y x ≡ false
ltb_asym x y h = ground arith

ltb_trans : (x y z : ℕ) → ltb y x ≡ false → ltb z y ≡ false → ltb z x ≡ false
ltb_trans x y z h k = ground arith

abbrev whole_plan : String → ℕ → ℕ → ComputePlan ℕ
whole_plan id memory cents = record {
  id = id;
  label = id;
  memory_mb = memory;
  cpu = 2;
  storage_gb = 100;
  max_services = 12;
  infrastructure_monthly_cents = cents;
  monthly_cents = cents + 200;
}

abbrev whole_policy : PricingPolicy ℕ
whole_policy = record {
  plans = whole_plan "scale" 6144 4300 ∷ whole_plan "starter" 1536 500 ∷ [];
  platform_fee_percent = 12;
  platform_fee_minimum_cents = 200;
  system_reserve_mb = 512;
  maximum_safe_utilization = 1;
}

recommended_least_example :
    (plan_can_contain whole_numbers
        (demand_of whole_numbers (umami ∷ []) whole_policy)
        (whole_plan "starter" 1536 500)
        whole_policy
      ≡ true)
    × All
        (λ p.
          plan_can_contain whole_numbers
              (demand_of whole_numbers (umami ∷ []) whole_policy)
              p
              whole_policy
            ≡ true
          → ltb p.memory_mb 1536 ≡ false)
        whole_policy.plans
unfolding build_quote recommended plan_can_contain sort demand_of
recommended_least_example =
    recommended_least whole_numbers ltb_asym ltb_trans (umami ∷ []) whole_policy
      (whole_plan "starter" 1536 500) refl

requires_split_iff_example : ((build_quote fractions (umami ∷ []) policy).requires_split ≡ true) ↔ (
    (all (λ (app : CatalogApp). app.bundle_eligible) (umami ∷ []) ≡ false)
    ⊎ All (λ p. can_hold fractions (umami ∷ []) policy p ≡ false) policy.plans)
requires_split_iff_example = requires_split_iff fractions (umami ∷ []) policy

recommended_chosen_example :
    let plans = build_quote fractions (umami ∷ []) policy in
    Memᴰ (plan "starter" 1536 500 2) policy.plans
    × IsRoomy fractions (umami ∷ []) policy (plan "starter" 1536 500 2)
    × ((quote : Quote (ℕ × ℕ)) × (build_quote_for_plan fractions
            (umami ∷ [])
            (plan "starter" 1536 500 2)
            policy
          ≡ some quote)
        × (quote.recommended_plan ≡ some (plan "starter" 1536 500 2))
        × (quote.infrastructure_monthly_cents ≡ plans.infrastructure_monthly_cents)
        × (quote.platform_fee_cents ≡ plans.platform_fee_cents)
        × (quote.total_monthly_cents ≡ plans.total_monthly_cents))
recommended_chosen_example =
    recommended_chosen fractions (umami ∷ []) policy (plan "starter" 1536 500 2) quote_runs.0
