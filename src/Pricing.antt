-- ===== src/Pricing.antt =====
-- shared/pricing.ts: the quote for a selection of applications. Sizes and cents are whole numbers;
-- a plan's memory, its processor, the fee percentage and the utilization are `NumberOps` values.
pub mod Quotes
mod Tests
use Prim.Native.String
use managed_oss_cloud.Common.{
  ℕ, ◌+◌, ◌*◌, ◌-◌, max, String, Bool, not, true, false, ◌&&◌, ◌||◌, List, Option, none, some, leb,
  length, all, find, total, if◌then◌else◌,
}
use managed_oss_cloud.Common.Sort.{sort}
use managed_oss_cloud.Common.Number.{NumberOps}
use managed_oss_cloud.Types.{CatalogApp, ComputePlan, Quote}

pub record PricingPolicy (Num : Type 0) : Type 0 where
  pub plans : List (ComputePlan Num)
  pub platform_fee_percent : Num
  pub platform_fee_minimum_cents : ℕ
  pub system_reserve_mb : ℕ
  pub maximum_safe_utilization : Num

-- What `planCanContain` reads of a quote.
pub record Demand : Type 0 where
  pub requested_memory_mb : ℕ
  pub requested_cpu_millis : ℕ
  pub requested_storage_gb : ℕ
  pub selected_apps : List CatalogApp

module _ (ops : NumberOps) where
  open ops use {Num, of_ℕ, mul, div, ceil, le, lt}

  unfoldable pub platform_fee_for : ComputePlan Num → PricingPolicy Num → ℕ
  platform_fee_for plan policy =
      max
        (ceil (
          mul (of_ℕ plan.infrastructure_monthly_cents)
            (div policy.platform_fee_percent (of_ℕ 100))))
        policy.platform_fee_minimum_cents

  pub plan_can_contain : Demand → ComputePlan Num → PricingPolicy Num → Bool
  plan_can_contain quote plan policy =
      le (of_ℕ quote.requested_memory_mb) (mul plan.memory_mb policy.maximum_safe_utilization)
      && le (of_ℕ quote.requested_cpu_millis) (mul plan.cpu (of_ℕ 1000))
      && leb quote.requested_storage_gb plan.storage_gb
      && leb (length quote.selected_apps) plan.max_services

  pub demand_of : List CatalogApp → PricingPolicy Num → Demand
  demand_of apps policy = record {
    requested_memory_mb = total (λ app. app.memory_budget_mb) apps + policy.system_reserve_mb;
    requested_cpu_millis = total (λ app. app.cpu_budget_millis) apps;
    requested_storage_gb = total (λ app. app.storage_budget_gb) apps;
    selected_apps = apps;
  }

  -- `plans.slice().sort((a, b) => a.memoryMb - b.memoryMb).find(…) ?? null`
  pub recommended : List CatalogApp → PricingPolicy Num → Option (ComputePlan Num)
  recommended apps policy =
      find (λ plan. plan_can_contain (demand_of apps policy) plan policy)
        (sort (λ a b. lt a.memory_mb b.memory_mb) policy.plans)

  abbrev is_none : Option (ComputePlan Num) → Bool
  is_none none = true
  is_none (some plan) = false

  abbrev infrastructure_of : Option (ComputePlan Num) → ℕ
  infrastructure_of none = 0
  infrastructure_of (some plan) = plan.infrastructure_monthly_cents

  abbrev fee_of : Option (ComputePlan Num) → PricingPolicy Num → ℕ
  fee_of none policy = 0
  fee_of (some plan) policy = platform_fee_for plan policy

  abbrev label_of : Option (ComputePlan Num) → String
  label_of none = "configured"
  label_of (some plan) = plan.label

  pub build_quote : List CatalogApp → PricingPolicy Num → Quote Num
  unfolding demand_of
  build_quote apps policy =
      let compatible = all (λ (app : CatalogApp). app.bundle_eligible) apps in
      let plan = recommended apps policy in
      let split = not compatible || is_none plan in
      record {
        selected_apps = apps;
        requested_memory_mb = (demand_of apps policy).requested_memory_mb;
        requested_cpu_millis = (demand_of apps policy).requested_cpu_millis;
        requested_storage_gb = (demand_of apps policy).requested_storage_gb;
        reserved_memory_mb = policy.system_reserve_mb;
        compatible_with_bundle = compatible;
        recommended_plan = plan;
        infrastructure_monthly_cents = infrastructure_of plan;
        platform_fee_cents = fee_of plan policy;
        total_monthly_cents = infrastructure_of plan + fee_of plan policy;
        requires_split = split;
        explanation =
            if split
            then "This selection includes an isolated workload. It will be separated instead of overloading the shared server."
            else String.◌++◌ "All selected applications fit the "
                (String.◌++◌ (label_of plan) " server with a safety reserve.");
      }

  pub build_quote_for_plan :
      List CatalogApp → ComputePlan Num → PricingPolicy Num → Option (Quote Num)
  build_quote_for_plan apps plan policy =
      if plan_can_contain (demand_of apps policy) plan policy
      then some (record (build_quote apps policy) {
        recommended_plan = some plan;
        infrastructure_monthly_cents = plan.infrastructure_monthly_cents;
        platform_fee_cents = platform_fee_for plan policy;
        total_monthly_cents = plan.infrastructure_monthly_cents + platform_fee_for plan policy;
        explanation =
            String.◌++◌ "The selected applications fit the chosen "
              (String.◌++◌ plan.label " allocation with its configured safety reserve.");
      })
      else none
