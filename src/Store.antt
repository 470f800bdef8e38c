-- ===== src/Store.antt =====
-- The state of `MemoryRepository` of server/repository.ts, as far as the modelled operations use
-- it, with the configuration that they read and the guards that several of them share. An operation
-- takes the instant `now` at which it runs and the identifiers that it draws.
pub mod Records
use Prim.Native.String
use managed_oss_cloud.Common.{
  ℕ, zero, suc, String, Bool, true, false, not, ◌&&◌, ◌||◌, List, [], ◌∷◌, Option, none, some, leb,
  ltb, ◌==◌, any, find, one_of, str_eq, if◌then◌else◌,
}
use managed_oss_cloud.Common.Dict.{Dict, values}
use managed_oss_cloud.Common.Number.{NumberOps}
use managed_oss_cloud.Common.Result.{Result, returned, throw_if, ◌>>=◌, ◌>>◌}
use managed_oss_cloud.Types.{ComputePlan, ProvisioningJob, BackupRecord}
use managed_oss_cloud.Hostnames.{HostnameClaim}
use managed_oss_cloud.Capacity.{PlanCapacitySnapshot, plan_capacity_snapshot}
use managed_oss_cloud.Pricing.{PricingPolicy, platform_fee_for}
use managed_oss_cloud.Store.Records.{
  Installation, ApplicationInstance, StoredSubscription, StoredWorker, CheckoutCapacityHold,
  InstallationCapacityAllocation, PlanCapacityChangeHold, PaidCheckoutCapacityRecovery, CloneRecord,
  HoldState, AllocationState, active,
}

pub record Store : Type 0 where
  pub installations : Dict Installation
  pub applications : Dict ApplicationInstance
  pub jobs : Dict ProvisioningJob
  pub stripe_customers : Dict String
  pub subscriptions : Dict StoredSubscription
  pub stripe_events : List String
  pub checkout_capacity_holds : Dict CheckoutCapacityHold
  pub capacity_allocations : Dict InstallationCapacityAllocation
  pub plan_capacity_change_holds : Dict PlanCapacityChangeHold
  pub paid_checkout_capacity_recoveries : Dict PaidCheckoutCapacityRecovery
  pub clone_idempotency : Dict CloneRecord
  pub backups : List BackupRecord
  pub workers : Dict StoredWorker
  pub hostname_registry : Dict HostnameClaim

abbrev pub is_active : HoldState → Bool
is_active active = true
is_active _ = false

abbrev pub is_active_allocation : AllocationState → Bool
is_active_allocation AllocationState.active = true
is_active_allocation _ = false

-- `text.slice(0, n)`
abbrev pub slice : ℕ → String → String
slice n String.[] = ""
slice zero (String.◌∷◌ c s) = ""
slice (suc n) (String.◌∷◌ c s) = String.◌∷◌ c (slice n s)

-- `JSON.stringify(left) === JSON.stringify(right)` of two arrays of texts
abbrev pub same_texts : List String → List String → Bool
same_texts [] [] = true
same_texts (s ∷ ss) (t ∷ ts) = str_eq s t && same_texts ss ts
same_texts _ _ = false

abbrev pub is_entitled_status : String → Bool
is_entitled_status status = one_of ("active" ∷ "trialing" ∷ []) status

-- `value === text` of an optional text
abbrev pub is_given : Option String → String → Bool
is_given none t = false
is_given (some s) t = str_eq s t

-- An expiry that can be read and lies in the future.
abbrev pub in_future : ℕ → Option ℕ → Bool
in_future now none = false
in_future now (some at) = ltb now at

abbrev pub same_plan_capacity : PlanCapacitySnapshot → PlanCapacitySnapshot → Bool
same_plan_capacity left right =
    str_eq left.plan_id right.plan_id
    && left.memory_mb == right.memory_mb
    && left.cpu_millis == right.cpu_millis
    && left.storage_gb == right.storage_gb
    && left.max_services == right.max_services

-- `HOSTING_ENTITLEMENT_MODE === "unrestricted"` is the first argument.
unfoldable pub hosting_entitlement_active : Bool → Dict StoredSubscription → String → Bool
hosting_entitlement_active unrestricted subscriptions installation_id =
    unrestricted
    || any
        (λ (s : StoredSubscription).
          is_given s.installation_id installation_id && is_entitled_status s.status)
        (values subscriptions)

module _ (ops : NumberOps) (policy : PricingPolicy ops.Num) where
  open ops use {Num}

  -- the snapshot of a configured plan, or a guard that fails
  abbrev same_as_configured : PlanCapacitySnapshot → Option (ComputePlan Num) → Result Bool
  same_as_configured requested none = returned false
  same_as_configured requested (some plan) = plan_capacity_snapshot ops plan >>= λ snapshot.
      returned (same_plan_capacity requested snapshot)

  abbrev same_prices : ℕ → ℕ → Option (ComputePlan Num) → Bool
  same_prices infrastructure fee none = false
  same_prices infrastructure fee (some plan) =
      infrastructure == plan.infrastructure_monthly_cents && fee == platform_fee_for ops plan policy

  -- The checks of a requested plan against the configuration, with the two messages: the quota,
  -- what comes between them, and the prices.
  unfoldable pub check_configured_plan :
      String
      → String
      → String
      → PlanCapacitySnapshot
      → ℕ
      → ℕ
      → Result (Unit {0})
      → Result (Unit {0})
  check_configured_plan plan_id quota_message price_message requested infrastructure fee between =
      let configured = find (λ (p : ComputePlan Num). str_eq p.id plan_id) policy.plans in
      do
        same ← same_as_configured requested configured
        throw_if (not same) quota_message
        between
        throw_if (not (same_prices infrastructure fee configured)) price_message
