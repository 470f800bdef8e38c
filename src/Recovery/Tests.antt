-- ===== src/Recovery/Tests.antt =====
-- A paid checkout whose deadline elapses.
use managed_oss_cloud.Common.{
  true, [], ◌∷◌, none, some, ◌≡◌, refl, str_eq, some_inj, Bool-cases, inl, inr,
}
use mathlib.Core.Path.{subst}
use managed_oss_cloud.Common.Dict
use managed_oss_cloud.Common.Dict.{get}
use managed_oss_cloud.Common.Result.{returned}
use managed_oss_cloud.Store.{Store}
use managed_oss_cloud.Store.Records.{
  StoredSubscription, PaidCheckoutCapacityRecovery, pending_capacity,
}
use managed_oss_cloud.Recovery.{
  advance_paid_checkout_capacity_recovery, mark_paid_checkout_capacity_compensated, overdue,
}
use managed_oss_cloud.Recovery.Backed.{Backed, Returns, is_backed, steps_return}

abbrev subscription : StoredSubscription
subscription = record {
  id = "s";
  user_id = "u";
  installation_id = some "i";
  provider_subscription_id = some "sub";
  status = "paid_pending_capacity";
  infrastructure_monthly_cents = 1000;
  platform_fee_monthly_cents = 300;
  installation_plan = some "starter";
}

abbrev recovery : PaidCheckoutCapacityRecovery
recovery = record {
  id = "r";
  stripe_event_id = "evt";
  checkout_hold_id = "h";
  user_id = "u";
  installation_id = "i";
  stripe_checkout_session_id = "cs";
  stripe_customer_id = "cus";
  provider_subscription_id = "sub";
  infrastructure_monthly_cents = 1000;
  platform_fee_monthly_cents = 300;
  state = pending_capacity;
  attempt_count = 1;
  compensation_deadline_at = 5000;
  last_attempt_at = some 0;
  fulfilled_at = none;
  compensation_required_at = none;
  compensated_at = none;
  compensation_reference = none;
  last_error = none;
  created_at = 0;
  updated_at = 0;
}

abbrev store : Store
store = record {
  installations = [];
  applications = [];
  jobs = [];
  stripe_customers = [];
  subscriptions = ("sub", subscription) ∷ [];
  stripe_events = [];
  checkout_capacity_holds = [];
  capacity_allocations = [];
  plan_capacity_change_holds = [];
  paid_checkout_capacity_recoveries = ("sub", recovery) ∷ [];
  clone_idempotency = [];
  backups = [];
  workers = [];
  hostname_registry = [];
}

advance_runs :
    (advance_paid_checkout_capacity_recovery 6000 "sub" store).0
    ≡ returned (some (overdue 6000 recovery))
unfolding advance_paid_checkout_capacity_recovery Dict.get
advance_runs = refl

too_early : (advance_paid_checkout_capacity_recovery 4000 "sub" store).0 ≡ returned (some recovery)
unfolding advance_paid_checkout_capacity_recovery Dict.get
too_early = refl

store-Backed : Backed store
unfolding get
store-Backed id r e = elim (Bool-cases (str_eq "sub" id)) [
  | inl b ↦ rw b (
      subst (λ x. is_backed x (some subscription) ≡ true) (some_inj {a = recovery} (rw b at e))
        refl)
  | inr b ↦ cc (rw b at e)
]

steps_return_example :
    Returns (advance_paid_checkout_capacity_recovery 6000 "sub" store)
    × Returns (mark_paid_checkout_capacity_compensated 6000 "sub" "refund-1" store)
steps_return_example = steps_return 6000 "sub" "refund-1" store store-Backed
