-- ===== src/Checkout/Tests.antt =====
-- A paid checkout whose hold is active.
use managed_oss_cloud.Common.{◌+◌, All, String, Bool, true, false, [], ◌∷◌, none, some, ◌≡◌, refl}
use managed_oss_cloud.Common.Dict
use managed_oss_cloud.Common.Dict.{get}
use managed_oss_cloud.Common.Result.{Result, returned}
use managed_oss_cloud.Common.Sort.{sort}
use managed_oss_cloud.Store.{Store}
use managed_oss_cloud.Holds.{expire_checkout_capacity_holds}
use managed_oss_cloud.Samples.{worker, installation, application, hold, empty_store}
use managed_oss_cloud.Checkout.{process_paid_checkout, paid_checkout_assignments}
use managed_oss_cloud.Checkout.Fulfil.{ProcessPaidCheckoutInput, Draws, fulfill_paid_checkout}
use managed_oss_cloud.Checkout.Once.{event_once}
use managed_oss_cloud.Checkout.Conserved.{committed_at, IsHeldBy, fulfill-conserves}
use managed_oss_cloud.Holds.Held.{held}
use managed_oss_cloud.Placement.Resources.{memory}

abbrev before : String → String → Bool
before s t = false

abbrev store : Store
store = record empty_store {
  installations = ("i", installation) ∷ [];
  applications = ("a", application) ∷ [];
  stripe_customers = ("u", "cus") ∷ [];
  checkout_capacity_holds = ("h", hold) ∷ [];
  workers = ("w", worker) ∷ [];
}

abbrev payment : ProcessPaidCheckoutInput
payment = record {
  event_id = "evt";
  hold_id = "h";
  user_id = "u";
  installation_id = "i";
  stripe_checkout_session_id = "cs";
  stripe_customer_id = "cus";
  provider_subscription_id = "sub";
  infrastructure_monthly_cents = 1000;
  platform_fee_monthly_cents = 300;
  compensation_deadline_at = none;
}

abbrev draws : Draws
draws = record { allocation = "alloc"; subscription = "s"; recovery = "r"; job = λ app_id. app_id }

abbrev after : Store
after = (process_paid_checkout before 1000000 60000 draws payment store).1

paid : process_paid_checkout before 1000000 60000 draws payment store ≡ (returned true, after)
unfolding process_paid_checkout paid_checkout_assignments fulfill_paid_checkout
    expire_checkout_capacity_holds sort Dict.get Dict.set Dict.has Dict.values Dict.update_all
paid = refl

event_once_example :
    process_paid_checkout before 3000000 60000 draws payment after ≡ (returned false, after)
event_once_example =
    event_once before 1000000 60000 draws payment store after 3000000 60000 draws payment paid refl

abbrev fulfilled : Result (Unit {0}) × Store
fulfilled = fulfill_paid_checkout before 1000000 draws payment hold (("a", "w") ∷ []) none store

fulfilment_runs : fulfilled ≡ (returned tt, fulfilled.1)
unfolding fulfill_paid_checkout sort Dict.get Dict.set Dict.values
fulfilment_runs = refl

its_hold : get store.checkout_capacity_holds "h" ≡ some hold
unfolding get
its_hold = refl

assigned : All (IsHeldBy (("a", "w") ∷ [])) hold.items
unfolding get
assigned = (refl, tt)

fulfill-conserves_example :
    committed_at memory "w" fulfilled.1 + held memory "w" fulfilled.1
    ≡ committed_at memory "w" store + held memory "w" store
fulfill-conserves_example =
    fulfill-conserves before 1000000 draws payment hold (("a", "w") ∷ []) none store fulfilled.1
      memory "w" fulfilment_runs its_hold refl assigned
