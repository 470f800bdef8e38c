-- ===== src/Installations/Tests.antt =====
-- A clone that is sent twice, and one that comes while the installation is held.
use managed_oss_cloud.Common.{
  ℕ, String, Bool, true, false, [], ◌∷◌, none, some, ◌≡◌, refl, ap, sym, some_inj,
}
use managed_oss_cloud.Common.Dict
use managed_oss_cloud.Common.Dict.{get}
use managed_oss_cloud.Common.Number.{fractions, add_number}
use managed_oss_cloud.Common.Result.{Result, thrown, returned}
use managed_oss_cloud.Capacity.{
  plan_capacity_snapshot, application_capacity_usage, capacity_envelope_fit,
}
use managed_oss_cloud.Pricing.{PricingPolicy}
use managed_oss_cloud.Placement.{CheckoutCapacityReservation}
use managed_oss_cloud.Store.{Store, hosting_entitlement_active}
use managed_oss_cloud.Store.Records.{Installation}
use managed_oss_cloud.Holds.{expire_checkout_capacity_holds}
use managed_oss_cloud.Resize.{expire_plan_capacity_change_holds}
use managed_oss_cloud.Samples.{worker, installation, application, subscription, hold, empty_store}
use managed_oss_cloud.Installations.{expire_holds, is_held, upgrade, append_application_id}
use managed_oss_cloud.Installations.Created.{create_application_instances}
use managed_oss_cloud.Installations.Clones.{
  CreateApplicationCloneInput, ApplicationCloneResult, create_application_clone,
}
use managed_oss_cloud.Installations.Frozen.{IsUntouched, held-IsUntouched}
use managed_oss_cloud.Installations.Replayed.{IsReplay, redrawn, clone_replayed}

abbrev before : String → String → Bool
before s t = false

abbrev policy : PricingPolicy (ℕ × ℕ)
policy = record {
  plans =
      (record {
        id = "starter";
        label = "Starter";
        memory_mb = (2048, 1);
        cpu = (1, 1);
        storage_gb = 20;
        max_services = 2;
        infrastructure_monthly_cents = 1000;
        monthly_cents = 1300;
      })
      ∷ [];
  platform_fee_percent = (30, 1);
  platform_fee_minimum_cents = 200;
  system_reserve_mb = 512;
  maximum_safe_utilization = (3, 4);
}

abbrev requested : CheckoutCapacityReservation
requested = record {
  application_instance_id = "b";
  app_id = "plausible";
  memory_reservation_mb = 512;
  cpu_reservation_millis = 100;
  storage_reservation_gb = 4;
}

abbrev input : CreateApplicationCloneInput
input = record {
  user_id = "u";
  installation_id = "i";
  idempotency_key = "0123456789abcdef";
  app = requested;
  hostname_base = "site.example.org";
  memory_safety_reserve_mb = 64;
}

abbrev hash : CreateApplicationCloneInput → String
hash request = request.app.app_id

abbrev store : Store
store = record empty_store {
  installations = ("i", installation) ∷ [];
  applications = ("a", application) ∷ [];
  subscriptions = ("sub", subscription) ∷ [];
  workers = ("w", worker) ∷ [];
}

abbrev held_store : Store
held_store = record store { checkout_capacity_holds = ("h", hold) ∷ [] }

keyed : (item : Installation) → get held_store.installations "i" ≡ some item → item.id ≡ "i"
unfolding get
keyed item e = ap (λ (i : Installation). i.id) (sym (some_inj e))

held : is_held "i" (expire_holds 1000000 held_store) ≡ true
unfolding expire_holds expire_checkout_capacity_holds expire_plan_capacity_change_holds Dict.values
    Dict.update_all
held = refl

held-IsUntouched_example :
    IsUntouched held_store (upgrade 1000000 "u" "i" "scale" held_store).1
    × IsUntouched held_store (append_application_id 1000000 "i" "plausible" held_store)
    × IsUntouched held_store
        (create_application_instances before 1000000 "i"
          (requested ∷ [])
          "site.example.org"
          64
          held_store).1
    × IsUntouched held_store
        (create_application_clone before false fractions policy 1000000 "j" hash input held_store).1
held-IsUntouched_example =
    held-IsUntouched before false fractions policy 1000000 "u" "i" "scale" "plausible"
      "site.example.org" "j" 64 (requested ∷ []) hash input held_store keyed refl held

abbrev cloned : Result ApplicationCloneResult × Store
cloned = create_application_clone before false fractions policy 1000000 "j" hash input store

abbrev answer_of : Result ApplicationCloneResult → ApplicationCloneResult
answer_of (returned answer) = answer
answer_of (thrown message) = record { application = application; job = none; replayed = true }

clone_runs : cloned ≡ (returned (answer_of cloned.0), cloned.1)
unfolding create_application_clone plan_capacity_snapshot application_capacity_usage add_number
    capacity_envelope_fit hosting_entitlement_active expire_holds expire_checkout_capacity_holds
    expire_plan_capacity_change_holds Dict.get Dict.set Dict.values Dict.update_all
clone_runs = refl

is_first : (answer_of cloned.0).replayed ≡ false
unfolding create_application_clone plan_capacity_snapshot application_capacity_usage add_number
    capacity_envelope_fit hosting_entitlement_active expire_holds expire_checkout_capacity_holds
    expire_plan_capacity_change_holds Dict.get Dict.set Dict.values Dict.update_all
is_first = refl

clone_replayed_example : IsReplay (answer_of cloned.0) cloned.1 (
    create_application_clone before false fractions policy 2000000 "k" hash
      (redrawn "c" input)
      cloned.1)
clone_replayed_example =
    clone_replayed before false fractions policy 1000000 "j" hash input store cloned.1
      (answer_of cloned.0) 2000000 "k" "c" clone_runs is_first refl
