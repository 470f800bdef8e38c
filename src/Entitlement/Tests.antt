-- ===== src/Entitlement/Tests.antt =====
-- A user with two subscriptions.
use managed_oss_cloud.Common.{[], ◌∷◌, some, ◌≡◌, refl}
use managed_oss_cloud.Common.Dict
use managed_oss_cloud.Common.Sort
use managed_oss_cloud.Store.{Store}
use managed_oss_cloud.Samples.{installation, subscription, empty_store}
use managed_oss_cloud.Entitlement.{scale, no_plan, get_effective_suite_plan}
use managed_oss_cloud.Entitlement.Plans.{IsEffective, get_effective_suite_plan-IsEffective}

abbrev store : Store
store = record empty_store {
  installations = ("i", installation) ∷ ("l", record installation { plan = "scale" }) ∷ [];
  subscriptions =
      ("sub", subscription)
      ∷ ("more", record subscription { installation_id = some "l"; status = "trialing" })
      ∷ [];
}

best : get_effective_suite_plan "u" store ≡ scale
unfolding get_effective_suite_plan Sort.sort Dict.get Dict.values
best = refl

get_effective_suite_plan-IsEffective_example :
    IsEffective "u" store (get_effective_suite_plan "u" store)
get_effective_suite_plan-IsEffective_example = get_effective_suite_plan-IsEffective "u" store

-- Without an entitled subscription there is no plan.
nothing : get_effective_suite_plan "u" (record store { subscriptions = [] }) ≡ no_plan
unfolding get_effective_suite_plan Sort.sort Dict.values
nothing = refl
