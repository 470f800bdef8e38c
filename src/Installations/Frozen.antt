-- ===== src/Installations/Frozen.antt =====
-- While an installation is held for a payment or a resize, its plan and its applications stay.
use managed_oss_cloud.Common.{
  ℕ, String, Bool, true, List, some, ◌≡◌, refl, ap, sym, ◌∙◌, inl, inr, str_eq, trim, Bool-cases,
  Option-cases,
}
use managed_oss_cloud.Common.Dict.{get}
use managed_oss_cloud.Common.Number.{NumberOps}
use managed_oss_cloud.Common.Result.{thrown}
use managed_oss_cloud.Pricing.{PricingPolicy}
use managed_oss_cloud.Placement.{CheckoutCapacityReservation}
use managed_oss_cloud.Store.{Store}
use managed_oss_cloud.Store.Records.{Installation}
use managed_oss_cloud.Holds.{expire_checkout_capacity_holds}
use managed_oss_cloud.Resize.{expire_plan_capacity_change_holds}
use managed_oss_cloud.Installations.{
  expire_holds, has_checkout_hold, has_change_hold, is_held, owned, upgrade, append_application_id,
}
use managed_oss_cloud.Installations.Created.{create_application_instances, checked_assignments}
use managed_oss_cloud.Installations.Clones.{
  CreateApplicationCloneInput, check_clone, create_application_clone, key_is_short, clone_key,
}

abbrev pub IsUntouched : Store → Store → Type 0
IsUntouched before after =
    (after.installations ≡ before.installations) × (after.applications ≡ before.applications)

expire_holds-IsUntouched : (now : ℕ) (store : Store) → IsUntouched store (expire_holds now store)
unfolding expire_holds expire_checkout_capacity_holds expire_plan_capacity_change_holds
expire_holds-IsUntouched now store = (refl, refl)

upgrade-IsUntouched :
    (now : ℕ) (user_id id plan : String) (store : Store)
    → is_held id (expire_holds now store) ≡ true
    → IsUntouched store (upgrade now user_id id plan store).1
unfolding upgrade
upgrade-IsUntouched now user_id id plan store h =
    elim (Option-cases (owned user_id (get store.installations id))) [
      | inl e ↦ rw (e, upgrade) (refl, refl)
      | inr (item, e) ↦ rw (e, upgrade, h) (expire_holds-IsUntouched now store)
    ]

append_application_id-IsUntouched :
    (now : ℕ) (id app_id : String) (store : Store)
    → is_held id (expire_holds now store) ≡ true
    → IsUntouched store (append_application_id now id app_id store)
unfolding append_application_id
append_application_id-IsUntouched now id app_id store h =
    elim (Option-cases (get store.installations id)) [
      | inl e ↦ rw (e, append_application_id) (refl, refl)
      | inr (item, e) ↦ rw (e, append_application_id, h) (expire_holds-IsUntouched now store)
    ]

module _ (locale_before : String → String → Bool) where
  checked_assignments-held :
      (now : ℕ) (id : String) (requested : List CheckoutCapacityReservation) (safety : ℕ)
      (store : Store)
      → is_held id store ≡ true
      → (message : String) × (checked_assignments locale_before now id requested safety store
          ≡ thrown message)
  unfolding checked_assignments
  checked_assignments-held now id requested safety store h =
      elim (Bool-cases (has_checkout_hold id store)) [
        | inl b ↦ ("The installation has an active checkout capacity hold.", rw b refl)
        | inr b ↦
            let c : has_change_hold id store ≡ true = rw b at h in
            ("The installation has an active plan quota change hold.", rw (b, c) refl)
      ]

  create-IsUntouched :
      (now : ℕ) (id : String) (requested : List CheckoutCapacityReservation)
      (hostname_base : String) (safety : ℕ) (store : Store)
      → is_held id (expire_holds now store) ≡ true
      → IsUntouched store
          (create_application_instances locale_before now id requested hostname_base safety store).1
  unfolding create_application_instances
  create-IsUntouched now id requested hostname_base safety store h =
      let (message, e) =
        checked_assignments-held now id requested safety (expire_holds now store) h in
      rw e (expire_holds-IsUntouched now store)

  module _ (unrestricted : Bool) (ops : NumberOps) (policy : PricingPolicy ops.Num) where
    check_clone-held :
        (now : ℕ) (input : CreateApplicationCloneInput) (store : Store)
        → ((item : Installation)
            → get store.installations input.installation_id ≡ some item
            → item.id ≡ input.installation_id)
        → is_held input.installation_id store ≡ true
        → (message : String) × (check_clone locale_before unrestricted ops policy now input store
            ≡ thrown message)
    unfolding check_clone
    check_clone-held now input store keyed h =
        elim (Option-cases (get store.installations input.installation_id)) [
          | inl e ↦ ("Installation not found.", rw e refl)
          | inr (item, e) ↦ elim (Bool-cases (str_eq item.user_id input.user_id)) [
            | inr other ↦ ("Installation not found.", rw (e, other) refl)
            | inl b ↦
                let held : is_held item.id store ≡ true =
                  ap (λ id. is_held id store) (keyed item e) ∙ h in
                elim (Bool-cases (has_checkout_hold item.id store)) [
                  | inl c ↦
                      ("The installation has an active checkout capacity hold.", rw (e, b, c) refl)
                  | inr c ↦
                      let d : has_change_hold item.id store ≡ true = rw c at held in
                      (
                        "The installation has an active plan quota change hold.",
                        rw (e, b, c, d) refl,
                      )
                ]
          ]
        ]

    clone-IsUntouched :
        (now : ℕ) (job_id : String) (hash : CreateApplicationCloneInput → String)
        (input : CreateApplicationCloneInput) (store : Store)
        → ((item : Installation)
            → get store.installations input.installation_id ≡ some item
            → item.id ≡ input.installation_id)
        → is_held input.installation_id (expire_holds now store) ≡ true
        → IsUntouched store
            (create_application_clone locale_before unrestricted ops policy now job_id hash input
              store).1
    unfolding create_application_clone
    clone-IsUntouched now job_id hash input store keyed h =
        let same = expire_holds-IsUntouched now store in
        let (message, e) =
          check_clone-held now input (expire_holds now store)
            (λ item there. keyed item (ap (λ m. get m input.installation_id) (sym same.0) ∙ there))
            h in
        elim (Bool-cases (key_is_short (trim input.idempotency_key))) [
          | inl b ↦ rw b (refl, refl)
          | inr b ↦ elim (Option-cases (get store.clone_idempotency (clone_key input))) [
            | inl f ↦ rw (b, f, e) same
            | inr (bound, f) ↦ rw (b, f) (refl, refl)
          ]
        ]

    -- While an installation is held for a checkout or a resize, an upgrade, a further application
    -- identifier, new applications and a clone leave all installations and applications as they
    -- are, provided that the installation stands under its identifier.
    pub held-IsUntouched :
        (now : ℕ) (user_id id plan app_id hostname_base job_id : String) (safety : ℕ)
        (requested : List CheckoutCapacityReservation) (hash : CreateApplicationCloneInput → String)
        (input : CreateApplicationCloneInput) (store : Store)
        → ((item : Installation) → get store.installations id ≡ some item → item.id ≡ id)
        → input.installation_id ≡ id
        → is_held id (expire_holds now store) ≡ true
        → IsUntouched store (upgrade now user_id id plan store).1
          × IsUntouched store (append_application_id now id app_id store)
          × IsUntouched store
              (create_application_instances locale_before now id requested hostname_base safety
                store).1
          × IsUntouched store
              (create_application_clone locale_before unrestricted ops policy now job_id hash input
                store).1
    held-IsUntouched now user_id id plan app_id hostname_base job_id safety requested hash input
          store keyed same h =
        (
          upgrade-IsUntouched now user_id id plan store h,
          append_application_id-IsUntouched now id app_id store h,
          create-IsUntouched now id requested hostname_base safety store h,
          clone-IsUntouched now job_id hash input store
              (λ item there.
                keyed item (ap (get store.installations) (sym same) ∙ there) ∙ sym same)
              (ap (λ i. is_held i (expire_holds now store)) same ∙ h),
        )
