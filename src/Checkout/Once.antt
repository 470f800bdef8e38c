-- ===== src/Checkout/Once.antt =====
-- A payment event is processed once.
use managed_oss_cloud.Common.{
  ℕ, String, Bool, true, false, ◌≡◌, refl, ap, sym, ◌∙◌, inl, inr, one_of, eq_refl, Bool-cases,
}
use managed_oss_cloud.Common.Result.{Result, thrown, returned}
use managed_oss_cloud.Store.{Store}
use managed_oss_cloud.Store.Records.{CheckoutCapacityHold, Installation}
use managed_oss_cloud.Holds.{expire_checkout_capacity_holds}
use managed_oss_cloud.Checkout.{
  processed, check_paid, process_checked, place_paid, paid_checkout_assignments,
  process_paid_checkout,
}
use managed_oss_cloud.Checkout.Fulfil.{ProcessPaidCheckoutInput, Draws}

module _ (locale_before : String → String → Bool) where
  processed-stored :
      (event_id : String) (outcome : Result (Unit {0}) × Store) (after : Store)
      → processed locale_before event_id outcome ≡ (returned true, after)
      → one_of after.stripe_events event_id ≡ true
  processed-stored event_id (thrown message, store) after h = cc
  processed-stored event_id (returned _, store) after h =
      ap (λ (r : Result Bool × Store). one_of r.1.stripe_events event_id) (sym h)
      ∙ rw (eq_refl event_id) refl

  process_checked-stored :
      (now window : ℕ) (draws : Draws) (input : ProcessPaidCheckoutInput) (store after : Store)
      (checked : Result (CheckoutCapacityHold × Installation))
      → process_checked locale_before now window draws input store checked ≡ (returned true, after)
      → one_of after.stripe_events input.event_id ≡ true
  unfolding process_checked
  process_checked-stored now window draws input store after (thrown message) h = cc
  process_checked-stored now window draws input store after (returned (hold, installation)) h =
      processed-stored input.event_id
        (place_paid locale_before now window draws input hold installation store
          (paid_checkout_assignments locale_before now store hold))
        after h

  -- Once an event has been processed, whatever comes again under its identifier, at whatever time,
  -- is answered with false and changes nothing.
  pub event_once :
      (now window : ℕ) (draws : Draws) (input : ProcessPaidCheckoutInput) (store after : Store)
      (later window' : ℕ) (draws' : Draws) (input' : ProcessPaidCheckoutInput)
      → process_paid_checkout locale_before now window draws input store ≡ (returned true, after)
      → input'.event_id ≡ input.event_id
      → process_paid_checkout locale_before later window' draws' input' after
        ≡ (returned false, after)
  unfolding process_paid_checkout
  event_once now window draws input store after later window' draws' input' h same =
      elim (Bool-cases (one_of store.stripe_events input.event_id)) [
        | inl b ↦ cc (rw b at h)
        | inr b ↦
            let current = expire_checkout_capacity_holds now store in
            let stored =
              process_checked-stored now window draws input current after
                (check_paid locale_before input current) (rw b at h) in
            rw (ap (one_of after.stripe_events) same ∙ stored) refl
      ]
