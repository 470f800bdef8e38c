-- ===== src/Holds/Ended.antt =====
-- A checkout hold that has ended is never changed again.
use managed_oss_cloud.Common.{
  ℕ, String, Bool, true, false, ◌&&◌, Option, none, some, ◌≡◌, refl, sym, ap, ◌∙◌, arith, str_eq,
  eq_iff, Bool-cases, some_inj, inl, inr,
}
use mathlib.Core.Path.{subst}
use managed_oss_cloud.Common.Dict.{get, get-set, get-update_all}
use managed_oss_cloud.Common.Number.{NumberOps}
use managed_oss_cloud.Pricing.{PricingPolicy}
use managed_oss_cloud.Store.{Store, is_active}
use managed_oss_cloud.Store.Records.{CheckoutCapacityHold, AttachCheckoutSessionInput}
use managed_oss_cloud.Holds.{
  expire_checkout_capacity_holds, expire_hold, put_hold, attach_to, attached,
  attach_checkout_session, release_of, release_hold, release_checkout_capacity_hold,
  get_checkout_capacity_hold, has_active_checkout_capacity_hold, may_attach,
}
use managed_oss_cloud.Holds.Steps.{Step}
use managed_oss_cloud.Holds.Steps
use managed_oss_cloud.Holds.Acquire.Granted.{acquire-cases}

-- The hold under `id` is this one.
abbrev pub HasHold : Store → String → CheckoutCapacityHold → Type 0
HasHold s id hold = get s.checkout_capacity_holds id ≡ some hold

module _ (id : String) (hold : CheckoutCapacityHold) (ended : is_active hold.state ≡ false) where
  expire-HasHold :
      (now : ℕ) (s : Store)
      → HasHold s id hold
      → HasHold (expire_checkout_capacity_holds now s) id hold
  unfolding expire_checkout_capacity_holds
  expire-HasHold now s h =
      get-update_all (expire_hold now) s.checkout_capacity_holds id ∙ rw (h, ended) refl

  put_other-HasHold :
      (s : Store) (other : String) (new : CheckoutCapacityHold)
      → str_eq other id ≡ false
      → HasHold s id hold
      → HasHold (put_hold s other new) id hold
  put_other-HasHold s other new d h = get-set s.checkout_capacity_holds other id new ∙ rw d h

  active_elsewhere :
      (s : Store) (other : String) (old : CheckoutCapacityHold)
      → get s.checkout_capacity_holds other ≡ some old
      → is_active old.state ≡ true
      → HasHold s id hold
      → str_eq other id ≡ false
  active_elsewhere s other old e a h = elim (Bool-cases (str_eq other id)) [
    | inl b ↦
        let same : some old ≡ some hold =
          sym e ∙ ap (get s.checkout_capacity_holds) ((eq_iff other id).0 b) ∙ h in
        cc (ap (λ (x : CheckoutCapacityHold). is_active x.state) (some_inj same), a, ended)
    | inr b ↦ b
  ]

  attach_to-HasHold :
      (now : ℕ) (input : AttachCheckoutSessionInput) (s : Store)
      (found : Option CheckoutCapacityHold)
      → get s.checkout_capacity_holds input.hold_id ≡ found
      → HasHold s id hold
      → HasHold (attach_to now input s found).1 id hold
  unfolding attach_to
  attach_to-HasHold now input s none e h = h
  attach_to-HasHold now input s (some old) e h = elim (Bool-cases (may_attach now input s old)) [
    | inl b ↦ rw b (
        put_other-HasHold s input.hold_id (attached now input old)
          (active_elsewhere s input.hold_id old e (ground (arith, b)) h) h)
    | inr b ↦ rw b h
  ]

  release_of-HasHold :
      (now : ℕ) (hold_id user_id reason : String) (s : Store) (found : Option CheckoutCapacityHold)
      → get s.checkout_capacity_holds hold_id ≡ found
      → HasHold s id hold
      → HasHold (release_of now hold_id user_id reason s found).1 id hold
  unfolding release_of
  release_of-HasHold now hold_id user_id reason s none e h = h
  release_of-HasHold now hold_id user_id reason s (some old) e h =
      elim (Bool-cases (str_eq old.user_id user_id && is_active old.state)) [
        | inl b ↦ rw b (
            put_other-HasHold s hold_id (release_hold now reason old)
              (active_elsewhere s hold_id old e (ground (arith, b)) h) h)
        | inr b ↦ rw b h
      ]

  new_elsewhere :
      (s : Store) (other : String)
      → get s.checkout_capacity_holds other ≡ none
      → HasHold s id hold
      → str_eq other id ≡ false
  new_elsewhere s other e h = elim (Bool-cases (str_eq other id)) [
    | inl b ↦ cc (sym e ∙ ap (get s.checkout_capacity_holds) ((eq_iff other id).0 b) ∙ h)
    | inr b ↦ b
  ]

-- A hold that is consumed, released or expired stays as it is, in each of its fields, through every
-- acquisition, attachment, release and look-up and every operation on other maps.
pub ended_unchanged :
    (locale_before : String → String → Bool) (ops : NumberOps) (policy : PricingPolicy ops.Num)
    (s s' : Store) (id : String) (hold : CheckoutCapacityHold)
    → Step locale_before ops policy s s'
    → is_active hold.state ≡ false
    → get s.checkout_capacity_holds id ≡ some hold
    → get s'.checkout_capacity_holds id ≡ some hold
unfolding attach_checkout_session release_checkout_capacity_hold get_checkout_capacity_hold
    has_active_checkout_capacity_hold
ended_unchanged locale_before ops policy _ _ id hold
      (Steps.acquire now item_id hold_id input s fresh) ended h =
    elim (acquire-cases locale_before now item_id hold_id input s ops policy) [
      | inl e ↦ subst (λ x. HasHold x id hold) (sym e) (expire-HasHold id hold ended now s h)
      | inr (new, _, _, e) ↦
          subst (λ x. HasHold x id hold) (sym e)
            (put_other-HasHold id hold ended (expire_checkout_capacity_holds now s) hold_id new
              (new_elsewhere id hold ended s hold_id fresh h)
              (expire-HasHold id hold ended now s h))
    ]
ended_unchanged locale_before ops policy _ _ id hold (Steps.attach now input s) ended h =
    attach_to-HasHold id hold ended now input (expire_checkout_capacity_holds now s) _ refl
      (expire-HasHold id hold ended now s h)
ended_unchanged locale_before ops policy _ _ id hold (Steps.release now hold_id user_id reason s)
      ended h =
    release_of-HasHold id hold ended now hold_id user_id reason
      (expire_checkout_capacity_holds now s) _ refl (expire-HasHold id hold ended now s h)
ended_unchanged locale_before ops policy _ _ id hold (Steps.look_up now hold_id s) ended h =
    expire-HasHold id hold ended now s h
ended_unchanged locale_before ops policy _ _ id hold (Steps.ask now installation_id s) ended h =
    expire-HasHold id hold ended now s h
ended_unchanged locale_before ops policy _ _ id hold (Steps.elsewhere s s' e) ended h =
    ap (λ m. get m id) e ∙ h
