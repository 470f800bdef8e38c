-- ===== src/Holds/OneActive.antt =====
-- An installation has at most one active checkout hold.
use managed_oss_cloud.Common.{
  ℕ, ◌≤◌, String, Bool, false, ◌&&◌, List, [], ◌∷◌, Option, none, some, ◌≡◌, refl, sym, ap, arith,
  any, total, str_eq, eq_iff, if◌then◌else◌, Bool-cases, inl, inr,
}
use managed_oss_cloud.Common.Dict.{get, values, total-set, total-update_all, measure_of}
use managed_oss_cloud.Common.Number.{NumberOps}
use managed_oss_cloud.Pricing.{PricingPolicy}
use managed_oss_cloud.Store.{Store, is_active}
use managed_oss_cloud.Store.Records.{CheckoutCapacityHold, AttachCheckoutSessionInput}
use managed_oss_cloud.Holds.{
  expire_checkout_capacity_holds, expire_hold, holds_installation, put_hold, attach_to, attached,
  attach_checkout_session, release_of, release_hold, release_checkout_capacity_hold,
  get_checkout_capacity_hold, has_active_checkout_capacity_hold, may_attach,
}
use managed_oss_cloud.Holds.Steps.{Step, Reachable}
use managed_oss_cloud.Holds.Steps
use managed_oss_cloud.Holds.Acquire.Granted.{acquire-cases}
use mathlib.Core.Path.{subst}

abbrev pub counted : String → CheckoutCapacityHold → ℕ
counted i hold = if holds_installation i hold then 1 else 0

abbrev pub active_count : String → Store → ℕ
active_count i s = total (counted i) (values s.checkout_capacity_holds)

abbrev pub OneActive : Store → Type 0
OneActive s = (i : String) → active_count i s ≤ 1

expire_hold-counted :
    (i : String) (now : ℕ) (hold : CheckoutCapacityHold)
    → counted i (expire_hold now hold) ≤ counted i hold
expire_hold-counted i now hold = ground arith

pub expire-active_count :
    (i : String) (now : ℕ) (s : Store)
    → active_count i (expire_checkout_capacity_holds now s) ≤ active_count i s
unfolding expire_checkout_capacity_holds
expire-active_count i now s =
    total-update_all (counted i) (expire_hold now) s.checkout_capacity_holds
      (expire_hold-counted i now)

-- A hold that takes the place of another which counts as much or more.
put_hold-active_count :
    (i : String) (s : Store) (id : String) (old new : CheckoutCapacityHold)
    → get s.checkout_capacity_holds id ≡ some old
    → counted i new ≤ counted i old
    → active_count i (put_hold s id new) ≤ active_count i s
put_hold-active_count i s id old new e h =
    let kept : measure_of (counted i) (get s.checkout_capacity_holds id) ≡ counted i old =
      ap (measure_of (counted i)) e in
    omega (arith, total-set (counted i) s.checkout_capacity_holds id new, kept, h)

attach_to-active_count :
    (i : String) (now : ℕ) (input : AttachCheckoutSessionInput) (s : Store)
    (found : Option CheckoutCapacityHold)
    → get s.checkout_capacity_holds input.hold_id ≡ found
    → active_count i (attach_to now input s found).1 ≤ active_count i s
unfolding attach_to
attach_to-active_count i now input s none e = omega arith
attach_to-active_count i now input s (some hold) e =
    elim (Bool-cases (may_attach now input s hold)) [
      | inl b ↦
          rw b
            (put_hold-active_count i s input.hold_id hold (attached now input hold) e (omega arith))
      | inr b ↦ rw b (omega arith)
    ]

release_of-active_count :
    (i : String) (now : ℕ) (hold_id user_id reason : String) (s : Store)
    (found : Option CheckoutCapacityHold)
    → get s.checkout_capacity_holds hold_id ≡ found
    → active_count i (release_of now hold_id user_id reason s found).1 ≤ active_count i s
unfolding release_of
release_of-active_count i now hold_id user_id reason s none e = omega arith
release_of-active_count i now hold_id user_id reason s (some hold) e =
    elim (Bool-cases (str_eq hold.user_id user_id && is_active hold.state)) [
      | inl b ↦
          rw b
            (put_hold-active_count i s hold_id hold (release_hold now reason hold) e (ground arith))
      | inr b ↦ rw b (omega arith)
    ]

none-counted :
    (i : String) (holds : List CheckoutCapacityHold)
    → any (holds_installation i) holds ≡ false
    → total (counted i) holds ≡ 0
none-counted i [] h = refl
none-counted i (hold ∷ holds) h = ground (arith, none-counted i holds)

put_new-OneActive :
    (s : Store) (id : String) (new : CheckoutCapacityHold)
    → OneActive s
    → any (holds_installation new.installation_id) (values s.checkout_capacity_holds) ≡ false
    → OneActive (put_hold s id new)
put_new-OneActive s id new one h i = elim (Bool-cases (str_eq new.installation_id i)) [
  | inl b ↦
      let none_there : active_count i s ≡ 0 =
        none-counted i (values s.checkout_capacity_holds)
          (rw (← (eq_iff new.installation_id i).0 b) h) in
      let bound : counted i new ≤ 1 = ground arith in
      omega (arith, total-set (counted i) s.checkout_capacity_holds id new, none_there, bound)
  | inr b ↦
      let nothing : counted i new ≡ 0 = ground (arith, b) in
      omega (arith, total-set (counted i) s.checkout_capacity_holds id new, one i, nothing)
]

module _ (locale_before : String → String → Bool) (ops : NumberOps)
    (policy : PricingPolicy ops.Num) where
  Step-OneActive : (s s' : Store) → Step locale_before ops policy s s' → OneActive s → OneActive s'
  unfolding attach_checkout_session release_checkout_capacity_hold get_checkout_capacity_hold
      has_active_checkout_capacity_hold
  Step-OneActive _ _ (Steps.acquire now item_id hold_id input s fresh) one i =
      let after = expire_checkout_capacity_holds now s in
      let kept : OneActive after = λ j. omega (arith, expire-active_count j now s, one j) in
      elim (acquire-cases locale_before now item_id hold_id input s ops policy) [
        | inl e ↦ subst OneActive (sym e) kept i
        | inr (hold, _, placed, e) ↦
            subst OneActive (sym e)
              (put_new-OneActive after hold_id hold kept (rw placed.built placed.unheld)) i
      ]
  Step-OneActive _ _ (Steps.attach now input s) one i = omega (
    arith,
    attach_to-active_count i now input (expire_checkout_capacity_holds now s) _ refl,
    expire-active_count i now s,
    one i,
  )
  Step-OneActive _ _ (Steps.release now hold_id user_id reason s) one i = omega (
    arith,
    release_of-active_count i now hold_id user_id reason (expire_checkout_capacity_holds now s) _
        refl,
    expire-active_count i now s,
    one i,
  )
  Step-OneActive _ _ (Steps.look_up now hold_id s) one i =
      omega (arith, expire-active_count i now s, one i)
  Step-OneActive _ _ (Steps.ask now installation_id s) one i =
      omega (arith, expire-active_count i now s, one i)
  Step-OneActive _ _ (Steps.elsewhere s s' e) one i = rw e (one i)

  -- In every store that acquisitions, attachments, releases, look-ups and operations on other maps
  -- lead to from one without holds, an installation has at most one active checkout hold.
  pub Reachable-OneActive : (s : Store) → Reachable locale_before ops policy s → OneActive s
  unfolding values
  Reachable-OneActive _ (Steps.start s e) i = rw e (omega arith)
  Reachable-OneActive _ (Steps.step s s' r st) i =
      Step-OneActive s s' st (Reachable-OneActive s r) i
