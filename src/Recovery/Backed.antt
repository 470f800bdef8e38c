-- ===== src/Recovery/Backed.antt =====
-- A recovery that is open has the subscription that it stands for.
use managed_oss_cloud.Common.{
  ℕ, String, Bool, true, false, not, ◌&&◌, ◌||◌, Option, none, some, ◌≡◌, refl, sym, ◌∙◌, arith,
  str_eq, ltb, trim, some_inj, Bool-cases, inl, inr,
}
use mathlib.Core.Path.{subst}
use managed_oss_cloud.Common.Dict.{get, get-set}
use managed_oss_cloud.Common.Result.{Result, returned}
use managed_oss_cloud.Store.{Store}
use managed_oss_cloud.Store.Records.{StoredSubscription, PaidCheckoutCapacityRecovery}
use managed_oss_cloud.Recovery.{
  is_pending, is_compensation_required, has_obligation, put_recovery, overdue, settled,
  advance_with, advance_found, advance_paid_checkout_capacity_recovery, mark_with, mark_found,
  mark_paid_checkout_capacity_compensated,
}

abbrev obliged : String → PaidCheckoutCapacityRecovery → Option StoredSubscription → Bool
obliged status r none = false
obliged status r (some subscription) = has_obligation status r subscription

-- The subscription that an open recovery stands for.
abbrev pub is_backed : PaidCheckoutCapacityRecovery → Option StoredSubscription → Bool
is_backed r subscription =
    (not (is_pending r.state) || obliged "paid_pending_capacity" r subscription)
    && (not (is_compensation_required r.state) || obliged "compensation_required" r subscription)

-- Every recovery that waits for capacity or for compensation has its own subscription, in the
-- status that says so.
abbrev pub Backed : Store → Type 0
Backed s =
    (id : String) (r : PaidCheckoutCapacityRecovery)
    → get s.paid_checkout_capacity_recoveries id ≡ some r
    → is_backed r (get s.subscriptions id) ≡ true

-- The call returns, and the recoveries stay backed.
abbrev pub Returns : Result (Option PaidCheckoutCapacityRecovery) × Store → Type 0
Returns r = ((o : Option PaidCheckoutCapacityRecovery) × (r.0 ≡ returned o)) × Backed r.1

put_recovery-Backed :
    (s : Store) (id status : String) (r : PaidCheckoutCapacityRecovery) (b : StoredSubscription)
    → Backed s
    → is_backed r (some (record b { status = status })) ≡ true
    → Backed (put_recovery s id r status b)
put_recovery-Backed s id status r b backed new j q e = elim (Bool-cases (str_eq id j)) [
  | inl same ↦
      let found : some r ≡ some q =
        (rw same at (sym (get-set s.paid_checkout_capacity_recoveries id j r) ∙ e)) in
      rw (get-set s.subscriptions id j (record b { status = status }), same)
        (subst (λ x. is_backed x (some (record b { status = status })) ≡ true) (some_inj found) new)
  | inr other ↦
      rw (get-set s.subscriptions id j (record b { status = status }), other)
        (backed j q (rw other at (sym (get-set s.paid_checkout_capacity_recoveries id j r) ∙ e)))
]

advance_with-Returns :
    (now : ℕ) (id : String) (s : Store) (r : PaidCheckoutCapacityRecovery)
    (found : Option StoredSubscription)
    → Backed s
    → obliged "paid_pending_capacity" r found ≡ true
    → Returns (advance_with now id s r found)
unfolding advance_with
advance_with-Returns now id s r none backed o = cc
advance_with-Returns now id s r (some b) backed o = rw o (
  (some (overdue now r), refl),
  put_recovery-Backed s id "compensation_required" (overdue now r) b backed (ground (arith, o)),
)

advance_found-Returns :
    (now : ℕ) (id : String) (s : Store) (found : Option PaidCheckoutCapacityRecovery)
    → get s.paid_checkout_capacity_recoveries id ≡ found
    → Backed s
    → Returns (advance_found now id s found)
unfolding advance_found
advance_found-Returns now id s none e backed = ((none, refl), backed)
advance_found-Returns now id s (some r) e backed =
    elim (Bool-cases (not (is_pending r.state) || ltb now r.compensation_deadline_at)) [
      | inl b ↦ rw b ((some r, refl), backed)
      | inr b ↦ rw b (
          advance_with-Returns now id s r (get s.subscriptions id) backed
            (ground (arith, b, backed id r e)))
    ]

mark_with-Returns :
    (now : ℕ) (id reference : String) (s : Store) (r : PaidCheckoutCapacityRecovery)
    (found : Option StoredSubscription)
    → Backed s
    → obliged "compensation_required" r found ≡ true
    → Returns (mark_with now id reference s r found)
unfolding mark_with
mark_with-Returns now id reference s r none backed o = cc
mark_with-Returns now id reference s r (some b) backed o = rw o (
  (some (settled now reference r), refl),
  put_recovery-Backed s id "canceled" (settled now reference r) b backed (ground (arith, o)),
)

mark_found-Returns :
    (now : ℕ) (id reference : String) (s : Store) (found : Option PaidCheckoutCapacityRecovery)
    → get s.paid_checkout_capacity_recoveries id ≡ found
    → Backed s
    → Returns (mark_found now id reference s found)
unfolding mark_found
mark_found-Returns now id reference s none e backed = ((none, refl), backed)
mark_found-Returns now id reference s (some r) e backed =
    elim (Bool-cases (not (is_compensation_required r.state) || str_eq reference "")) [
      | inl b ↦ rw b ((none, refl), backed)
      | inr b ↦ rw b (
          mark_with-Returns now id reference s r (get s.subscriptions id) backed
            (ground (arith, b, backed id r e)))
    ]

-- From a store in which every open recovery has its subscription, neither the advance of a recovery
-- nor the record of its compensation throws, and both keep every open recovery so.
pub steps_return :
    (now : ℕ) (id reference : String) (s : Store)
    → Backed s
    → Returns (advance_paid_checkout_capacity_recovery now id s)
      × Returns (mark_paid_checkout_capacity_compensated now id reference s)
unfolding advance_paid_checkout_capacity_recovery mark_paid_checkout_capacity_compensated
steps_return now id reference s backed = (
  advance_found-Returns now id s (get s.paid_checkout_capacity_recoveries id) refl backed,
  mark_found-Returns now id (trim reference) s (get s.paid_checkout_capacity_recoveries id) refl
      backed,
)
