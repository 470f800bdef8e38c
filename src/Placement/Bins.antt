-- ===== src/Placement/Bins.antt =====
-- One placement takes from one bin exactly what is reserved, and only if it fits.
use mathlib.Core.Path.{subst}
use native.Mathlib.Nat.{add-zero, zero-add}
use managed_oss_cloud.Common.{
  ℕ, zero, suc, ◌+◌, ◌≡◌, refl, String, Bool, true, List, [], ◌∷◌, some, arith, some_inj, str_eq,
  total, All, keep, if◌then◌else◌, get_elem?, Bool-cases, inl, inr, any, eq_refl,
}
use managed_oss_cloud.Common.Int.{ℤ, pos_part}
use managed_oss_cloud.Common.Sorted.{All-sort}
use managed_oss_cloud.Placement.{
  CheckoutCapacityReservation, Bin, fits, charge, tighter, indexed, candidates, charge_at, place_in,
  place,
}

-- One of the three resources: what a reservation asks of it and what a bin has left of it.
pub record Resource : Type 0 where
  pub asked : CheckoutCapacityReservation → ℕ
  pub left : Bin → ℤ
  pub fits_left :
      (r : CheckoutCapacityReservation) (b : Bin)
      → fits r b ≡ true
      → pos_part (left b) ≡ asked r + pos_part (left (charge r b))

abbrev Found : CheckoutCapacityReservation → List Bin → ℕ × Bin → Type 0
Found r bins c = (get_elem? bins c.0 ≡ some c.1) × (fits r c.1 ≡ true)

index_shift : (n k : ℕ) → n + suc k ≡ suc n + k
index_shift n k = omega arith

indexed-Found :
    (whole bins : List Bin) (n : ℕ)
    → ((k : ℕ) → get_elem? whole (n + k) ≡ get_elem? bins k)
    → All (λ c. get_elem? whole c.0 ≡ some c.1) (indexed n bins)
unfolding indexed
indexed-Found whole [] n h = tt
indexed-Found whole (b ∷ bins) n h = (
  (rw (add-zero n) at (h 0)),
  indexed-Found whole bins (suc n)
      (λ k. subst (λ j. get_elem? whole j ≡ get_elem? bins k) (index_shift n k) (h (suc k))),
)

keep-All :
    (P : ℕ × Bin → Type 0) (p : ℕ × Bin → Bool) (cs : List (ℕ × Bin))
    → All P cs
    → All (λ c. P c × (p c ≡ true)) (keep p cs)
keep-All P p [] h = tt
keep-All P p (c ∷ cs) h = elim (Bool-cases (p c)) [
  | inl b ↦ rw b ((h.0, b), keep-All P p cs h.1)
  | inr b ↦ rw b (keep-All P p cs h.1)
]

candidates-Found :
    (r : CheckoutCapacityReservation) (bins : List Bin) → All (Found r bins) (candidates r bins)
unfolding candidates
candidates-Found r bins = All-sort (Found r bins) (tighter r) _ (
    keep-All (λ c. get_elem? bins c.0 ≡ some c.1) (λ c. fits r c.1) (indexed 0 bins)
      (indexed-Found bins bins 0 (λ k. rw zero-add)))

-- What the bins of worker `w` have left of a resource.
abbrev pub room : Resource → String → List Bin → ℕ
room res w bins =
    total (λ (b : Bin). if str_eq b.worker_id w then pos_part (res.left b) else 0) bins

-- What one reservation takes from worker `w` if it goes to worker `v`.
abbrev pub share : Resource → String → String → CheckoutCapacityReservation → ℕ
share res w v r = if str_eq v w then res.asked r else 0

charge_first-room :
    (res : Resource) (w : String) (r : CheckoutCapacityReservation) (x : Bin) (bins : List Bin)
    → fits r x ≡ true
    → room res w (x ∷ bins) ≡ share res w x.worker_id r + room res w (charge r x ∷ bins)
charge_first-room res w r x bins f = elim (Bool-cases (str_eq x.worker_id w)) [
  | inl b ↦ rw b (omega (arith, res.fits_left r x f))
  | inr b ↦ rw b (omega arith)
]

charge_at-room :
    (res : Resource) (w : String) (r : CheckoutCapacityReservation) (bins : List Bin) (i : ℕ)
    (b : Bin)
    → get_elem? bins i ≡ some b
    → fits r b ≡ true
    → room res w bins ≡ share res w b.worker_id r + room res w (charge_at r bins i)
unfolding charge_at
charge_at-room res w r [] i b e f = cc
charge_at-room res w r (x ∷ bins) zero b e f =
    let same : x ≡ b = some_inj e in
    subst
      (λ (c : Bin).
        room res w (x ∷ bins) ≡ share res w c.worker_id r + room res w (charge r x ∷ bins))
      same (charge_first-room res w r x bins (rw (← same) at f))
charge_at-room res w r (x ∷ bins) (suc i) b e f = omega (arith, charge_at-room res w r bins i b e f)

place_in-room :
    (res : Resource) (w v : String) (r : CheckoutCapacityReservation) (bins bins' : List Bin)
    (cs : List (ℕ × Bin))
    → All (Found r bins) cs
    → place_in r bins cs ≡ some (bins', v)
    → room res w bins ≡ share res w v r + room res w bins'
unfolding place_in
place_in-room res w v r bins bins' [] h e = cc
place_in-room res w v r bins bins' ((i, b) ∷ cs) h e =
    let same = some_inj e in
    subst (λ (t : List Bin × String). room res w bins ≡ share res w t.1 r + room res w t.0) same
      (charge_at-room res w r bins i b h.0.0 h.0.1)

-- A placement takes the reservation from the worker that it names, and nothing from the others.
pub place-room :
    (res : Resource) (w v : String) (r : CheckoutCapacityReservation) (bins bins' : List Bin)
    → place r bins ≡ some (bins', v)
    → room res w bins ≡ share res w v r + room res w bins'
unfolding place
place-room res w v r bins bins' e =
    place_in-room res w v r bins bins' (candidates r bins) (candidates-Found r bins) e

-- Which workers have bins does not change, and the worker chosen has one.
abbrev pub has_bin : String → List Bin → Bool
has_bin w bins = any (λ (b : Bin). str_eq b.worker_id w) bins

charge_at-has_bin :
    (w : String) (r : CheckoutCapacityReservation) (bins : List Bin) (i : ℕ)
    → has_bin w (charge_at r bins i) ≡ has_bin w bins
unfolding charge_at
charge_at-has_bin w r [] i = refl
charge_at-has_bin w r (x ∷ bins) zero = refl
charge_at-has_bin w r (x ∷ bins) (suc i) = rw (charge_at-has_bin w r bins i)

elem-has_bin :
    (bins : List Bin) (i : ℕ) (b : Bin)
    → get_elem? bins i ≡ some b
    → has_bin b.worker_id bins ≡ true
elem-has_bin [] i b e = cc
elem-has_bin (x ∷ bins) zero b e = let same : x ≡ b = some_inj e in rw (same, eq_refl b.worker_id)
elem-has_bin (x ∷ bins) (suc i) b e = ground (arith, elem-has_bin bins i b e)

place_in-has_bin :
    (r : CheckoutCapacityReservation) (bins bins' : List Bin) (v : String) (cs : List (ℕ × Bin))
    → All (Found r bins) cs
    → place_in r bins cs ≡ some (bins', v)
    → (has_bin v bins ≡ true) × ((w : String) → has_bin w bins' ≡ has_bin w bins)
unfolding place_in
place_in-has_bin r bins bins' v [] h e = cc
place_in-has_bin r bins bins' v ((i, b) ∷ cs) h e =
    subst
      (λ (t : List Bin × String).
        (has_bin t.1 bins ≡ true) × ((w : String) → has_bin w t.0 ≡ has_bin w bins))
      (some_inj e) (elem-has_bin bins i b h.0.0, λ w. charge_at-has_bin w r bins i)

pub place-has_bin :
    (r : CheckoutCapacityReservation) (bins bins' : List Bin) (v : String)
    → place r bins ≡ some (bins', v)
    → (has_bin v bins ≡ true) × ((w : String) → has_bin w bins' ≡ has_bin w bins)
unfolding place
place-has_bin r bins bins' v e =
    place_in-has_bin r bins bins' v (candidates r bins) (candidates-Found r bins) e
