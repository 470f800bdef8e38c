-- ===== src/Common/Sorted.antt =====
-- A sorted list has no element that the comparator would move in front of an earlier one, and a
-- search through it from the front meets a least hit.
use mathlib.Core.Path.{◌≡◌, refl, subst}
use mathlib.Core.Logic.{inl, inr}
use mathlib.Core.Bool.{Bool, true, false}
use mathlib.Core.Option.{none, some}
use mathlib.Core.List.{List, [], ◌∷◌, Memᴰ}
use native.Mathlib.Omega.{arith}
use Prim.Native.Nat.{ℕ, ◌+◌}
use managed_oss_cloud.Common.Tests.{Bool-cases}
use managed_oss_cloud.Common.Lists.{All, find, total}
use managed_oss_cloud.Common.Sort.{insert_sorted, sort}

module _ {ℓ κ} {A : Type ℓ} (P : A → Type κ) where
  pub All-insert_sorted :
      (before : A → A → Bool) (x : A) (ys : List A)
      → P x
      → All P ys
      → All P (insert_sorted before x ys)
  unfolding insert_sorted
  All-insert_sorted before x [] p h = (p, tt)
  All-insert_sorted before x (y ∷ ys) p h = elim (Bool-cases (before y x)) [
    | inl b ↦ rw b (h.0, All-insert_sorted before x ys p h.1)
    | inr b ↦ rw b (p, h)
  ]

  pub All-sort : (before : A → A → Bool) (xs : List A) → All P xs → All P (sort before xs)
  unfolding sort
  All-sort before [] h = tt
  All-sort before (x ∷ xs) h =
      All-insert_sorted before x (sort before xs) h.0 (All-sort before xs h.1)

  pub All-of_Mem : (xs : List A) → ((x : A) → Memᴰ x xs → P x) → All P xs
  All-of_Mem [] h = tt
  All-of_Mem (x ∷ xs) h = (h x (Memᴰ.head refl), All-of_Mem xs (λ y m. h y (Memᴰ.tail m)))

module _ {ℓ} {A : Type ℓ} where
  pub total-insert_sorted :
      (before : A → A → Bool) (f : A → ℕ) (x : A) (ys : List A)
      → total f (insert_sorted before x ys) ≡ f x + total f ys
  unfolding insert_sorted
  total-insert_sorted before f x [] = refl
  total-insert_sorted before f x (y ∷ ys) = elim (Bool-cases (before y x)) [
    | inl b ↦ rw b (omega (arith, total-insert_sorted before f x ys))
    | inr b ↦ rw b
  ]

  pub total-sort :
      (before : A → A → Bool) (f : A → ℕ) (xs : List A) → total f (sort before xs) ≡ total f xs
  unfolding sort
  total-sort before f [] = refl
  total-sort before f (x ∷ xs) =
      omega (arith, total-insert_sorted before f x (sort before xs), total-sort before f xs)

  -- `find` returns an element of the list that passes the test.
  pub find-passes : (p : A → Bool) (xs : List A) (a : A) → find p xs ≡ some a → p a ≡ true
  find-passes p [] a h = cc
  find-passes p (x ∷ xs) a h = elim (Bool-cases (p x)) [
    | inl b ↦ ground arith
    | inr b ↦ find-passes p xs a (ground arith)
  ]

  pub find-All {κ} :
      (P : A → Type κ) (p : A → Bool) (xs : List A) (a : A) → All P xs → find p xs ≡ some a → P a
  find-All P p [] a q h = cc
  find-All P p (x ∷ xs) a q h = elim (Bool-cases (p x)) [
    | inl b ↦ let e : x ≡ a = ground arith in rw (← e) q.0
    | inr b ↦ find-All P p xs a q.1 (ground arith)
  ]

  -- It returns nothing only if no element passes.
  pub find-none : (p : A → Bool) (xs : List A) → find p xs ≡ none → All (λ x. p x ≡ false) xs
  find-none p [] h = tt
  find-none p (x ∷ xs) h = elim (Bool-cases (p x)) [
    | inl b ↦ ground arith
    | inr b ↦ (b, find-none p xs (ground arith))
  ]

module _ {ℓ} {A : Type ℓ} (before : A → A → Bool)
    (asym : (x y : A) → before x y ≡ true → before y x ≡ false)
    (trans : (x y z : A) → before y x ≡ false → before z y ≡ false → before z x ≡ false) where
  -- No later element goes strictly in front of an earlier one.
  abbrev pub IsSorted : List A → Type ℓ
  IsSorted [] = Unit
  IsSorted (x ∷ xs) = All (λ y. before y x ≡ false) xs × IsSorted xs

  All-weaken :
      (x y : A) (ys : List A)
      → before y x ≡ false
      → All (λ z. before z y ≡ false) ys
      → All (λ z. before z x ≡ false) ys
  All-weaken x y [] b h = tt
  All-weaken x y (z ∷ ys) b h = (trans x y z b h.0, All-weaken x y ys b h.1)

  insert_sorted-IsSorted :
      (x : A) (ys : List A) → IsSorted ys → IsSorted (insert_sorted before x ys)
  unfolding insert_sorted
  insert_sorted-IsSorted x [] h = (tt, tt)
  insert_sorted-IsSorted x (y ∷ ys) h = elim (Bool-cases (before y x)) [
    | inl b ↦ rw b (
      All-insert_sorted (λ z. before z y ≡ false) before x ys (asym y x b) h.0,
      insert_sorted-IsSorted x ys h.1,
    )
    | inr b ↦ rw b ((b, All-weaken x y ys b h.0), h)
  ]

  pub sort-IsSorted : (xs : List A) → IsSorted (sort before xs)
  unfolding sort
  sort-IsSorted [] = tt
  sort-IsSorted (x ∷ xs) = insert_sorted-IsSorted x (sort before xs) (sort-IsSorted xs)

  irrefl : (x : A) → before x x ≡ false
  irrefl x = elim (Bool-cases (before x x)) [ inl b ↦ asym x x b | inr b ↦ b ]

  at_front :
      (p : A → Bool) (x : A) (xs : List A)
      → All (λ y. before y x ≡ false) xs
      → All (λ z. p z ≡ true → before z x ≡ false) xs
  at_front p x [] h = tt
  at_front p x (y ∷ xs) h = ((λ _. h.0), at_front p x xs h.1)

  -- The first hit in a sorted list is a least one.
  pub find_least :
      (p : A → Bool) (xs : List A) (a : A)
      → IsSorted xs
      → find p xs ≡ some a
      → All (λ z. p z ≡ true → before z a ≡ false) xs
  find_least p [] a s h = cc
  find_least p (x ∷ xs) a s h = elim (Bool-cases (p x)) [
    | inl b ↦
        let e : x ≡ a = ground arith in
        subst (λ w. All (λ z. p z ≡ true → before z w ≡ false) (x ∷ xs)) e
          ((λ _. irrefl x), at_front p x xs s.0)
    | inr b ↦ ((λ q. cc), find_least p xs a s.1 (ground arith))
  ]

module _ {ℓ κ} {A : Type ℓ} (P : A → Type κ) where
  All-of_insert_sorted :
      (before : A → A → Bool) (x : A) (ys : List A)
      → All P (insert_sorted before x ys)
      → P x × All P ys
  unfolding insert_sorted
  All-of_insert_sorted before x [] h = (h.0, tt)
  All-of_insert_sorted before x (y ∷ ys) h = elim (Bool-cases (before y x)) [
    | inl b ↦
        let k : P y × All P (insert_sorted before x ys) = rw b at h in
        let r = All-of_insert_sorted before x ys k.1 in (r.0, (k.0, r.1))
    | inr b ↦ rw b at h
  ]

  -- What holds of all elements of the sorted list holds of all elements of the list.
  pub All-of_sort : (before : A → A → Bool) (xs : List A) → All P (sort before xs) → All P xs
  unfolding sort
  All-of_sort before [] h = tt
  All-of_sort before (x ∷ xs) h =
      let r = All-of_insert_sorted before x (sort before xs) h in (r.0, All-of_sort before xs r.1)
