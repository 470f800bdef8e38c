-- ===== src/Common/Dict.antt =====
-- A JavaScript `Map` with text keys: an association list in the order of insertion.
use managed_oss_cloud.Common.Tests.{if◌then◌else◌}
use managed_oss_cloud.Common.Texts.{str_eq}
use Prim.Native.Nat.{ℕ, ◌+◌, ◌≤◌}
use Prim.Native.String.{String}
use managed_oss_cloud.Common.Lists.{total, any}
use mathlib.Core.Path.{◌≡◌, refl, ap, ◌∙◌}
use mathlib.Core.Bool.{Bool, true, false, ◌||◌}
use mathlib.Core.Option.{Option, none, some}
use mathlib.Core.List.{List, [], ◌∷◌}
use native.Mathlib.Omega.{arith}
use text.Mathlib.TextEquality.{eq_iff}
use text.Mathlib.TextPositions.{eq_refl}

abbrev pub Dict {ℓ} : Type ℓ → Type ℓ
Dict V = List (String × V)

module _ {ℓ} {V : Type ℓ} where
  unfoldable pub get : Dict V → String → Option V
  get [] k = none
  get ((j, v) ∷ m) k = if str_eq j k then some v else get m k

  unfoldable pub has : Dict V → String → Bool
  has [] k = false
  has ((j, v) ∷ m) k = str_eq j k || has m k

  -- An existing key keeps its place.
  unfoldable pub set : Dict V → String → V → Dict V
  set [] k v = (k, v) ∷ []
  set ((j, w) ∷ m) k v = if str_eq j k then (j, v) ∷ m else (j, w) ∷ set m k v

  unfoldable pub values : Dict V → List V
  values [] = []
  values ((j, v) ∷ m) = v ∷ values m

  -- A write to every value, as a loop over `values()` that assigns fields makes.
  unfoldable pub update_all : (V → V) → Dict V → Dict V
  update_all f [] = []
  update_all f ((j, v) ∷ m) = (j, f v) ∷ update_all f m

  pub get-set :
      (m : Dict V) (k j : String) (v : V)
      → get (set m k v) j ≡ (if str_eq k j then some v else get m j)
  unfolding get set
  get-set [] k j v = refl
  get-set ((i, w) ∷ m) k j v = ground (arith, eq_iff k j, eq_iff i k, eq_iff i j, get-set m k j v)

  pub get-update_all :
      (f : V → V) (m : Dict V) (k : String)
      → get (update_all f m) k ≡ (elim (get m k) [ none ↦ none | some v ↦ some (f v) ])
  unfolding get update_all
  get-update_all f [] k = refl
  get-update_all f ((j, v) ∷ m) k = ground (arith, get-update_all f m k)

  abbrev pub measure_of : (V → ℕ) → Option V → ℕ
  measure_of f none = 0
  measure_of f (some v) = f v

  -- A write adds the new value to a sum over the values and takes the old one out.
  pub total-set :
      (f : V → ℕ) (m : Dict V) (k : String) (v : V)
      → total f (values (set m k v)) + measure_of f (get m k) ≡ total f (values m) + f v
  unfolding get set values
  total-set f [] k v = omega arith
  total-set f ((j, w) ∷ m) k v = ground (arith, total-set f m k v)

  pub total-update_all :
      (f : V → ℕ) (g : V → V) (m : Dict V)
      → ((v : V) → f (g v) ≤ f v)
      → total f (values (update_all g m)) ≤ total f (values m)
  unfolding values update_all
  total-update_all f g [] h = omega arith
  total-update_all f g ((j, v) ∷ m) h = omega (arith, h v, total-update_all f g m h)

  pub has-get : (m : Dict V) (k : String) (v : V) → get m k ≡ some v → has m k ≡ true
  unfolding get has
  has-get [] k v h = cc
  has-get ((j, w) ∷ m) k v h = ground (arith, has-get m k v)

  -- A test that no value passes fails at each value that is there.
  pub none-get :
      (p : V → Bool) (m : Dict V) (k : String) (v : V)
      → any p (values m) ≡ false
      → get m k ≡ some v
      → p v ≡ false
  unfolding get values
  none-get p [] k v a h = cc
  none-get p ((j, w) ∷ m) k v a h = ground (arith, none-get p m k v)

  pub has-set : (m : Dict V) (k j : String) (v : V) → has (set m k v) j ≡ (str_eq k j || has m j)
  unfolding has set
  has-set [] k j v = refl
  has-set ((i, w) ∷ m) k j v = ground (arith, eq_iff k j, eq_iff i k, eq_iff i j, has-set m k j v)

  -- A write satisfies no test that the new value and the old ones fail,
  pub any-set-none :
      (p : V → Bool) (m : Dict V) (k : String) (v : V)
      → any p (values m) ≡ false
      → p v ≡ false
      → any p (values (set m k v)) ≡ false
  unfolding set values
  any-set-none p [] k v a h = ground arith
  any-set-none p ((j, w) ∷ m) k v a h = ground (arith, any-set-none p m k v)

  -- every test that the new value passes,
  pub any-set-new :
      (p : V → Bool) (m : Dict V) (k : String) (v : V)
      → p v ≡ true
      → any p (values (set m k v)) ≡ true
  unfolding set values
  any-set-new p [] k v h = ground arith
  any-set-new p ((j, w) ∷ m) k v h = ground (arith, any-set-new p m k v)

  -- and under a new key the tests that were satisfied.
  pub any-set-old :
      (p : V → Bool) (m : Dict V) (k : String) (v : V)
      → has m k ≡ false
      → any p (values m) ≡ true
      → any p (values (set m k v)) ≡ true
  unfolding has set values
  any-set-old p [] k v n h = cc
  any-set-old p ((j, w) ∷ m) k v n h = ground (arith, any-set-old p m k v)

  pub any-update_all :
      (p : V → Bool) (f : V → V) (m : Dict V)
      → ((v : V) → p (f v) ≡ false)
      → any p (values (update_all f m)) ≡ false
  unfolding values update_all
  any-update_all p f [] h = refl
  any-update_all p f ((j, v) ∷ m) h = rw (h v) (any-update_all p f m h)

  pub has-update_all : (f : V → V) (m : Dict V) (k : String) → has (update_all f m) k ≡ has m k
  unfolding has update_all
  has-update_all f [] k = refl
  has-update_all f ((j, v) ∷ m) k = ap (λ b. str_eq j k || b) (has-update_all f m k)

  pub get-set_same : (m : Dict V) (k : String) (v : V) → get (set m k v) k ≡ some v
  get-set_same m k v = get-set m k k v ∙ rw (eq_refl k) refl
