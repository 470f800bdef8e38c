-- ===== src/Common/Members.antt =====
-- Members of lists that are filtered, mapped and searched, and of the values of a map.
use mathlib.Core.Path.{◌≡◌, refl, sym, subst}
use mathlib.Core.Logic.{inl, inr}
use mathlib.Core.Bool.{Bool, true}
use mathlib.Core.Option.{some}
use mathlib.Core.List.{List, [], ◌∷◌, Memᴰ, map}
use Prim.Native.String.{String}
use native.Mathlib.Omega.{arith}
use managed_oss_cloud.Common.Tests.{Bool-cases, some_inj}
use managed_oss_cloud.Common.Lists.{All, All-implies, any, any-find, keep}
use managed_oss_cloud.Common.Sorted.{find-passes, find-All, All-of_Mem}
use managed_oss_cloud.Common.Texts.{str_eq}
use managed_oss_cloud.Common.Dict.{Dict, get, values}

module _ {ℓ} {A : Type ℓ} where
  pub All-Mem {κ} : (P : A → Type κ) (xs : List A) (x : A) → All P xs → Memᴰ x xs → P x
  All-Mem P [] x a m = elim m [ ]
  All-Mem P (y ∷ ys) x a (Memᴰ.head e) = subst P (sym e) a.0
  All-Mem P (y ∷ ys) x a (Memᴰ.tail m) = All-Mem P ys x a.1 m

  module _ (p : A → Bool) where
    -- What survives a filter is a member that passes the test.
    pub keep-Mem : (xs : List A) → All (λ x. Memᴰ x xs × (p x ≡ true)) (keep p xs)
    keep-Mem [] = tt
    keep-Mem (x ∷ xs) =
        let later =
          All-implies (λ y. Memᴰ y xs × (p y ≡ true)) (λ y. Memᴰ y (x ∷ xs) × (p y ≡ true))
            (keep p xs) (λ y m. (Memᴰ.tail m.0, m.1)) (keep-Mem xs) in
        elim (Bool-cases (p x)) [ inl b ↦ rw b ((Memᴰ.head refl, b), later) | inr b ↦ rw b later ]

    pub Mem-keep : (xs : List A) (x : A) → Memᴰ x xs → p x ≡ true → Memᴰ x (keep p xs)
    Mem-keep [] x m h = elim m [ ]
    Mem-keep (y ∷ ys) x (Memᴰ.head e) h =
        let k : p y ≡ true = subst (λ z. p z ≡ true) e h in rw k (Memᴰ.head e)
    Mem-keep (y ∷ ys) x (Memᴰ.tail m) h = elim (Bool-cases (p y)) [
      | inl b ↦ rw b (Memᴰ.tail (Mem-keep ys x m h))
      | inr b ↦ rw b (Mem-keep ys x m h)
    ]

    pub any-Mem : (xs : List A) → any p xs ≡ true → (x : A) × Memᴰ x xs × (p x ≡ true)
    any-Mem xs h =
        let (x, e) = any-find p xs h in
        (
          x,
          find-All (λ y. Memᴰ y xs) p xs x (All-of_Mem (λ y. Memᴰ y xs) xs (λ y m. m)) e,
          find-passes p xs x e,
        )

    pub Mem-any : (xs : List A) (x : A) → Memᴰ x xs → p x ≡ true → any p xs ≡ true
    Mem-any [] x m h = elim m [ ]
    Mem-any (y ∷ ys) x (Memᴰ.head e) h =
        let k : p y ≡ true = subst (λ z. p z ≡ true) e h in rw k refl
    Mem-any (y ∷ ys) x (Memᴰ.tail m) h = let later = Mem-any ys x m h in ground (arith, later)

pub All-of_map {ℓ κ μ} :
    {A : Type ℓ} {B : Type κ} (P : B → Type μ) (f : A → B) (xs : List A)
    → All P (map f xs)
    → All (λ x. P (f x)) xs
All-of_map P f [] h = tt
All-of_map P f (x ∷ xs) h = (h.0, All-of_map P f xs h.1)

pub get-Mem {ℓ} :
    {V : Type ℓ} (m : Dict V) (k : String) (v : V) → get m k ≡ some v → Memᴰ v (values m)
unfolding get values
get-Mem [] k v h = cc
get-Mem ((j, w) ∷ m) k v h = elim (Bool-cases (str_eq j k)) [
  | inl b ↦ let e : some w ≡ some v = rw b at h in Memᴰ.head (sym (some_inj e))
  | inr b ↦ Memᴰ.tail (get-Mem m k v (rw b at h))
]
