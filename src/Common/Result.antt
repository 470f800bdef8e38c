-- ===== src/Common/Result.antt =====
-- Code that throws: `thrown` carries the message of the `Error`.
use Prim.Native.String.{String}
use mathlib.Core.Path.{◌≡◌, refl}
use mathlib.Core.Bool.{Bool, true, false}

pub data Result {ℓ} (A : Type ℓ) : Type ℓ where
  thrown : String → Result A
  returned : A → Result A

-- `if (bad) throw new Error(message)`
abbrev pub throw_if : Bool → String → Result (Unit {0})
throw_if bad message = elim bad [ true ↦ thrown message | false ↦ returned tt ]

-- What comes after a call is not reached if the call throws.
infixl 5 ◌>>=◌
abbrev pub ◌>>=◌ {ℓ κ} : {B : Type κ} {A : Type ℓ} → Result A → (A → Result B) → Result B
thrown message >>= next = thrown message
returned value >>= next = next value

infixl 5 ◌>>◌
abbrev pub ◌>>◌ {κ} : {B : Type κ} → Result (Unit {0}) → Result B → Result B
thrown message >> next = thrown message
returned _ >> next = next

pub >>=-eq-returned {ℓ κ} :
    {A : Type ℓ} {B : Type κ} (call : Result A) (next : A → Result B) {result : B}
    → (call >>= next) ≡ returned result
    → (value : A) × (call ≡ returned value) × (next value ≡ returned result)
>>=-eq-returned (thrown message) next h = cc
>>=-eq-returned (returned value) next h = (value, refl, h)

pub returned_inj {ℓ} : {A : Type ℓ} {a b : A} → returned a ≡ returned b → a ≡ b
returned_inj h = cc
