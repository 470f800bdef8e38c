-- ===== src/Common/Number.antt =====
-- JavaScript numbers. The sum of whole numbers is defined here with its rounding; numbers that need
-- not be whole stand behind the operations that the program applies to them, as a parameter.
use Prim.Native.Nat.{ℕ, zero, suc, ◌+◌, ◌-◌, ◌*◌, ◌/◌, ◌%◌, ◌≤◌}
use mathlib.Core.Path.{◌≡◌, refl}
use mathlib.Core.Bool.{Bool, ◌&&◌, ◌||◌}
use mathlib.Core.Option.{Option, none, some}
use native.Mathlib.Omega.{arith}
use managed_oss_cloud.Common.Tests.{leb, ltb, ◌==◌, if◌then◌else◌}

pub record NumberOps : Type 1 where
  pub Num : Type 0
  pub of_ℕ : ℕ → Num
  pub mul : Num → Num → Num
  pub div : Num → Num → Num
  -- `Math.ceil` of a number that is not negative
  pub ceil : Num → ℕ
  pub le : Num → Num → Bool
  pub lt : Num → Num → Bool
  -- the value, where `Number.isSafeInteger(value) && value >= 0`
  pub safe_integer : Num → Option ℕ

-- Exact fractions, to run the model: numerator and denominator.
abbrev pub fractions : NumberOps
fractions = record {
  Num = ℕ × ℕ;
  of_ℕ = λ n. (n, 1);
  mul = λ a b. (a.0 * b.0, a.1 * b.1);
  div = λ a b. (a.0 * b.1, a.1 * b.0);
  ceil = λ a. (a.0 + (a.1 - 1)) / a.1;
  le = λ a b. leb (a.0 * b.1) (b.0 * a.1);
  lt = λ a b. ltb (a.0 * b.1) (b.0 * a.1);
  safe_integer = λ a.
      if a.0 % a.1 == 0
      then (if leb (a.0 / a.1) 9007199254740991 then some (a.0 / a.1) else none)
      else none;
}

-- 2 ^ 53, up to which every whole number is a double
abbrev pub max_exact : ℕ
max_exact = 9007199254740992

-- The distance between doubles at `n`, a power of two: the least one from `unit` on, among as many
-- as `fuel` allows, of which `n` is at most 2 ^ 53 times.
spacing : ℕ → ℕ → ℕ → ℕ
spacing zero unit n = unit
spacing (suc fuel) unit n =
    let wider = spacing fuel (2 * unit) n in if leb n (max_exact * unit) then unit else wider

-- The multiple of `unit` next to `n`, and of two that are as near the even one.
to_multiple : ℕ → ℕ → ℕ
to_multiple unit n =
    let below = n / unit in
    let beyond = 2 * (n % unit) in
    if ltb beyond unit || (beyond == unit && below % 2 == 0)
    then below * unit
    else (below + 1) * unit

-- `a + b` of whole numbers, rounded to a double. From safe integers a sum would need more summands
-- than an array has to go beyond the spacing 2 ^ 40.
unfoldable pub add_number : ℕ → ℕ → ℕ
unfolding spacing to_multiple
add_number a b = if leb (a + b) max_exact then a + b else to_multiple (spacing 40 1 (a + b)) (a + b)

pub add_number-exact : (a b : ℕ) → a + b ≤ max_exact → add_number a b ≡ a + b
unfolding add_number
add_number-exact a b h = ground arith

-- halfway between two doubles, the even one; above it, the next
add_number_runs :
    (add_number 9007199254740991 2 ≡ 9007199254740992)
    × (add_number 9007199254740992 3 ≡ 9007199254740996)
    × (add_number 18014398509481984 6 ≡ 18014398509481992)
unfolding add_number
add_number_runs = (refl, refl, refl)
