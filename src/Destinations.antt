-- ===== src/Destinations.antt =====
-- server/public-destination.ts: which IPv4 addresses a request to another host may go to.
pub mod Octets
mod Tests
use Prim.Native.Char.{code}
use Prim.Native.String
use managed_oss_cloud.Common.{
  ℕ, ◌+◌, ◌-◌, ◌*◌, ◌/◌, ◌%◌, ◌^◌, String, Bool, true, false, not, ◌&&◌, List, [], ◌∷◌, Option,
  none, some, leb, ◌==◌, any, if◌then◌else◌,
}
use managed_oss_cloud.Hostnames.{labels_of, str_length, all_chars}

abbrev is_digit : ℕ → Bool
is_digit c = leb 48 c && leb c 57

-- `Number(part)` of digits
abbrev pub value_of : ℕ → String → ℕ
value_of n String.[] = n
value_of n (String.◌∷◌ c s) = value_of (n * 10 + (code c - 48)) s

-- `/^\d{1,3}$/`, and at most 255
abbrev pub is_octet : String → Bool
is_octet part =
    leb 1 (str_length part)
    && leb (str_length part) 3
    && all_chars is_digit part
    && leb (value_of 0 part) 255

-- one step of the reduction, which wraps at 32 bits
abbrev pub shift_in : ℕ → String → ℕ
shift_in value part = (value * 256 + value_of 0 part) % 4294967296

abbrev pub number_of_parts : List String → Option ℕ
number_of_parts (a ∷ b ∷ c ∷ d ∷ []) =
    if is_octet a && is_octet b && is_octet c && is_octet d
    then some (shift_in (shift_in (shift_in (shift_in 0 a) b) c) d)
    else none
number_of_parts _ = none

abbrev pub ipv4_number : String → Option ℕ
ipv4_number address = number_of_parts (labels_of address)

-- `value & mask` for the mask of a prefix, which keeps the leading bits
abbrev pub leading : ℕ → ℕ → ℕ
leading value prefix = value / 2 ^ (32 - prefix) * 2 ^ (32 - prefix)

abbrev pub ipv4_in_cidr : ℕ → ℕ → ℕ → Bool
ipv4_in_cidr value base prefix =
    if prefix == 0 then true else leading value prefix == leading base prefix

abbrev pub blocked : List (String × ℕ)
blocked =
    ("0.0.0.0", 8)
    ∷ ("10.0.0.0", 8)
    ∷ ("100.64.0.0", 10)
    ∷ ("127.0.0.0", 8)
    ∷ ("169.254.0.0", 16)
    ∷ ("172.16.0.0", 12)
    ∷ ("192.0.0.0", 24)
    ∷ ("192.0.2.0", 24)
    ∷ ("192.88.99.0", 24)
    ∷ ("192.168.0.0", 16)
    ∷ ("198.18.0.0", 15)
    ∷ ("198.51.100.0", 24)
    ∷ ("203.0.113.0", 24)
    ∷ ("224.0.0.0", 4)
    ∷ ("240.0.0.0", 4)
    ∷ []

abbrev pub is_in : ℕ → String × ℕ → Bool
is_in value (base, prefix) = elim (ipv4_number base) [
  | none ↦ false
  | some number ↦ ipv4_in_cidr value number prefix
]

unfoldable pub is_global_public_ipv4 : String → Bool
is_global_public_ipv4 address = elim (ipv4_number address) [
  | none ↦ false
  | some value ↦ not (any (is_in value) blocked)
]
