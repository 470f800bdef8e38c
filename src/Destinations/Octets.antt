-- ===== src/Destinations/Octets.antt =====
-- The number of an address, and the blocks that are refused, by octets.
use managed_oss_cloud.Common.{
  ℕ, ◌+◌, ◌*◌, ◌≤◌, ◌<◌, String, Bool, true, not, ◌&&◌, [], ◌∷◌, some, ◌≡◌, refl, ap, arith, leb,
  ◌==◌, any, and-parts,
}
use managed_oss_cloud.Hostnames.{labels_of}
use managed_oss_cloud.Destinations.{
  is_octet, value_of, shift_in, ipv4_number, is_in, blocked, is_global_public_ipv4,
}

-- the number with these octets
abbrev pub number : ℕ → ℕ → ℕ → ℕ → ℕ
number a b c d = ((a * 256 + b) * 256 + c) * 256 + d

-- An address of four octets
pub record IsDotted (address a b c d : String) : Type 0 where
  pub parts : labels_of address ≡ a ∷ b ∷ c ∷ d ∷ []
  pub octets : (is_octet a && is_octet b && is_octet c && is_octet d) ≡ true

-- The blocks of addresses that are not public, by their octets
abbrev pub is_reserved : ℕ → ℕ → ℕ → ℕ → Bool
is_reserved a b c d =
    any (λ inside. inside)
      ((a == 0)
        ∷ (a == 10)
        ∷ (a == 100 && leb 64 b && leb b 127)
        ∷ (a == 127)
        ∷ (a == 169 && b == 254)
        ∷ (a == 172 && leb 16 b && leb b 31)
        ∷ (a == 192 && b == 0 && c == 0)
        ∷ (a == 192 && b == 0 && c == 2)
        ∷ (a == 192 && b == 88 && c == 99)
        ∷ (a == 192 && b == 168)
        ∷ (a == 198 && leb 18 b && leb b 19)
        ∷ (a == 198 && b == 51 && c == 100)
        ∷ (a == 203 && b == 0 && c == 113)
        ∷ (leb 224 a && leb a 239)
        ∷ leb 240 a
        ∷ [])

module _ (a b c d : ℕ) (ha : a ≤ 255) (hb : b ≤ 255) (hc : c ≤ 255) (hd : d ≤ 255) where
  in_0_0_0_0 : is_in (number a b c d) ("0.0.0.0", 8) ≡ (a == 0)
  in_0_0_0_0 = ground arith

  in_10_0_0_0 : is_in (number a b c d) ("10.0.0.0", 8) ≡ (a == 10)
  in_10_0_0_0 = ground arith

  in_100_64_0_0 : is_in (number a b c d) ("100.64.0.0", 10) ≡ (a == 100 && leb 64 b && leb b 127)
  in_100_64_0_0 = ground arith

  in_127_0_0_0 : is_in (number a b c d) ("127.0.0.0", 8) ≡ (a == 127)
  in_127_0_0_0 = ground arith

  in_169_254_0_0 : is_in (number a b c d) ("169.254.0.0", 16) ≡ (a == 169 && b == 254)
  in_169_254_0_0 = ground arith

  in_172_16_0_0 : is_in (number a b c d) ("172.16.0.0", 12) ≡ (a == 172 && leb 16 b && leb b 31)
  in_172_16_0_0 = ground arith

  in_192_0_0_0 : is_in (number a b c d) ("192.0.0.0", 24) ≡ (a == 192 && b == 0 && c == 0)
  in_192_0_0_0 = ground arith

  in_192_0_2_0 : is_in (number a b c d) ("192.0.2.0", 24) ≡ (a == 192 && b == 0 && c == 2)
  in_192_0_2_0 = ground arith

  in_192_88_99_0 : is_in (number a b c d) ("192.88.99.0", 24) ≡ (a == 192 && b == 88 && c == 99)
  in_192_88_99_0 = ground arith

  in_192_168_0_0 : is_in (number a b c d) ("192.168.0.0", 16) ≡ (a == 192 && b == 168)
  in_192_168_0_0 = ground arith

  in_198_18_0_0 : is_in (number a b c d) ("198.18.0.0", 15) ≡ (a == 198 && leb 18 b && leb b 19)
  in_198_18_0_0 = ground arith

  in_198_51_100_0 : is_in (number a b c d) ("198.51.100.0", 24) ≡ (a == 198 && b == 51 && c == 100)
  in_198_51_100_0 = ground arith

  in_203_0_113_0 : is_in (number a b c d) ("203.0.113.0", 24) ≡ (a == 203 && b == 0 && c == 113)
  in_203_0_113_0 = ground arith

  in_224_0_0_0 : is_in (number a b c d) ("224.0.0.0", 4) ≡ (leb 224 a && leb a 239)
  in_224_0_0_0 = ground arith

  in_240_0_0_0 : is_in (number a b c d) ("240.0.0.0", 4) ≡ (leb 240 a)
  in_240_0_0_0 = ground arith

  in_blocked : any (is_in (number a b c d)) blocked ≡ is_reserved a b c d
  in_blocked =
      rw
        (
          in_0_0_0_0, in_10_0_0_0, in_100_64_0_0, in_127_0_0_0, in_169_254_0_0, in_172_16_0_0,
          in_192_0_0_0, in_192_0_2_0, in_192_88_99_0, in_192_168_0_0, in_198_18_0_0,
          in_198_51_100_0, in_203_0_113_0, in_224_0_0_0, in_240_0_0_0,
        )
        refl

shifts :
    (a b c d : String)
    → (is_octet a && is_octet b && is_octet c && is_octet d) ≡ true
    → shift_in (shift_in (shift_in (shift_in 0 a) b) c) d
      ≡ number (value_of 0 a) (value_of 0 b) (value_of 0 c) (value_of 0 d)
shifts a b c d h = ground arith

octet-bound : (s : String) → is_octet s ≡ true → value_of 0 s ≤ 255
octet-bound s h = ground arith

octets-bounds :
    (a b c d : String)
    → (is_octet a && is_octet b && is_octet c && is_octet d) ≡ true
    → (value_of 0 a ≤ 255) × (value_of 0 b ≤ 255) × (value_of 0 c ≤ 255) × (value_of 0 d ≤ 255)
octets-bounds a b c d h =
    let (h', u) = and-parts (is_octet a && is_octet b && is_octet c) (is_octet d) h in
    let (h'', z) = and-parts (is_octet a && is_octet b) (is_octet c) h' in
    let (x, y) = and-parts (is_octet a) (is_octet b) h'' in
    (octet-bound a x, octet-bound b y, octet-bound c z, octet-bound d u)

number-bound : (a b c d : ℕ) → a ≤ 255 → b ≤ 255 → c ≤ 255 → d ≤ 255 → number a b c d < 4294967296
number-bound a b c d ha hb hc hd = omega arith

module _ (address a b c d : String) (dotted : IsDotted address a b c d) where
  -- An address of four octets has the number with these octets, in base 256, which fits in 32 bits:
  -- the reduction never wraps.
  pub ipv4_number-exact :
      let n = number (value_of 0 a) (value_of 0 b) (value_of 0 c) (value_of 0 d) in
      (ipv4_number address ≡ some n) × (n < 4294967296)
  ipv4_number-exact =
      let (ha, hb, hc, hd) = octets-bounds a b c d dotted.octets in
      (
        rw (dotted.parts, dotted.octets) (ap some (shifts a b c d dotted.octets)),
        number-bound (value_of 0 a) (value_of 0 b) (value_of 0 c) (value_of 0 d) ha hb hc hd,
      )

  -- An address of four octets is public exactly if its octets are in none of the reserved blocks.
  pub public_iff_unreserved :
      is_global_public_ipv4 address
      ≡ not (is_reserved (value_of 0 a) (value_of 0 b) (value_of 0 c) (value_of 0 d))
  unfolding is_global_public_ipv4
  public_iff_unreserved =
      let (ha, hb, hc, hd) = octets-bounds a b c d dotted.octets in
      rw (ipv4_number-exact.0, is_global_public_ipv4)
        (ap not
          (in_blocked (value_of 0 a) (value_of 0 b) (value_of 0 c) (value_of 0 d) ha hb hc hd))
