-- ===== src/Hostnames.antt =====
-- server/hostname-claims.ts: hostnames as customers write them, and the registry in which each
-- hostname is claimed once, `MemoryHostnameClaimRegistry`.
pub mod Normal
pub mod Registry
pub mod Sound
mod Tests
use Prim.Native.Char.{Char, code}
use Prim.Native.String
use managed_oss_cloud.Common.{
  ℕ, zero, suc, ◌-◌, String, Bool, true, false, not, ◌&&◌, ◌||◌, List, [], ◌∷◌, Option, none, some,
  ltb, leb, ◌==◌, any, all, trim, str_eq, one_of, if◌then◌else◌,
}
use managed_oss_cloud.Common.Dict.{Dict, get, set, has, values}
use managed_oss_cloud.Types.{OwnershipInstructions}
use managed_oss_cloud.Common.Result.{Result, thrown, returned, throw_if, ◌>>=◌, ◌>>◌}

pub data HostnameClaimSurface : Type 0 where
  application suite : HostnameClaimSurface

pub data HostnameClaimStatus : Type 0 where
  pending verified active tombstoned : HostnameClaimStatus

pub record HostnameClaim : Type 0 where
  pub id : String
  pub hostname : String
  pub surface : HostnameClaimSurface
  pub owner_user_id : String
  pub resource_id : String
  pub challenge_token : String
  pub status : HostnameClaimStatus
  pub created_at : ℕ
  pub last_checked_at : Option ℕ
  pub verified_at : Option ℕ
  pub tombstoned_at : Option ℕ

pub record HostnameClaimInput : Type 0 where
  pub hostname : String
  pub surface : HostnameClaimSurface
  pub owner_user_id : String
  pub resource_id : String

abbrev nth_char : String → ℕ → Char → Char
nth_char String.[] n c = c
nth_char (String.◌∷◌ d s) zero c = d
nth_char (String.◌∷◌ d s) (suc n) c = nth_char s n c

-- `toLowerCase` of a character: the ASCII capitals, and the Kelvin sign. Other capitals stay here;
-- they and their small letters are no hostname characters.
abbrev lower_char : Char → Char
lower_char c =
    if leb 65 (code c) && leb (code c) 90
    then nth_char "abcdefghijklmnopqrstuvwxyz" (code c - 65) c
    else if code c == 8490
    then nth_char "k" 0 c
    else c

abbrev lower : String → String
lower String.[] = ""
lower (String.◌∷◌ c s) = String.◌∷◌ (lower_char c) (lower s)

-- `replace(/\.$/, "")`
abbrev without_last_dot : String → String
without_last_dot String.[] = ""
without_last_dot (String.◌∷◌ c s) =
    if str_eq s "" && code c == 46 then "" else String.◌∷◌ c (without_last_dot s)

abbrev on_first : Char → List String → List String
on_first c [] = String.◌∷◌ c "" ∷ []
on_first c (label ∷ labels) = String.◌∷◌ c label ∷ labels

-- `split(".")`
abbrev pub labels_of : String → List String
labels_of String.[] = "" ∷ []
labels_of (String.◌∷◌ c s) = if code c == 46 then "" ∷ labels_of s else on_first c (labels_of s)

abbrev pub str_length : String → ℕ
str_length String.[] = 0
str_length (String.◌∷◌ c s) = suc (str_length s)

abbrev pub all_chars : (ℕ → Bool) → String → Bool
all_chars p String.[] = true
all_chars p (String.◌∷◌ c s) = p (code c) && all_chars p s

abbrev pub is_letter : ℕ → Bool
is_letter c = leb 97 c && leb c 122

abbrev pub is_label_char : ℕ → Bool
is_label_char c = is_letter c || (leb 48 c && leb c 57) || c == 45

abbrev ends_in_dash : String → Bool
ends_in_dash String.[] = false
ends_in_dash (String.◌∷◌ c s) = (str_eq s "" && code c == 45) || ends_in_dash s

abbrev starts_with_dash : String → Bool
starts_with_dash String.[] = false
starts_with_dash (String.◌∷◌ c s) = code c == 45

-- `(?:[a-z0-9-]+\.)*[a-z]{2,}` on the labels
abbrev pub labels_match : List String → Bool
labels_match [] = false
labels_match (last ∷ []) = leb 2 (str_length last) && all_chars is_letter last
labels_match (label ∷ next ∷ labels) =
    leb 1 (str_length label) && all_chars is_label_char label && labels_match (next ∷ labels)

abbrev has_two : List String → Bool
has_two (a ∷ b ∷ labels) = true
has_two _ = false

-- `hostnamePattern`: at least two labels, and no dash in front
abbrev hostname_pattern : String → Bool
hostname_pattern h = not (starts_with_dash h) && has_two (labels_of h) && labels_match (labels_of h)

-- The test of `normalizeHostname`; all that it accepts is ASCII, so that characters are counted as
-- UTF-16 units.
abbrev pub is_hostname : String → Bool
is_hostname h =
    leb (str_length h) 230
    && hostname_pattern h
    && not (any (λ label. ltb 63 (str_length label) || ends_in_dash label) (labels_of h))

unfoldable pub normalize_hostname : String → Result String
normalize_hostname value =
    let hostname = without_last_dot (lower (trim value)) in
    if is_hostname hostname
    then returned hostname
    else thrown "Enter a valid custom hostname with room for its ownership challenge."

-- `text.endsWith("." + suffix)`
abbrev ends_with_dot : String → String → Bool
ends_with_dot String.[] suffix = false
ends_with_dot (String.◌∷◌ c s) suffix = (code c == 46 && str_eq s suffix) || ends_with_dot s suffix

abbrev pub is_platform_owned : String → List String → Bool
is_platform_owned hostname suffixes =
    any (λ suffix. str_eq hostname suffix || ends_with_dot hostname suffix) suffixes

unfoldable pub assert_customer_hostname : String → List String → Result String
assert_customer_hostname hostname platform_suffixes = normalize_hostname hostname >>= λ normalized.
    if is_platform_owned normalized platform_suffixes
    then thrown "Platform-owned hostnames cannot be claimed as customer domains."
    else returned normalized

abbrev claim_of : ℕ → String × String → HostnameClaimInput → String → HostnameClaim
claim_of now draw input hostname = record {
  id = draw.0;
  hostname = hostname;
  surface = input.surface;
  owner_user_id = input.owner_user_id;
  resource_id = input.resource_id;
  challenge_token = draw.1;
  status = pending;
  created_at = now;
  last_checked_at = none;
  verified_at = none;
  tombstoned_at = none;
}

-- A draw is the random identifier and the random token.
unfoldable pub new_hostname_claim :
    ℕ → String × String → HostnameClaimInput → List String → Result HostnameClaim
new_hostname_claim now draw input platform_suffixes =
    assert_customer_hostname input.hostname platform_suffixes >>= λ hostname.
    returned (claim_of now draw input hostname)

unfoldable pub hostname_ownership_instructions :
    HostnameClaim → String → Result OwnershipInstructions
hostname_ownership_instructions claim public_host_target =
    normalize_hostname public_host_target >>= λ target. returned (record {
      claim_id = claim.id;
      txt_name = String.◌++◌ "_managed-oss." claim.hostname;
      txt_value = String.◌++◌ "managed-oss-domain-verification=" claim.challenge_token;
      cname_name = claim.hostname;
      cname_value = String.◌++◌ claim.challenge_token (String.◌++◌ ".verify." target);
    })

abbrev pub token_taken : Dict HostnameClaim → String → Bool
token_taken claims token =
    any (λ (c : HostnameClaim). str_eq c.challenge_token token) (values claims)

-- The draws of the loop, in order; `none` where they run out before a token is new.
fresh_draw : Dict HostnameClaim → List (String × String) → Option (String × String)
fresh_draw claims [] = none
fresh_draw claims (draw ∷ draws) =
    let later = fresh_draw claims draws in if token_taken claims draw.1 then later else some draw

-- `claim`: refused for a hostname that has a claim.
pub data Claimed : Type 0 where
  refused waiting : Claimed
  claimed : HostnameClaim → Claimed

claim_hostname :
    ℕ
    → List (String × String)
    → HostnameClaimInput
    → String
    → Dict HostnameClaim
    → Claimed × Dict HostnameClaim
unfolding fresh_draw
claim_hostname now draws input hostname claims =
    if has claims hostname then (refused, claims) else elim (fresh_draw claims draws) [
      | none ↦ (waiting, claims)
      | some draw ↦ (
        claimed (claim_of now draw input hostname),
        set claims hostname (claim_of now draw input hostname),
      )
    ]

unfoldable pub claim :
    ℕ
    → List (String × String)
    → HostnameClaimInput
    → List String
    → Dict HostnameClaim
    → Result (Claimed × Dict HostnameClaim)
unfolding claim_hostname
claim now draws input platform_suffixes claims =
    assert_customer_hostname input.hostname platform_suffixes >>= λ hostname.
    returned (claim_hostname now draws input hostname claims)

abbrev other_id : Option HostnameClaim → String → Bool
other_id none id = false
other_id (some existing) id = not (str_eq existing.id id)

unfoldable pub import_claim : HostnameClaim → Dict HostnameClaim → Result (Dict HostnameClaim)
import_claim claim claims = do
  throw_if (other_id (get claims claim.hostname) claim.id)
      (String.◌++◌ "Duplicate hostname claim detected for " (String.◌++◌ claim.hostname "."))
  throw_if
      (any
        (λ (c : HostnameClaim).
          str_eq c.challenge_token claim.challenge_token && not (str_eq c.id claim.id))
        (values claims))
      "Duplicate hostname challenge token detected."
  returned (set claims claim.hostname claim)

unfoldable pub get_claim : String → Dict HostnameClaim → Result (Option HostnameClaim)
get_claim hostname claims = normalize_hostname hostname >>= λ h. returned (get claims h)

abbrev pub same_surface : HostnameClaimSurface → HostnameClaimSurface → Bool
same_surface application application = true
same_surface suite suite = true
same_surface _ _ = false

abbrev pub is_tombstoned : HostnameClaimStatus → Bool
is_tombstoned tombstoned = true
is_tombstoned _ = false

abbrev pub is_proved : HostnameClaimStatus → Bool
is_proved verified = true
is_proved active = true
is_proved _ = false

-- The claim belongs to the resource, the owner and the surface of the request.
abbrev pub belongs : HostnameClaim → HostnameClaimInput → Bool
belongs claim input =
    same_surface claim.surface input.surface
    && str_eq claim.owner_user_id input.owner_user_id
    && str_eq claim.resource_id input.resource_id

abbrev or_instant : Option ℕ → ℕ → Option ℕ
or_instant none now = some now
or_instant (some at) now = some at

abbrev pub with_status : ℕ → HostnameClaimStatus → HostnameClaim → HostnameClaim
with_status now status claim = record claim {
  status = status;
  last_checked_at = some now;
  verified_at = if is_proved status then or_instant claim.verified_at now else claim.verified_at;
}

set_status_of :
    ℕ
    → HostnameClaimInput
    → HostnameClaimStatus
    → String
    → Dict HostnameClaim
    → Option HostnameClaim
    → Option HostnameClaim × Dict HostnameClaim
set_status_of now input status hostname claims none = (none, claims)
set_status_of now input status hostname claims (some claim) =
    if is_tombstoned claim.status || not (belongs claim input)
    then (none, claims)
    else (some (with_status now status claim), set claims hostname (with_status now status claim))

-- The status is any but `tombstoned`.
unfoldable pub set_status :
    ℕ
    → HostnameClaimInput
    → HostnameClaimStatus
    → Dict HostnameClaim
    → Result (Option HostnameClaim × Dict HostnameClaim)
unfolding set_status_of
set_status now input status claims = normalize_hostname input.hostname >>= λ h.
    returned (set_status_of now input status h claims (get claims h))

abbrev pub buried : ℕ → HostnameClaim → HostnameClaim
buried now claim = record claim {
  status = tombstoned;
  tombstoned_at = or_instant claim.tombstoned_at now;
}

tombstone_of :
    ℕ
    → HostnameClaimInput
    → String
    → Dict HostnameClaim
    → Option HostnameClaim
    → Bool × Dict HostnameClaim
tombstone_of now input hostname claims none = (false, claims)
tombstone_of now input hostname claims (some claim) =
    if belongs claim input then (true, set claims hostname (buried now claim)) else (false, claims)

unfoldable pub tombstone :
    ℕ → HostnameClaimInput → Dict HostnameClaim → Result (Bool × Dict HostnameClaim)
unfolding tombstone_of
tombstone now input claims = normalize_hostname input.hostname >>= λ h.
    returned (tombstone_of now input h claims (get claims h))
