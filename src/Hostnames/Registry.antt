-- ===== src/Hostnames/Registry.antt =====
-- The operations on the registry as steps, and what they keep.
use managed_oss_cloud.Common.{
  ℕ, String, Bool, false, not, ◌||◌, List, [], ◌∷◌, Option, none, some, ◌≡◌, refl, ap, sym, ◌∙◌,
  inl, inr, arith, some_inj, Bool-cases, Option-cases,
}
use mathlib.Core.Path.{subst}
use managed_oss_cloud.Common.Dict.{Dict, get, set, has}
use managed_oss_cloud.Common.Result.{returned, >>=-eq-returned, returned_inj}
use managed_oss_cloud.Hostnames.{
  HostnameClaim, HostnameClaimInput, HostnameClaimStatus, Claimed, claim, claim_of, claim_hostname,
  fresh_draw, token_taken, set_status, set_status_of, with_status, tombstone, tombstone_of, buried,
  is_tombstoned, belongs, assert_customer_hostname, normalize_hostname,
}

-- A status that is set is never `tombstoned`, by its type in the source.
pub data Step : Dict HostnameClaim → Dict HostnameClaim → Type 0 where
  claiming :
      (now : ℕ) (draws : List (String × String)) (input : HostnameClaimInput)
      (platform_suffixes : List String) (m : Dict HostnameClaim) (answer : Claimed)
      (m' : Dict HostnameClaim)
      → claim now draws input platform_suffixes m ≡ returned (answer, m')
      → Step m m'
  checking :
      (now : ℕ) (input : HostnameClaimInput) (status : HostnameClaimStatus) (m : Dict HostnameClaim)
      (answer : Option HostnameClaim) (m' : Dict HostnameClaim)
      → is_tombstoned status ≡ false
      → set_status now input status m ≡ returned (answer, m')
      → Step m m'
  burying :
      (now : ℕ) (input : HostnameClaimInput) (m : Dict HostnameClaim) (answer : Bool)
      (m' : Dict HostnameClaim)
      → tombstone now input m ≡ returned (answer, m')
      → Step m m'

-- What a step writes: nothing, a new claim with a token that none has, or a new status of a claim.
pub data Written (m : Dict HostnameClaim) : Dict HostnameClaim → Type 0 where
  unchanged : Written m m
  added :
      (k : String) (c : HostnameClaim)
      → has m k ≡ false
      → c.hostname ≡ k
      → token_taken m c.challenge_token ≡ false
      → Written m (set m k c)
  checked :
      (k : String) (c : HostnameClaim) (now : ℕ) (status : HostnameClaimStatus)
      → get m k ≡ some c
      → is_tombstoned c.status ≡ false
      → Written m (set m k (with_status now status c))
  laid_to_rest :
      (k : String) (c : HostnameClaim) (now : ℕ)
      → get m k ≡ some c
      → Written m (set m k (buried now c))

module _ (now : ℕ) (m : Dict HostnameClaim) where
  fresh_draw-token :
      (draws : List (String × String)) (draw : String × String)
      → fresh_draw m draws ≡ some draw
      → token_taken m draw.1 ≡ false
  unfolding fresh_draw
  fresh_draw-token [] draw h = cc
  fresh_draw-token (d ∷ draws) draw h = elim (Bool-cases (token_taken m d.1)) [
    | inl b ↦ fresh_draw-token draws draw (rw b at h)
    | inr b ↦
        let same : some d ≡ some draw = (rw b at h) in
        ap (λ (x : String × String). token_taken m x.1) (sym (some_inj same)) ∙ b
  ]

  claim_hostname-Written :
      (draws : List (String × String)) (input : HostnameClaimInput) (hostname : String)
      → Written m (claim_hostname now draws input hostname m).1
  unfolding claim_hostname
  claim_hostname-Written draws input hostname = elim (Bool-cases (has m hostname)) [
    | inl b ↦ rw b unchanged
    | inr b ↦ elim (Option-cases (fresh_draw m draws)) [
      | inl e ↦ rw (b, e) unchanged
      | inr (draw, e) ↦
          rw (b, e)
            (added hostname (claim_of now draw input hostname) b refl
              (fresh_draw-token draws draw e))
    ]
  ]

  set_status_of-Written :
      (input : HostnameClaimInput) (status : HostnameClaimStatus) (h : String)
      (found : Option HostnameClaim)
      → get m h ≡ found
      → Written m (set_status_of now input status h m found).1
  unfolding set_status_of
  set_status_of-Written input status h none e = unchanged
  set_status_of-Written input status h (some c) e =
      elim (Bool-cases (is_tombstoned c.status || not (belongs c input))) [
        | inl b ↦ rw b unchanged
        | inr b ↦ rw b (checked h c now status e (ground (arith, b)))
      ]

  tombstone_of-Written :
      (input : HostnameClaimInput) (h : String) (found : Option HostnameClaim)
      → get m h ≡ found
      → Written m (tombstone_of now input h m found).1
  unfolding tombstone_of
  tombstone_of-Written input h none e = unchanged
  tombstone_of-Written input h (some c) e = elim (Bool-cases (belongs c input)) [
    | inl b ↦ rw b (laid_to_rest h c now e)
    | inr b ↦ rw b unchanged
  ]

-- Every step writes one of these.
pub Step-Written : (m m' : Dict HostnameClaim) → Step m m' → Written m m'
unfolding claim set_status tombstone
Step-Written _ _ (claiming now draws input suffixes m answer m' e) =
    let (h, _, last) =
      >>=-eq-returned (assert_customer_hostname input.hostname suffixes)
        (λ hostname. returned (claim_hostname now draws input hostname m)) e in
    subst (λ (r : Claimed × Dict HostnameClaim). Written m r.1) (returned_inj last)
      (claim_hostname-Written now m draws input h)
Step-Written _ _ (checking now input status m answer m' _ e) =
    let (h, _, last) =
      >>=-eq-returned (normalize_hostname input.hostname)
        (λ h. returned (set_status_of now input status h m (get m h))) e in
    subst (λ (r : Option HostnameClaim × Dict HostnameClaim). Written m r.1) (returned_inj last)
      (set_status_of-Written now m input status h (get m h) refl)
Step-Written _ _ (burying now input m answer m' e) =
    let (h, _, last) =
      >>=-eq-returned (normalize_hostname input.hostname)
        (λ h. returned (tombstone_of now input h m (get m h))) e in
    subst (λ (r : Bool × Dict HostnameClaim). Written m r.1) (returned_inj last)
      (tombstone_of-Written now m input h (get m h) refl)
