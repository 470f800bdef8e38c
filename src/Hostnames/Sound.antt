-- ===== src/Hostnames/Sound.antt =====
-- What the registry keeps: one claim for a hostname, one hostname for a token, and tombstones.
use managed_oss_cloud.Common.{
  ℕ, String, true, false, List, some, ◌≡◌, refl, ap, sym, ◌∙◌, ◌⊎◌, inl, inr, str_eq, eq_iff,
  some_inj, Bool-cases,
}
use mathlib.Core.Path.{subst}
use managed_oss_cloud.Common.Dict.{Dict, get, set, has, get-set, has-get, none-get}
use managed_oss_cloud.Common.Result.{returned}
use managed_oss_cloud.Hostnames.{
  HostnameClaim, HostnameClaimInput, refused, claim, claim_hostname, token_taken, with_status,
  buried, is_tombstoned, assert_customer_hostname,
}
use managed_oss_cloud.Hostnames.Registry.{
  Step, Written, unchanged, added, checked, laid_to_rest, Step-Written,
}

-- Each claim stands under its hostname, and no two hostnames share a challenge token.
pub record IsSound (m : Dict HostnameClaim) : Type 0 where
  pub keyed : (k : String) (c : HostnameClaim) → get m k ≡ some c → c.hostname ≡ k
  pub distinct :
      (j k : String) (c d : HostnameClaim)
      → get m j ≡ some c
      → get m k ≡ some d
      → c.challenge_token ≡ d.challenge_token
      → j ≡ k

found_at :
    (m : Dict HostnameClaim) (k j : String) (v c : HostnameClaim)
    → get (set m k v) j ≡ some c
    → ((k ≡ j) × (v ≡ c)) ⊎ (get m j ≡ some c)
found_at m k j v c e = elim (Bool-cases (str_eq k j)) [
  | inl b ↦ inl ((eq_iff k j).0 b, some_inj (rw b at (sym (get-set m k j v) ∙ e)))
  | inr b ↦ inr (rw b at (sym (get-set m k j v) ∙ e))
]

module _ (m : Dict HostnameClaim) (s : IsSound m) (k : String) (v : HostnameClaim)
    (named : v.hostname ≡ k)
    (alone : (j : String) (c : HostnameClaim)
      → get m j ≡ some c
      → c.challenge_token ≡ v.challenge_token
      → j ≡ k) where
  set-IsSound : IsSound (set m k v)
  set-IsSound = record {
    keyed = λ j c e. elim (found_at m k j v c e) [
      | inl (at, same) ↦ ap (λ (x : HostnameClaim). x.hostname) (sym same) ∙ named ∙ at
      | inr old ↦ s.keyed j c old
    ];
    distinct = λ i j c d e f t. elim (found_at m k i v c e) [
      | inl (at, same) ↦ elim (found_at m k j v d f) [
        | inl (at', same') ↦ sym at ∙ at'
        | inr old ↦
            sym at
            ∙ sym (alone j d old (sym t ∙ ap (λ (x : HostnameClaim). x.challenge_token) (sym same)))
      ]
      | inr old ↦ elim (found_at m k j v d f) [
        | inl (at', same') ↦
            alone i c old (t ∙ ap (λ (x : HostnameClaim). x.challenge_token) (sym same')) ∙ at'
        | inr old' ↦ s.distinct i j c d old old' t
      ]
    ];
  }

token_free :
    (m : Dict HostnameClaim) (k : String) (v : HostnameClaim) (j : String) (c : HostnameClaim)
    → token_taken m v.challenge_token ≡ false
    → get m j ≡ some c
    → c.challenge_token ≡ v.challenge_token
    → j ≡ k
token_free m k v j c free e t =
    let differ =
      none-get (λ (x : HostnameClaim). str_eq x.challenge_token v.challenge_token) m j c free e in
    cc ((eq_iff c.challenge_token v.challenge_token).1 t, differ)

Written-IsSound : (m m' : Dict HostnameClaim) → Written m m' → IsSound m → IsSound m'
Written-IsSound m _ unchanged s = s
Written-IsSound m _ (added k c absent named free) s =
    set-IsSound m s k c named (λ j d e t. token_free m k c j d free e t)
Written-IsSound m _ (checked k c now status e _) s =
    set-IsSound m s k (with_status now status c) (s.keyed k c e)
      (λ j d f t. s.distinct j k d c f e t)
Written-IsSound m _ (laid_to_rest k c now e) s =
    set-IsSound m s k (buried now c) (s.keyed k c e) (λ j d f t. s.distinct j k d c f e t)

-- Claims, checks and tombstones keep each claim under its hostname, and keep the challenge tokens
-- of different hostnames different, whatever is drawn.
pub Step-IsSound : (m m' : Dict HostnameClaim) → Step m m' → IsSound m → IsSound m'
Step-IsSound m m' st s = Written-IsSound m m' (Step-Written m m' st) s

-- The claim is dead, and its owner, resource and token are those of `c`.
abbrev pub IsDead : Dict HostnameClaim → String → HostnameClaim → Type 0
IsDead m k c =
    (d : HostnameClaim) × (get m k ≡ some d)
    × (is_tombstoned d.status ≡ true)
    × (d.owner_user_id ≡ c.owner_user_id)
    × (d.resource_id ≡ c.resource_id)
    × (d.challenge_token ≡ c.challenge_token)

Written-IsDead :
    (m m' : Dict HostnameClaim) (k : String) (c : HostnameClaim)
    → Written m m'
    → get m k ≡ some c
    → is_tombstoned c.status ≡ true
    → IsDead m' k c
Written-IsDead m _ k c unchanged e t = (c, e, t, refl, refl, refl)
Written-IsDead m _ k c (added j new absent _ _) e t = elim (Bool-cases (str_eq j k)) [
  | inl b ↦ cc (has-get m k c e, ap (has m) ((eq_iff j k).0 b), absent)
  | inr b ↦ (c, get-set m j k new ∙ rw b e, t, refl, refl, refl)
]
Written-IsDead m _ k c (checked j old now status there alive) e t = elim (Bool-cases (str_eq j k)) [
  | inl b ↦
      let same = some_inj (sym there ∙ ap (get m) ((eq_iff j k).0 b) ∙ e) in
      cc (ap (λ (x : HostnameClaim). is_tombstoned x.status) same, alive, t)
  | inr b ↦ (c, get-set m j k (with_status now status old) ∙ rw b e, t, refl, refl, refl)
]
Written-IsDead m _ k c (laid_to_rest j old now there) e t = elim (Bool-cases (str_eq j k)) [
  | inl b ↦
      let same = some_inj (sym there ∙ ap (get m) ((eq_iff j k).0 b) ∙ e) in
      subst (IsDead (set m j (buried now old)) k) same
        (buried now old, get-set m j k (buried now old) ∙ rw b refl, refl, refl, refl, refl)
  | inr b ↦ (c, get-set m j k (buried now old) ∙ rw b e, t, refl, refl, refl)
]

claim_refused :
    (now : ℕ) (draws : List (String × String)) (input : HostnameClaimInput) (suffixes : List String)
    (m : Dict HostnameClaim) (k : String)
    → assert_customer_hostname input.hostname suffixes ≡ returned k
    → has m k ≡ true
    → claim now draws input suffixes m ≡ returned (refused, m)
unfolding claim claim_hostname
claim_refused now draws input suffixes m k e h = rw (e, h) refl

-- A tombstone is final: through claims, checks and further tombstones the hostname keeps a dead
-- claim of the same owner, resource and token, and every claim of that hostname is refused.
pub tombstone_final :
    (m m' : Dict HostnameClaim) (k : String) (c : HostnameClaim) (now : ℕ)
    (draws : List (String × String)) (input : HostnameClaimInput) (suffixes : List String)
    → Step m m'
    → get m k ≡ some c
    → is_tombstoned c.status ≡ true
    → assert_customer_hostname input.hostname suffixes ≡ returned k
    → IsDead m' k c × (claim now draws input suffixes m' ≡ returned (refused, m'))
tombstone_final m m' k c now draws input suffixes st e t h =
    let dead = Written-IsDead m m' k c (Step-Written m m' st) e t in
    (dead, claim_refused now draws input suffixes m' k h (has-get m' k dead.0 dead.1))
