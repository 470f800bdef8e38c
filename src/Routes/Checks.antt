-- ===== src/Routes/Checks.antt =====
-- What the checks of a route say, written out: the application, its installation and its
-- subscription, and the claim of a custom domain.
use mathlib.Core.List.{Memᴰ}
use managed_oss_cloud.Common.{
  String, Bool, true, false, ◌&&◌, Option, none, some, ◌≡◌, ◌⊎◌, inl, inr, refl, sym, ap, arith,
  and-parts, eq_iff, eq_refl, str_eq, Bool-cases,
}
use managed_oss_cloud.Common.Dict.{Dict, get, values}
use managed_oss_cloud.Common.Members.{any-Mem, Mem-any}
use managed_oss_cloud.Common.Result.{returned}
use managed_oss_cloud.Types.{
  InstallationState, ApplicationState, WorkerStatus, VerificationStatus, CustomDomain,
}
use managed_oss_cloud.Hostnames.{
  HostnameClaim, HostnameClaimSurface, HostnameClaimStatus, get_claim, is_proved,
}
use managed_oss_cloud.Store.{Store, is_given, is_entitled_status, hosting_entitlement_active}
use managed_oss_cloud.Store.Records.{Installation, ApplicationInstance, StoredSubscription}
use managed_oss_cloud.Entitlement.{is_live, is_entitled}
use managed_oss_cloud.Routes.{
  installation_is_live, serves, is_checked, is_application, holds_claim, is_reachable,
}

-- The claim of a custom domain of the application is the application's, and both are proved.
pub record IsHeld (registry : Dict HostnameClaim) (app : ApplicationInstance) (hostname : String)
    : Type 0 where
  pub item : CustomDomain
  pub listed : Memᴰ item app.custom_domains
  pub domain : hostname ≡ item.domain
  pub checked :
      (item.verification_status ≡ VerificationStatus.verified)
      ⊎ (item.verification_status ≡ VerificationStatus.active)
  pub claim : HostnameClaim
  pub registered : get_claim item.domain registry ≡ returned (some claim)
  pub instructed : claim.id ≡ item.ownership.claim_id
  pub surface : claim.surface ≡ HostnameClaimSurface.application
  pub resource : claim.resource_id ≡ app.id
  pub proved :
      (claim.status ≡ HostnameClaimStatus.verified) ⊎ (claim.status ≡ HostnameClaimStatus.active)

checked_of :
    (status : VerificationStatus)
    → is_checked status ≡ true
    → (status ≡ VerificationStatus.verified) ⊎ (status ≡ VerificationStatus.active)
checked_of VerificationStatus.verified h = inl refl
checked_of VerificationStatus.active h = inr refl
checked_of VerificationStatus.awaiting_dns h = cc
checked_of VerificationStatus.failed h = cc

surface_of :
    (surface : HostnameClaimSurface)
    → is_application surface ≡ true
    → surface ≡ HostnameClaimSurface.application
surface_of HostnameClaimSurface.application h = refl
surface_of HostnameClaimSurface.suite h = cc

proved_of :
    (status : HostnameClaimStatus)
    → is_proved status ≡ true
    → (status ≡ HostnameClaimStatus.verified) ⊎ (status ≡ HostnameClaimStatus.active)
proved_of HostnameClaimStatus.verified h = inl refl
proved_of HostnameClaimStatus.active h = inr refl
proved_of HostnameClaimStatus.pending h = cc
proved_of HostnameClaimStatus.tombstoned h = cc

pub holds_claim-IsHeld :
    (registry : Dict HostnameClaim) (app : ApplicationInstance) (item : CustomDomain)
    (claim : Option HostnameClaim)
    → Memᴰ item app.custom_domains
    → get_claim item.domain registry ≡ returned claim
    → holds_claim app item claim ≡ true
    → IsHeld registry app item.domain
holds_claim-IsHeld registry app item none m e h = cc
holds_claim-IsHeld registry app item (some claim) m e h =
    let (h4, proved) = and-parts _ (is_proved claim.status) h in
    let (h3, resource) = and-parts _ (str_eq claim.resource_id app.id) h4 in
    let (h2, surface) = and-parts _ (is_application claim.surface) h3 in
    let (checked, instructed) =
      and-parts (is_checked item.verification_status) (str_eq claim.id item.ownership.claim_id)
        h2 in
    record {
      item = item;
      listed = m;
      domain = refl;
      checked = checked_of item.verification_status checked;
      claim = claim;
      registered = e;
      instructed = (eq_iff claim.id item.ownership.claim_id).0 instructed;
      surface = surface_of claim.surface surface;
      resource = (eq_iff claim.resource_id app.id).0 resource;
      proved = proved_of claim.status proved;
    }

-- The installation needs no subscription, or a subscription of it is active or on trial.
abbrev pub IsPaid : Bool → Store → String → Type 0
IsPaid unrestricted store id =
    (unrestricted ≡ true)
    ⊎ ((s : StoredSubscription) × Memᴰ s (values store.subscriptions)
        × (s.installation_id ≡ some id)
        × ((s.status ≡ "active") ⊎ (s.status ≡ "trialing")))

-- The application and its installation are live and paid for.
pub record IsOpen (unrestricted : Bool) (store : Store) (app : ApplicationInstance) : Type 0 where
  pub live : app.state ≡ ApplicationState.live
  pub home :
      (i : Installation) × (get store.installations app.installation_id ≡ some i)
      × (i.state ≡ InstallationState.live)
  pub paid : IsPaid unrestricted store app.installation_id

live_of : (state : ApplicationState) → is_live state ≡ true → state ≡ ApplicationState.live
live_of ApplicationState.live h = refl
live_of ApplicationState.queued h = cc
live_of ApplicationState.provisioning h = cc
live_of ApplicationState.failed h = cc
live_of ApplicationState.stopped h = cc

home_live :
    (i : Installation) → installation_is_live (some i) ≡ true → i.state ≡ InstallationState.live
home_live i h = ground (arith, h)

home_of :
    (found : Option Installation)
    → installation_is_live found ≡ true
    → (i : Installation) × (found ≡ some i) × (i.state ≡ InstallationState.live)
home_of none h = cc
home_of (some i) h = (i, refl, home_live i h)

pub serving_of :
    (status : WorkerStatus)
    → serves status ≡ true
    → (status ≡ WorkerStatus.ready) ⊎ (status ≡ WorkerStatus.draining)
serving_of WorkerStatus.ready h = inl refl
serving_of WorkerStatus.draining h = inr refl
serving_of WorkerStatus.offline h = cc

bound_of : (o : Option String) (id : String) → is_given o id ≡ true → o ≡ some id
bound_of none id h = cc
bound_of (some s) id h = ap some ((eq_iff s id).0 h)

entitled_of :
    (status : String)
    → is_entitled_status status ≡ true
    → (status ≡ "active") ⊎ (status ≡ "trialing")
entitled_of status h = elim (Bool-cases (str_eq "active" status)) [
  | inl b ↦ inl (sym ((eq_iff "active" status).0 b))
  | inr b ↦ elim (Bool-cases (str_eq "trialing" status)) [
    | inl c ↦ inr (sym ((eq_iff "trialing" status).0 c))
    | inr c ↦ cc (rw (b, c) at h)
  ]
]

entitled-IsPaid :
    (unrestricted : Bool) (store : Store) (id : String)
    → is_entitled unrestricted store id ≡ true
    → IsPaid unrestricted store id
unfolding hosting_entitlement_active
entitled-IsPaid true store id h = inl refl
entitled-IsPaid false store id h =
    let for_it =
      λ (s : StoredSubscription). is_given s.installation_id id && is_entitled_status s.status in
    let (s, m, b) = any-Mem for_it (values store.subscriptions) h in
    let (bound, active) =
      and-parts (is_given s.installation_id id) (is_entitled_status s.status) b in
    inr (s, m, bound_of s.installation_id id bound, entitled_of s.status active)

entitled_by :
    (status : String)
    → (status ≡ "active") ⊎ (status ≡ "trialing")
    → is_entitled_status status ≡ true
entitled_by status (inl e) = rw e refl
entitled_by status (inr e) = rw e refl

pub IsPaid-entitled :
    (unrestricted : Bool) (store : Store) (id : String)
    → IsPaid unrestricted store id
    → is_entitled unrestricted store id ≡ true
unfolding hosting_entitlement_active
IsPaid-entitled unrestricted store id (inl e) = rw e refl
IsPaid-entitled unrestricted store id (inr (s, m, bound, active)) =
    let for_it =
      λ (t : StoredSubscription). is_given t.installation_id id && is_entitled_status t.status in
    let found =
      Mem-any for_it (values store.subscriptions) s m
        (rw (bound, eq_refl id, entitled_by s.status active) refl) in
    ground (arith, found)

pub reachable-IsOpen :
    (unrestricted : Bool) (store : Store) (app : ApplicationInstance)
    → is_reachable unrestricted store app ≡ true
    → IsOpen unrestricted store app
reachable-IsOpen unrestricted store app h =
    let (both, paid) = and-parts _ (is_entitled unrestricted store app.installation_id) h in
    let (live, home) =
      and-parts (is_live app.state)
        (installation_is_live (get store.installations app.installation_id)) both in
    record {
      live = live_of app.state live;
      home = home_of (get store.installations app.installation_id) home;
      paid = entitled-IsPaid unrestricted store app.installation_id paid;
    }
