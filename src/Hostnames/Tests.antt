-- ===== src/Hostnames/Tests.antt =====
-- Hostnames as they are written, and one that is claimed and given up.
use managed_oss_cloud.Common.{String, true, List, [], ◌∷◌, some, ◌≡◌, refl}
use managed_oss_cloud.Common.Dict
use managed_oss_cloud.Common.Dict.{Dict, get, set}
use managed_oss_cloud.Common.Result.{thrown, returned}
use managed_oss_cloud.Hostnames.{
  HostnameClaim, HostnameClaimInput, HostnameClaimSurface, refused, claimed, claim,
  normalize_hostname, assert_customer_hostname, claim_of, buried, tombstone,
}
use managed_oss_cloud.Hostnames.Normal.{normalize_idempotent}
use managed_oss_cloud.Hostnames.Registry.{claiming, burying}
use managed_oss_cloud.Hostnames.Sound.{IsSound, IsDead, Step-IsSound, tombstone_final}

written : normalize_hostname " Shop.Example-1.COM. " ≡ returned "shop.example-1.com"
unfolding normalize_hostname
written = refl

single_label :
    normalize_hostname "localhost"
    ≡ thrown "Enter a valid custom hostname with room for its ownership challenge."
unfolding normalize_hostname
single_label = refl

normalize_idempotent_example :
    normalize_hostname "shop.example-1.com" ≡ returned "shop.example-1.com"
normalize_idempotent_example =
    normalize_idempotent " Shop.Example-1.COM. " "shop.example-1.com" written

abbrev input : HostnameClaimInput
input = record {
  hostname = "shop.example.com";
  surface = HostnameClaimSurface.application;
  owner_user_id = "u";
  resource_id = "a";
}

abbrev platform : List String
platform = "managed.example.net" ∷ []

owned :
    assert_customer_hostname "www.managed.example.net" platform
    ≡ thrown "Platform-owned hostnames cannot be claimed as customer domains."
unfolding assert_customer_hostname normalize_hostname
owned = refl

abbrev draws : List (String × String)
draws = ("id", "token") ∷ []

abbrev one : HostnameClaim
one = claim_of 100 ("id", "token") input "shop.example.com"

abbrev registry : Dict HostnameClaim
registry = ("shop.example.com", one) ∷ []

claim_runs : claim 100 draws input platform [] ≡ returned (claimed one, registry)
unfolding claim assert_customer_hostname normalize_hostname Dict.has Dict.values Dict.set
claim_runs = refl

empty-IsSound : IsSound []
unfolding get
empty-IsSound = record { keyed = λ k c e. cc; distinct = λ j k c d e f t. cc }

Step-IsSound_example : IsSound registry
Step-IsSound_example =
    Step-IsSound [] registry
      (claiming 100 draws input platform [] (claimed one) registry claim_runs) empty-IsSound

abbrev dead : HostnameClaim
dead = buried 200 one

abbrev graves : Dict HostnameClaim
graves = ("shop.example.com", dead) ∷ []

burial_runs : tombstone 300 input graves ≡ returned (true, graves)
unfolding tombstone normalize_hostname Dict.get Dict.set
burial_runs = refl

there : get graves "shop.example.com" ≡ some dead
unfolding get
there = refl

accepted : assert_customer_hostname "shop.example.com" platform ≡ returned "shop.example.com"
unfolding assert_customer_hostname normalize_hostname
accepted = refl

tombstone_final_example :
    IsDead graves "shop.example.com" dead
    × (claim 400 draws input platform graves ≡ returned (refused, graves))
tombstone_final_example =
    tombstone_final graves graves "shop.example.com" dead 400 draws input platform
      (burying 300 input graves true graves burial_runs) there refl accepted
