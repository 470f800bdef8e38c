-- ===== src/Destinations/Tests.antt =====
-- The address of a metadata service, and a public one.
use managed_oss_cloud.Common.{◌<◌, false, not, some, ◌≡◌, refl}
use managed_oss_cloud.Destinations.{ipv4_number, is_global_public_ipv4}
use managed_oss_cloud.Destinations.Octets.{
  IsDotted, number, is_reserved, ipv4_number-exact, public_iff_unreserved,
}

metadata : is_global_public_ipv4 "169.254.169.254" ≡ false
unfolding is_global_public_ipv4
metadata = refl

too_large : is_global_public_ipv4 "8.8.8.256" ≡ false
unfolding is_global_public_ipv4
too_large = refl

dotted : IsDotted "172.32.0.1" "172" "32" "0" "1"
dotted = record { parts = refl; octets = refl }

ipv4_number-exact_example :
    (ipv4_number "172.32.0.1" ≡ some (number 172 32 0 1)) × (number 172 32 0 1 < 4294967296)
ipv4_number-exact_example = ipv4_number-exact "172.32.0.1" "172" "32" "0" "1" dotted

public_iff_unreserved_example : is_global_public_ipv4 "172.32.0.1" ≡ not (is_reserved 172 32 0 1)
public_iff_unreserved_example = public_iff_unreserved "172.32.0.1" "172" "32" "0" "1" dotted
