-- ===== src/PolicyEngine/Network/Ip.antt =====
-- policy-engine/src/network.rs: `ip_module`.
use authust.Prelude.{String, Bool, true, false}
use authust.Prelude.Eq.{Eq-nat}
use authust.Prelude.Res.{Res, ok, err}
use authust.PolicyEngine.Network.{Ipv4Addr, Ipv6Addr, IpAddr, v4, v6}
use authust.PolicyEngine.Network.Ipv4
use authust.PolicyEngine.Network.Ipv6

unfoldable pub get_type : IpAddr → String
get_type (v4 _) = "v4"
get_type (v6 _) = "v6"

unfoldable pub is_ipv4 : IpAddr → Bool
is_ipv4 (v4 _) = true
is_ipv4 (v6 _) = false

unfoldable pub is_ipv6 : IpAddr → Bool
is_ipv6 (v4 _) = false
is_ipv6 (v6 _) = true

unfoldable pub is_loopback : IpAddr → Bool
unfolding Ipv4.is_loopback Ipv6.is_loopback
is_loopback (v4 x) = Ipv4.is_loopback x
is_loopback (v6 x) = Ipv6.is_loopback x

unfoldable pub is_unspecified : IpAddr → Bool
unfolding Ipv4.is_unspecified Ipv6.is_unspecified
is_unspecified (v4 x) = Ipv4.is_unspecified x
is_unspecified (v6 x) = Ipv6.is_unspecified x

unfoldable pub as_ipv4 : IpAddr → Res String Ipv4Addr
as_ipv4 (v4 x) = ok x
as_ipv4 (v6 _) = err "Address is not an ipv4 address"

unfoldable pub as_ipv6 : IpAddr → Res String Ipv6Addr
as_ipv6 (v4 _) = err "Address is not an ipv6 address"
as_ipv6 (v6 x) = ok x
