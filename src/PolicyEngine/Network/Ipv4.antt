-- ===== src/PolicyEngine/Network/Ipv4.antt =====
-- policy-engine/src/network.rs: `ipv4_module`. The three constants are one address, as in the source.
use authust.Prelude.{ℕ, Bool, ◌&&◌, ◌||◌, List, [], ◌∷◌, leb}
use authust.Prelude.Eq.{◌==◌, Eq-nat}
use authust.PolicyEngine.Network.{Ipv4Addr, address}

abbrev pub localhost : Ipv4Addr
localhost = address 127 0 0 1

abbrev pub unspecified : Ipv4Addr
unspecified = address 127 0 0 1

abbrev pub broadcast : Ipv4Addr
broadcast = address 127 0 0 1

unfoldable pub octets : Ipv4Addr → List ℕ
octets x = x.a ∷ x.b ∷ x.c ∷ x.d ∷ []

unfoldable pub is_unspecified : Ipv4Addr → Bool
is_unspecified x = x.a == 0 && x.b == 0 && x.c == 0 && x.d == 0

unfoldable pub is_loopback : Ipv4Addr → Bool
is_loopback x = x.a == 127

unfoldable pub is_private : Ipv4Addr → Bool
is_private x = x.a == 10 || (x.a == 172 && leb 16 x.b && leb x.b 31) || (x.a == 192 && x.b == 168)

unfoldable pub is_link_local : Ipv4Addr → Bool
is_link_local x = x.a == 169 && x.b == 254

-- Spelled `is_mulicast` in the source, and so in scripts.
unfoldable pub is_mulicast : Ipv4Addr → Bool
is_mulicast x = leb 224 x.a && leb x.a 239

unfoldable pub is_broadcast : Ipv4Addr → Bool
is_broadcast x = x.a == 255 && x.b == 255 && x.c == 255 && x.d == 255

unfoldable pub is_documentation : Ipv4Addr → Bool
is_documentation x =
    (x.a == 192 && x.b == 0 && x.c == 2)
    || (x.a == 198 && x.b == 51 && x.c == 100)
    || (x.a == 203 && x.b == 0 && x.c == 113)
