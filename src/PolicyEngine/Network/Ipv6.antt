-- ===== src/PolicyEngine/Network/Ipv6.antt =====
-- policy-engine/src/network.rs: `ipv6_module`.
use authust.Prelude.{ℕ, Bool, ◌&&◌, ◌/◌, ◌%◌, List, [], ◌∷◌}
use authust.Prelude.Eq.{◌==◌, Eq-nat}
use authust.PolicyEngine.Network.{Ipv6Addr}

abbrev all_zero : Ipv6Addr → Bool
all_zero x = x.s0 == 0 && x.s1 == 0 && x.s2 == 0 && x.s3 == 0 && x.s4 == 0 && x.s5 == 0 && x.s6 == 0

unfoldable pub segments : Ipv6Addr → List ℕ
segments x = x.s0 ∷ x.s1 ∷ x.s2 ∷ x.s3 ∷ x.s4 ∷ x.s5 ∷ x.s6 ∷ x.s7 ∷ []

-- The two bytes of a segment, the high one first.
abbrev pub bytes : List ℕ → List ℕ
bytes [] = []
bytes (s ∷ ss) = (s / 256) ∷ (s % 256) ∷ bytes ss

unfoldable pub octets : Ipv6Addr → List ℕ
unfolding segments
octets x = bytes (segments x)

unfoldable pub is_unspecified : Ipv6Addr → Bool
is_unspecified x = all_zero x && x.s7 == 0

unfoldable pub is_loopback : Ipv6Addr → Bool
is_loopback x = all_zero x && x.s7 == 1

unfoldable pub is_multicast : Ipv6Addr → Bool
is_multicast x = x.s0 / 256 == 255
