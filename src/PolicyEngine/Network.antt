-- ===== src/PolicyEngine/Network.antt =====
-- policy-engine/src/network.rs: what scripts can ask of an address. The tests on addresses are those of
-- the standard library's `IpAddr`, `Ipv4Addr` and `Ipv6Addr`.
pub mod Ipv4
pub mod Ipv6
pub mod Ip
use authust.Prelude.{ℕ}

pub record Ipv4Addr : Type 0 where
  pub a : ℕ
  pub b : ℕ
  pub c : ℕ
  pub d : ℕ

-- The eight 16-bit segments.
pub record Ipv6Addr : Type 0 where
  pub s0 : ℕ
  pub s1 : ℕ
  pub s2 : ℕ
  pub s3 : ℕ
  pub s4 : ℕ
  pub s5 : ℕ
  pub s6 : ℕ
  pub s7 : ℕ

pub data IpAddr : Type 0 where
  v4 : Ipv4Addr → IpAddr
  v6 : Ipv6Addr → IpAddr

abbrev pub address : ℕ → ℕ → ℕ → ℕ → Ipv4Addr
address a b c d = record { a = a; b = b; c = c; d = d }
