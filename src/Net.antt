-- ===== src/Net.antt =====
-- The address types of `std::net` and `ipnet` that the crates exchange.
use plant_minder.Base.{ℕ, ◌/◌, ◌%◌, ◌^◌, ◌==◌, nat_eq, Bool}

-- The 128 bits of the address as a number.
abbrev pub Ipv6Addr : Type 0
Ipv6Addr = ℕ

-- `addr.segments()[0]`, the sixteen most significant bits.
unfoldable pub segment0 : Ipv6Addr → ℕ
segment0 a = a / 2 ^ 112 % 2 ^ 16

-- `::1`
abbrev pub loopback : Ipv6Addr
loopback = 1

abbrev pub is_loopback : Ipv6Addr → Bool
is_loopback a = a == loopback

pub record Ipv6Net : Type 0 where
  pub addr : Ipv6Addr
  pub prefix_len : ℕ

pub record SocketAddrV6 : Type 0 where
  pub ip : Ipv6Addr
  pub port : ℕ

-- A datagram's sender, of either address family.
pub data SocketAddr : Type 0 where
  v4 : ℕ → ℕ → SocketAddr
  v6 : SocketAddrV6 → SocketAddr
