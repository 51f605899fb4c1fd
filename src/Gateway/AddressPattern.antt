-- ===== src/Gateway/AddressPattern.antt =====
-- gateway/src/management/config.rs: `AddressPattern` and `cidr_contains`. An address is the number that
-- its octets make, as `u32::from` and `u128::from` give it.
pub mod Prefix
use scg.Base.{
  ℕ_discrete, ℕ, ◌+◌, ◌-◌, ◌*◌, ◌/◌, ◌%◌, ◌^◌, Bool, true, false, ◌&&◌, ◌==◌, ltb, if◌then◌else◌,
}
use Prim.Native.Nat.{bit_and}

-- `std::net::IpAddr`
pub data IpAddr : Type 0 where
  v4 v6 : ℕ → IpAddr

-- `std::net::SocketAddr`, less the flow and scope words of an IPv6 one.
pub record SocketAddr : Type 0 where
  pub ip : IpAddr
  pub port : ℕ

-- `IpAddr::to_canonical` of the standard library: `::ffff:a.b.c.d` becomes `a.b.c.d`.
unfoldable pub to_canonical : IpAddr → IpAddr
to_canonical (v4 a) = v4 a
to_canonical (v6 a) = if a / 2 ^ 32 == 65535 then v4 (a % 2 ^ 32) else v6 a

-- `==` of addresses.
unfoldable pub same_ip : IpAddr → IpAddr → Bool
same_ip (v4 a) (v4 b) = a == b
same_ip (v6 a) (v6 b) = a == b
same_ip (v4 a) (v6 b) = false
same_ip (v6 a) (v4 b) = false

pub data AddressPattern : Type 0 where
  any : AddressPattern
  exact : SocketAddr → AddressPattern
  ip_only : IpAddr → AddressPattern
  cidr : IpAddr → ℕ → AddressPattern

-- `MAX.checked_shl(bits - prefix_len).unwrap_or(0)` of an unsigned type of `bits` bits; the difference
-- wraps around in `u32`.
unfoldable pub prefix_mask : ℕ → ℕ → ℕ
prefix_mask bits prefix_len =
    let s = (bits + 2 ^ 32 - prefix_len) % 2 ^ 32 in
    if ltb s bits then (2 ^ bits - 1) * 2 ^ s % 2 ^ bits else 0

-- One arm of `cidr_contains`.
abbrev pub same_prefix : ℕ → ℕ → ℕ → ℕ → Bool
same_prefix bits prefix_len net a =
    if prefix_len == 0
    then true
    else bit_and net (prefix_mask bits prefix_len) == bit_and a (prefix_mask bits prefix_len)

unfoldable pub cidr_contains : IpAddr → ℕ → IpAddr → Bool
cidr_contains (v4 net) prefix_len (v4 a) = same_prefix 32 prefix_len net a
cidr_contains (v6 net) prefix_len (v6 a) = same_prefix 128 prefix_len net a
cidr_contains (v4 net) prefix_len (v6 a) = false
cidr_contains (v6 net) prefix_len (v4 a) = false

unfoldable pub matches : AddressPattern → SocketAddr → Bool
matches any addr = true
matches (exact sa) addr =
    same_ip (to_canonical addr.ip) (to_canonical sa.ip) && (addr.port == sa.port)
matches (ip_only p) addr = same_ip (to_canonical addr.ip) (to_canonical p)
matches (cidr network prefix_len) addr = cidr_contains network prefix_len (to_canonical addr.ip)

unfoldable pub IpAddr-discrete : Discrete IpAddr
IpAddr-discrete = hlevel ℕ_discrete

unfoldable pub SocketAddr-discrete : Discrete SocketAddr
SocketAddr-discrete = hlevel (ℕ_discrete, IpAddr-discrete)
