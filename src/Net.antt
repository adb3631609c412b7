-- ===== src/Net.antt =====
-- What the crates use of Rust's `std::net` and of its integers: bytes in network order, IPv6
-- addresses by their 16 octets and IPv4 addresses by their four.
pub mod Display
pub mod Octets
use dns_announce.Shared.{
  ℕ, ◌+◌, ◌*◌, ◌/◌, ◌%◌, ◌^◌, ◌<◌, ◌≡◌, refl, Bool, true, Option, none, some, List, [], ◌∷◌, arith,
  ◌==◌, if◌then◌else◌, length, get_or, All, seq_eq, seq_eq_iff, ◌↔◌, ap,
}

abbrev pub Bytes : Type 0
Bytes = List ℕ

abbrev pub IsByte : ℕ → Type 0
IsByte b = b < 256

abbrev pub IsU16 : ℕ → Type 0
IsU16 n = n < 2 ^ 16

abbrev pub IsU32 : ℕ → Type 0
IsU32 n = n < 2 ^ 32

-- `u16::to_be_bytes`, `u32::to_be_bytes` and `u16::from_be_bytes`.
abbrev pub be16 : ℕ → Bytes
be16 n = (n / 256 % 256) ∷ (n % 256) ∷ []

abbrev pub be32 : ℕ → Bytes
be32 n = (n / 2 ^ 24 % 256) ∷ (n / 2 ^ 16 % 256) ∷ (n / 256 % 256) ∷ (n % 256) ∷ []

abbrev pub from_be16 : ℕ → ℕ → ℕ
from_be16 hi lo = hi * 256 + lo

pub from_be16-be16 : (n : ℕ) → IsU16 n → from_be16 (n / 256 % 256) (n % 256) ≡ n
from_be16-be16 n h = omega arith

-- `Ipv6Addr`, by its octets.
pub record Ipv6Addr : Type 0 where
  pub o0 : ℕ
  pub o1 : ℕ
  pub o2 : ℕ
  pub o3 : ℕ
  pub o4 : ℕ
  pub o5 : ℕ
  pub o6 : ℕ
  pub o7 : ℕ
  pub o8 : ℕ
  pub o9 : ℕ
  pub o10 : ℕ
  pub o11 : ℕ
  pub o12 : ℕ
  pub o13 : ℕ
  pub o14 : ℕ
  pub o15 : ℕ

abbrev pub octets : Ipv6Addr → Bytes
octets a =
    a.o0 ∷ a.o1 ∷ a.o2 ∷ a.o3 ∷ a.o4 ∷ a.o5 ∷ a.o6 ∷ a.o7 ∷ a.o8 ∷ a.o9 ∷ a.o10 ∷ a.o11 ∷ a.o12
    ∷ a.o13 ∷ a.o14 ∷ a.o15 ∷ []

-- `Ipv6Addr::from([u8; 16])`, at the elements of a list.
unfoldable pub from_octets : Bytes → Ipv6Addr
from_octets b = record {
  o0 = get_or b 0 0;
  o1 = get_or b 1 0;
  o2 = get_or b 2 0;
  o3 = get_or b 3 0;
  o4 = get_or b 4 0;
  o5 = get_or b 5 0;
  o6 = get_or b 6 0;
  o7 = get_or b 7 0;
  o8 = get_or b 8 0;
  o9 = get_or b 9 0;
  o10 = get_or b 10 0;
  o11 = get_or b 11 0;
  o12 = get_or b 12 0;
  o13 = get_or b 13 0;
  o14 = get_or b 14 0;
  o15 = get_or b 15 0;
}

-- `<[u8; 16]>::try_from(slice).ok()` and `Ipv6Addr::from` of it.
pub try_ipv6 : Bytes → Option Ipv6Addr
try_ipv6 b = if length b == 16 then some (from_octets b) else none

pub try_ipv6-some : (b : Bytes) → length b ≡ 16 → try_ipv6 b ≡ some (from_octets b)
unfolding try_ipv6
try_ipv6-some b h = rw h refl

-- `==` on addresses compares the octets.
pub same_addr : Ipv6Addr → Ipv6Addr → Bool
same_addr a b = seq_eq (octets a) (octets b)

pub from_octets-octets : (a : Ipv6Addr) → from_octets (octets a) ≡ a
unfolding from_octets
from_octets-octets a = refl

pub same_addr_iff : (a b : Ipv6Addr) → (same_addr a b ≡ true) ↔ (a ≡ b)
unfolding same_addr from_octets
same_addr_iff a b = (
  λ h. ap from_octets ((seq_eq_iff (octets a) (octets b)).0 h),
  λ e. (seq_eq_iff (octets a) (octets b)).1 (ap octets e),
)

abbrev pub IsIpv6 : Ipv6Addr → Type 0
IsIpv6 a = All IsByte (octets a)

-- `Ipv4Addr`, by its octets.
pub record Ipv4Addr : Type 0 where
  pub a : ℕ
  pub b : ℕ
  pub c : ℕ
  pub d : ℕ

pub data IpAddr : Type 0 where
  v4 : Ipv4Addr → IpAddr
  v6 : Ipv6Addr → IpAddr
