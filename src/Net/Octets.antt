-- ===== src/Net/Octets.antt =====
-- Addresses made of bytes.
use dns_announce.Shared.{ℕ, arith, get_or, All, All-get_or}
use dns_announce.Net.{Bytes, IsByte, IsIpv6, from_octets}

pub from_octets-IsIpv6 : (b : Bytes) → All IsByte b → IsIpv6 (from_octets b)
unfolding from_octets
from_octets-IsIpv6 b h = (
  at 0,
  (
    at 1,
    (
      at 2,
      (
        at 3,
        (
          at 4,
          (
            at 5,
            (
              at 6,
              (at 7, (at 8, (at 9, (at 10, (at 11, (at 12, (at 13, (at 14, (at 15, tt))))))))),
            ),
          ),
        ),
      ),
    ),
  ),
)
  where
    at : (i : ℕ) → IsByte (get_or b i 0)
    at i = All-get_or IsByte b i 0 h (omega arith)
