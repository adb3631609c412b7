-- ===== src/Packet/RoundTrip.antt =====
-- `parse_ipv6_udp` after `build_udp_packet`, of crates/dns-stack/src/packet.rs.
use dns_announce.Shared.{
  ℕ, ◌+◌, ◌-◌, ◌/◌, ◌%◌, ◌^◌, ◌<◌, ◌≡◌, arith, length, take, inl, inr, found, take_all, ap, ◌∙◌,
}
use dns_announce.Net.{Bytes, IsU16, Ipv6Addr, from_octets, from_be16, from_be16-be16}
use dns_announce.Packet.{build_ipv6_header, udp_unsummed, build_udp_packet, parse_ipv6_udp}
use dns_announce.Packet.Parse.{IsIpv6Udp, udp_view, parse_ipv6_udp-udp_view}

-- A packet that is well formed parses to its parts.
pub parse_ipv6_udp-found : (pkt : Bytes) → IsIpv6Udp pkt → parse_ipv6_udp pkt ≡ found (udp_view pkt)
parse_ipv6_udp-found pkt h = elim (parse_ipv6_udp-udp_view pkt) [
  | inl (_, e) ↦ e
  | inr (bad, _) ↦ absurd (bad h)
]

module _ (src dst : Ipv6Addr) (sport dport : ℕ) (payload : Bytes) (hop : ℕ)
    (fits : length payload < 2 ^ 16 - 8) where
  built-IsIpv6Udp : IsIpv6Udp (build_udp_packet src dst sport dport payload hop)
  unfolding build_udp_packet build_ipv6_header udp_unsummed
  built-IsIpv6Udp = omega arith

  built_parts :
      IsU16 sport
      → IsU16 dport
      → udp_view (build_udp_packet src dst sport dport payload hop) ≡ record {
        src_ip = src;
        dst_ip = dst;
        src_port = sport;
        dst_port = dport;
        payload = payload;
      }
  unfolding build_udp_packet build_ipv6_header udp_unsummed from_octets
  built_parts hs hd = λ i. record {
    src_ip = src;
    dst_ip = dst;
    src_port = from_be16-be16 sport hs i;
    dst_port = from_be16-be16 dport hd i;
    payload = whole i;
  }
    where
      announced :
          from_be16
              ((8 + length payload) % 2 ^ 16 / 256 % 256)
              ((8 + length payload) % 2 ^ 16 % 256)
            - 8
          ≡ length payload
      announced = omega arith

      whole :
          take
            (from_be16
                ((8 + length payload) % 2 ^ 16 / 256 % 256)
                ((8 + length payload) % 2 ^ 16 % 256)
              - 8)
            payload
          ≡ payload
      whole = rw announced (take_all payload)

-- Parsing a built packet gives back the addresses, the ports and the payload, for 16-bit ports and
-- a payload of fewer than 65528 bytes.
pub parse_ipv6_udp-build_udp_packet :
    (src dst : Ipv6Addr) (sport dport : ℕ) (payload : Bytes) (hop : ℕ)
    → IsU16 sport
    → IsU16 dport
    → length payload < 2 ^ 16 - 8
    → parse_ipv6_udp (build_udp_packet src dst sport dport payload hop)
      ≡ found (record {
        src_ip = src;
        dst_ip = dst;
        src_port = sport;
        dst_port = dport;
        payload = payload;
      })
parse_ipv6_udp-build_udp_packet src dst sport dport payload hop hs hd fits =
    parse_ipv6_udp-found _ (built-IsIpv6Udp src dst sport dport payload hop fits)
    ∙ ap found (built_parts src dst sport dport payload hop fits hs hd)
