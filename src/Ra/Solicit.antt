-- ===== src/Ra/Solicit.antt =====
-- `is_router_solicitation` and `solicitation_src` of crates/dns-stack/src/ra.rs.
use dns_announce.Shared.{
  ◌≤◌, ◌<◌, ◌≡◌, ◌∙◌, Bool, true, false, ◌&&◌, arith, ◌==◌, leb, length, get_or, take, drop, found,
  nothing, index-found, slice-found, length-take, length-drop, inl, inr, ◌⊎◌,
}
use dns_announce.Net.{Bytes, Ipv6Addr, from_octets, try_ipv6-some}
use dns_announce.Packet.{build_ipv6_header}
use dns_announce.Ra.{
  RaConfig, is_router_solicitation, solicitation_src, icmpv6_rtr_solicit,
  build_router_advertisement, ra_unsummed,
}

-- Hop limit 255, next header ICMPv6, and type 133 behind a plain IPv6 header.
pub solicitation_bytes : Bytes → Bool
solicitation_bytes pkt =
    leb 48 (length pkt)
    && (get_or pkt 7 0 == 255)
    && (get_or pkt 6 0 == 58)
    && (get_or pkt 40 0 == icmpv6_rtr_solicit)

-- The test panics on no input, and answers as `solicitation_bytes`: 48 bytes or more, hop limit
-- 255, next header ICMPv6 and message type 133.
pub is_router_solicitation-solicitation_bytes :
    (pkt : Bytes) → is_router_solicitation pkt ≡ found (solicitation_bytes pkt)
unfolding is_router_solicitation solicitation_bytes
is_router_solicitation-solicitation_bytes pkt =
    ground (arith, index-found pkt 7 0, index-found pkt 6 0, index-found pkt 40 0)

-- The source of every packet with a whole IPv6 source field is found, and nothing panics.
pub solicitation_src-cases :
    (pkt : Bytes)
    → ((24 ≤ length pkt) × (solicitation_src pkt ≡ found (from_octets (take 16 (drop 8 pkt)))))
      ⊎ ((length pkt < 24) × (solicitation_src pkt ≡ nothing))
unfolding solicitation_src
solicitation_src-cases pkt = ground (
  arith,
  slice-found pkt 8 24,
  try_ipv6-some (take 16 (drop 8 pkt)),
  length-take 16 (drop 8 pkt),
  length-drop 8 pkt,
)

-- An advertisement, of any configuration and to any address, is no solicitation.
pub advertisement_no_solicitation :
    (cfg : RaConfig) (dst : Ipv6Addr)
    → is_router_solicitation (build_router_advertisement cfg dst) ≡ found false
unfolding build_router_advertisement build_ipv6_header ra_unsummed solicitation_bytes
advertisement_no_solicitation cfg dst =
    is_router_solicitation-solicitation_bytes (build_router_advertisement cfg dst) ∙ ground arith

-- A solicitation has a source.
pub solicitation_src-found :
    (pkt : Bytes)
    → solicitation_bytes pkt ≡ true
    → solicitation_src pkt ≡ found (from_octets (take 16 (drop 8 pkt)))
unfolding solicitation_bytes
solicitation_src-found pkt h = elim (solicitation_src-cases pkt) [
  | inl (_, e) ↦ e
  | inr (short, _) ↦ absurd (ground arith)
]
