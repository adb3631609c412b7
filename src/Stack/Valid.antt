-- ===== src/Stack/Valid.antt =====
-- What a packet that the stack of crates/dns-stack/src/lib.rs sends looks like to its receiver.
use native.Mathlib.Decide.{dec_lt}
use mathlib.Core.Path.{subst}
use dns_announce.Shared.{
  ◌+◌, ◌-◌, ◌^◌, ◌≤◌, ◌<◌, ◌≡◌, refl, sym, ◌∙◌, ◌⊎◌, inl, inr, some, List, [], ◌∷◌, arith, length,
  drop, is_empty, if◌then◌else◌, found, nothing, panicked, Outcome, All, All-take, All-drop,
  All-append,
}
use dns_announce.Net.{Bytes, IsByte, IsIpv6, Ipv6Addr}
use dns_announce.Net.Octets.{from_octets-IsIpv6}
use dns_announce.Packet.{
  UdpV6, parse_ipv6_udp, build_udp_packet, upper_layer_checksum, udp_next_header,
}
use dns_announce.Packet.Parse.{udp_view}
use dns_announce.Packet.RoundTrip.{parse_ipv6_udp-build_udp_packet}
use dns_announce.Packet.Checksum.{
  build_udp_packet-checksum, length-build_udp_packet, build_udp_packet-IsByte,
}
use dns_announce.Ra.{
  RaConfig, encode_dnssl_names, ra_unsummed, build_router_advertisement, opt_rdnss, opt_dnssl,
  all_nodes_multicast,
}
use dns_announce.Ra.Options.{walk_options, rdnss_body, dnssl_body, walk_options-ra_options}
use dns_announce.Ra.Advert.{
  IsRaConfig, IsRaHeader, build_router_advertisement-checksum,
  build_router_advertisement-IsRaHeader, build_router_advertisement-IsByte, drop-options,
}
use dns_announce.Dns.{SimpleDns, DnsConfig, Resolver, dns_port}
use dns_announce.Dns.Handle.{src_port-IsU16, IsForServer, handle_packet_sound}
use dns_announce.Stack.{DnsStack, unsolicited, dispatch}
use dns_announce.Stack.Dispatch.{dispatch-cases}
use dns_announce.Stack.Schedule.{dispatched, outcome_list}

-- A configuration of valid addresses and bytes whose advertisement fits its length fields.
pub record IsReady (stack : DnsStack) : Type 0 where
  pub ra : IsRaConfig stack.ra_cfg
  pub server : IsIpv6 stack.dns_cfg.server_addr
  pub few_servers : length stack.ra_cfg.dns_servers ≤ 127
  pub short_names : length (encode_dnssl_names stack.ra_cfg.search_domains) ≤ 2032
  pub fits : length (ra_unsummed stack.ra_cfg) < 2 ^ 16

-- Every message that the library builds is made of bytes: it is a `Vec<u8>`.
abbrev pub BuildsBytes : SimpleDns → Type 0
BuildsBytes wire =
    (p : _) (payload : Bytes)
    → wire.build_bytes_vec_compressed p ≡ some payload
    → All IsByte payload

-- A Router Advertisement of this configuration, to some address: an IPv6 header as RFC 4861 wants it,
-- a checksum that a receiver accepts, and options that a receiver reads as the servers and, if there
-- are any, the search domains.
pub record IsAdvert (cfg : RaConfig) (dst : Ipv6Addr) (pkt : Bytes) : Type 0 where
  pub header : IsRaHeader cfg.link_local_src dst pkt
  pub checksum : upper_layer_checksum cfg.link_local_src dst 58 (drop 40 pkt) ≡ 0
  pub options :
      walk_options (length (drop 56 pkt)) (drop 56 pkt)
      ≡ some (
          record { kind = opt_rdnss; body = rdnss_body cfg.dns_servers cfg.lifetime_secs }
          ∷ (if is_empty cfg.search_domains
              then []
              else record {
                kind = opt_dnssl;
                body = dnssl_body cfg.search_domains cfg.lifetime_secs;
              }
                ∷ []))

-- A UDP packet from the server's address and DNS port with a checksum that a receiver accepts.
pub record IsDnsReply (cfg : DnsConfig) (udp : UdpV6) (pkt : Bytes) : Type 0 where
  pub parses : parse_ipv6_udp pkt ≡ found udp
  pub from_server : udp.src_ip ≡ cfg.server_addr
  pub from_port : udp.src_port ≡ dns_port
  pub checksum : upper_layer_checksum udp.src_ip udp.dst_ip udp_next_header (drop 40 pkt) ≡ 0

-- Longer than a UDP packet can be: 40 bytes of IPv6 header and what its length field counts.
abbrev pub IsOversized : Bytes → Type 0
IsOversized pkt = 2 ^ 16 + 40 ≤ length pkt

-- Bytes that are one of the three.
abbrev pub IsValid : DnsStack → Bytes → Type 0
IsValid stack pkt =
    All IsByte pkt
    × (((dst : Ipv6Addr) × IsAdvert stack.ra_cfg dst pkt)
        ⊎ ((udp : UdpV6) × IsDnsReply stack.dns_cfg udp pkt)
        ⊎ IsOversized pkt)

module _ (wire : SimpleDns) (stack : DnsStack) (resolver : Resolver) (ready : IsReady stack) where
  advert-IsValid :
      (dst : Ipv6Addr) → IsIpv6 dst → IsValid stack (build_router_advertisement stack.ra_cfg dst)
  advert-IsValid dst h = (
    build_router_advertisement-IsByte stack.ra_cfg dst ready.ra h,
    inl (
      dst,
      record {
        header = build_router_advertisement-IsRaHeader stack.ra_cfg dst ready.fits;
        checksum = build_router_advertisement-checksum stack.ra_cfg dst ready.ra h ready.fits;
        options =
            rw drop-options
              (walk_options-ra_options stack.ra_cfg ready.few_servers ready.short_names);
      },
    ),
  )

  pub unsolicited-IsValid : IsValid stack (unsolicited stack)
  unsolicited-IsValid = unfold unsolicited in advert-IsValid all_nodes_multicast (omega arith)

  reply-IsValid :
      (pkt payload : Bytes)
      → All IsByte pkt
      → IsForServer stack.dns_cfg pkt
      → All IsByte payload
      → IsValid stack (
          build_udp_packet
            (udp_view pkt).dst_ip
            (udp_view pkt).src_ip
            dns_port
            (udp_view pkt).src_port
            payload
            64)
  reply-IsValid pkt payload h ours bytes =
      let src : IsIpv6 (udp_view pkt).dst_ip = subst IsIpv6 (sym ours.addressed) ready.server in
      let dst : IsIpv6 (udp_view pkt).src_ip =
        from_octets-IsIpv6 _ (All-take IsByte 16 (drop 8 pkt) (All-drop IsByte 8 pkt h)) in
      (
        build_udp_packet-IsByte _ _ dns_port _ payload 64 src dst (omega arith) bytes,
        elim (dec_lt (length payload) (2 ^ 16 - 8)) [
          | no long ↦ inr (inr (rw length-build_udp_packet (omega (arith, long))))
          | yes short ↦ inr (
              inl (
                _,
                record {
                  parses =
                      parse_ipv6_udp-build_udp_packet _ _ dns_port _ payload 64 (omega arith)
                        (src_port-IsU16 pkt h) short;
                  from_server = ours.addressed;
                  from_port = refl;
                  checksum =
                      (build_udp_packet-checksum _ _ dns_port _ payload 64 src dst bytes short).0;
                },
              ))
        ],
      )

  -- What the dispatcher sends for a packet of bytes.
  pub dispatch-IsValid :
      (pkt b : Bytes)
      → BuildsBytes wire
      → All IsByte pkt
      → dispatch wire stack resolver pkt ≡ found b
      → IsValid stack b
  dispatch-IsValid pkt b built h e = elim (dispatch-cases wire stack resolver pkt) [
    | inl (_, d) ↦ subst (IsValid stack) (same d) (
        advert-IsValid _
          (from_octets-IsIpv6 _ (All-take IsByte 16 (drop 8 pkt) (All-drop IsByte 8 pkt h))))
    | inr (_, d) ↦ elim (handle_packet_sound wire stack.dns_cfg resolver pkt) [
      | inl none' ↦ absurd (no_reply (sym e ∙ d ∙ none'))
      | inr (packet, question, payload, ours, answers, r) ↦
          let bytes = built _ payload answers.builds in
          subst (IsValid stack) (same (d ∙ r)) (reply-IsValid pkt payload h ours bytes)
    ]
  ]
    where
      no_reply : found b ≡ nothing → ⊥
      no_reply q = cc

      same : {c : Bytes} → dispatch wire stack resolver pkt ≡ found c → c ≡ b
      same {c = c} q = cc

  pub dispatched-IsValid :
      (pkts : List Bytes)
      → BuildsBytes wire
      → All (All IsByte) pkts
      → All (IsValid stack) (dispatched wire stack resolver pkts)
  unfolding dispatched
  dispatched-IsValid [] built h = tt
  dispatched-IsValid (pkt ∷ pkts) built h =
      All-append (IsValid stack) (outcome_list (dispatch wire stack resolver pkt)) _ (sent _ refl)
        (dispatched-IsValid pkts built h.1)
    where
      sent :
          (o : Outcome Bytes)
          → dispatch wire stack resolver pkt ≡ o
          → All (IsValid stack) (outcome_list o)
      sent (found b) e = (dispatch-IsValid pkt b built h.0 e, tt)
      sent nothing e = tt
      sent panicked e = tt
