-- ===== src/Dns/Handle.antt =====
-- `handle_packet` of crates/dns-stack/src/dns.rs: which packets are answered, and to whom.
use dns_announce.Shared.{
  ◌-◌, ◌^◌, ◌<◌, ◌≡◌, refl, sym, ◌∙◌, ◌⊎◌, inl, inr, Bool, true, not, ◌||◌, some, arith, ◌==◌,
  ==_iff, length, found, nothing, Option-cases, Bool-cases, All, All-drop, All-get_or, drop, ◌↔◌,
}
use mathlib.Core.Bool.{false≢true}
use dns_announce.Net.{Bytes, IsByte, IsU16, same_addr, same_addr_iff}
use dns_announce.Packet.{UdpV6, parse_ipv6_udp, build_udp_packet}
use dns_announce.Packet.Parse.{IsIpv6Udp, udp_view, parse_ipv6_udp-udp_view}
use dns_announce.Packet.RoundTrip.{parse_ipv6_udp-build_udp_packet}
use dns_announce.Dns.{
  SimpleDns, DnsConfig, Resolver, dns_port, first, reply_for, answer_datagram, handle_packet,
}

pub src_port-IsU16 : (pkt : Bytes) → All IsByte pkt → IsU16 (udp_view pkt).src_port
src_port-IsU16 pkt h =
    let rest = All-drop IsByte 40 pkt h in
    omega (
      arith,
      All-get_or IsByte (drop 40 pkt) 0 0 rest (omega arith),
      All-get_or IsByte (drop 40 pkt) 1 0 rest (omega arith),
    )

-- A UDP packet to the DNS port of the server's address.
pub record IsForServer (cfg : DnsConfig) (pkt : Bytes) : Type 0 where
  pub udp : IsIpv6Udp pkt
  pub addressed : (udp_view pkt).dst_ip ≡ cfg.server_addr
  pub port : (udp_view pkt).dst_port ≡ dns_port

module _ (wire : SimpleDns) (resolver : Resolver) where
  open wire use {Packet, Question}

  -- The message in a datagram, its first question, and the message that answers it.
  pub record Answers (udp : UdpV6) (packet : Packet) (question : Question) (payload : Bytes)
      : Type 0 where
    pub parses : wire.parse udp.payload ≡ some packet
    pub asks : first (wire.questions packet) ≡ some question
    pub builds :
        wire.build_bytes_vec_compressed (reply_for wire resolver packet question) ≡ some payload

  abbrev pub reply_packet : UdpV6 → Bytes → Bytes
  reply_packet udp payload = build_udp_packet udp.dst_ip udp.src_ip dns_port udp.src_port payload 64

  answer_datagram-Answers :
      (udp : UdpV6) {packet : Packet} {question : Question} (payload : Bytes)
      → Answers udp packet question payload
      → answer_datagram wire resolver udp ≡ found (reply_packet udp payload)
  unfolding answer_datagram
  answer_datagram-Answers udp payload h = rw (h.parses, h.asks, h.builds) refl

  -- Either some message answers the datagram, or there is no reply.
  pub answer_datagram-cases :
      (udp : UdpV6)
      → ((packet : Packet) × (question : Question) × (payload : Bytes) × Answers udp packet question
            payload
          × (answer_datagram wire resolver udp ≡ found (reply_packet udp payload)))
        ⊎ (answer_datagram wire resolver udp ≡ nothing)
  unfolding answer_datagram
  answer_datagram-cases udp = elim (Option-cases (wire.parse udp.payload)) [
    | inl bad ↦ inr (rw bad refl)
    | inr (packet, p) ↦ elim (Option-cases (first (wire.questions packet))) [
      | inl bad ↦ inr (rw (p, bad) refl)
      | inr (question, q) ↦
          elim (Option-cases
            (wire.build_bytes_vec_compressed (reply_for wire resolver packet question))) [
              | inl bad ↦ inr (rw (p, q, bad) refl)
              | inr (payload, b) ↦ inl (
                packet,
                question,
                payload,
                record { parses = p; asks = q; builds = b },
                rw (p, q, b) refl,
              )
            ]
    ]
  ]

module _ (wire : SimpleDns) (cfg : DnsConfig) (resolver : Resolver) where
  open wire use {Packet, Question}

  addressed_to : UdpV6 → Bool
  addressed_to udp =
      not (not (same_addr udp.dst_ip cfg.server_addr) || not (udp.dst_port == dns_port))

  addressed_to_iff :
      (udp : UdpV6)
      → (addressed_to udp ≡ true) ↔ ((udp.dst_ip ≡ cfg.server_addr) × (udp.dst_port ≡ dns_port))
  unfolding addressed_to
  addressed_to_iff udp = (
    λ h. to h,
    λ h. rw ((same_addr_iff udp.dst_ip cfg.server_addr).1 h.0, (==_iff _ _).1 h.1) refl,
  )
    where
      to : addressed_to udp ≡ true → (udp.dst_ip ≡ cfg.server_addr) × (udp.dst_port ≡ dns_port)
      to h = (
        (same_addr_iff udp.dst_ip cfg.server_addr).0 (ground arith),
        (==_iff _ _).0 (ground arith),
      )

  -- A packet for the server is handed to the DNS part, and every other gets no reply.
  handle_packet-cases :
      (pkt : Bytes)
      → (IsForServer cfg pkt
          × (handle_packet wire cfg resolver pkt ≡ answer_datagram wire resolver (udp_view pkt)))
        ⊎ (¬ IsForServer cfg pkt × (handle_packet wire cfg resolver pkt ≡ nothing))
  unfolding handle_packet addressed_to
  handle_packet-cases pkt = elim (parse_ipv6_udp-udp_view pkt) [
    | inr (bad, e) ↦ inr (λ k. bad k.udp, rw e refl)
    | inl (good, e) ↦ elim (Bool-cases (addressed_to (udp_view pkt))) [
      | inl to_us ↦
          let (ip, port) = (addressed_to_iff (udp_view pkt)).0 to_us in
          inl (record { udp = good; addressed = ip; port = port }, rw (e, to_us) refl)
      | inr other ↦ inr (
        λ k. false≢true (sym other ∙ (addressed_to_iff (udp_view pkt)).1 (k.addressed, k.port)),
        rw (e, other) refl,
      )
    ]
  ]

  -- No packet makes `handle_packet` panic, and a reply is made only to a UDP packet for the server's
  -- address and DNS port, whose payload the library parses to a message with a question: it is the
  -- message that answers the first question, sent from the server's address to the packet's source.
  pub handle_packet_sound :
      (pkt : Bytes)
      → (handle_packet wire cfg resolver pkt ≡ nothing)
        ⊎ ((packet : Packet) × (question : Question) × (payload : Bytes) × IsForServer cfg pkt
            × Answers wire resolver (udp_view pkt) packet question payload
            × (handle_packet wire cfg resolver pkt
                ≡ found (reply_packet wire resolver (udp_view pkt) payload)))
  handle_packet_sound pkt = elim (handle_packet-cases pkt) [
    | inr (_, e) ↦ inl e
    | inl (ours, e) ↦ elim (answer_datagram-cases wire resolver (udp_view pkt)) [
      | inr no_answer ↦ inl (e ∙ no_answer)
      | inl (packet, question, payload, h, r) ↦ inr (packet, question, payload, ours, h, e ∙ r)
    ]
  ]

  -- A UDP packet for the DNS port of the server, whose payload parses to a message with a first
  -- question that some message of fewer than 65528 bytes answers, is answered. The reply is a UDP
  -- packet that parses: from the server's address and port 53 to the address and port that the
  -- query came from, with the built message.
  pub handle_packet_complete :
      (pkt : Bytes) (packet : Packet) (question : Question) (payload : Bytes)
      → All IsByte pkt
      → IsForServer cfg pkt
      → Answers wire resolver (udp_view pkt) packet question payload
      → length payload < 2 ^ 16 - 8
      → (reply : Bytes) × (handle_packet wire cfg resolver pkt ≡ found reply)
        × (parse_ipv6_udp reply
            ≡ found (record {
              src_ip = cfg.server_addr;
              dst_ip = (udp_view pkt).src_ip;
              src_port = dns_port;
              dst_port = (udp_view pkt).src_port;
              payload = payload;
            }))
  handle_packet_complete pkt packet question payload bytes ours h fits =
      (reply_packet wire resolver (udp_view pkt) payload, handled, rw (← ours.addressed) parsed)
    where
      answered :
          answer_datagram wire resolver (udp_view pkt)
          ≡ found (reply_packet wire resolver (udp_view pkt) payload)
      answered = answer_datagram-Answers wire resolver (udp_view pkt) payload h

      handled :
          handle_packet wire cfg resolver pkt
          ≡ found (reply_packet wire resolver (udp_view pkt) payload)
      handled = elim (handle_packet-cases pkt) [
        | inl (_, e) ↦ e ∙ answered
        | inr (bad, _) ↦ absurd (bad ours)
      ]

      parsed :
          parse_ipv6_udp (reply_packet wire resolver (udp_view pkt) payload)
          ≡ found (record {
            src_ip = (udp_view pkt).dst_ip;
            dst_ip = (udp_view pkt).src_ip;
            src_port = dns_port;
            dst_port = (udp_view pkt).src_port;
            payload = payload;
          })
      parsed =
          parse_ipv6_udp-build_udp_packet (udp_view pkt).dst_ip (udp_view pkt).src_ip dns_port
            (udp_view pkt).src_port payload 64 (omega arith) (src_port-IsU16 pkt bytes) fits
