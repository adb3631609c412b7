-- ===== src/Packet/Parse.antt =====
-- `parse_ipv6_udp` of crates/dns-stack/src/packet.rs against a description by byte offsets.
use dns_announce.Shared.{
  ℕ, ◌+◌, ◌-◌, ◌/◌, ◌≤◌, ◌<◌, ◌≡◌, refl, arith, max, length, get_or, take, drop, ◌⊎◌, inl, inr,
  Outcome, found, nothing, lt→ltb, ltb-false, ◌==◌, ◌>>◌, guard, try, slice, index-found,
  slice-found, length-take, length-drop, take_all, ap, ◌∙◌, Bool-cases, ==_iff,
}
use native.Mathlib.Decide.{dec_le}
use dns_announce.Net.{Bytes, from_be16, Ipv6Addr, from_octets, try_ipv6, try_ipv6-some}
use dns_announce.Packet.{UdpV6, parse_udp, parse_ipv6_udp, udp_next_header}

-- The IPv6 payload length, from the header.
abbrev pub payload_len_at : Bytes → ℕ
payload_len_at pkt = from_be16 (get_or pkt 4 0) (get_or pkt 5 0)

-- An IPv6 header of version 6 and next header UDP, a whole UDP header behind it, and no fewer bytes
-- than the header announces.
pub record IsIpv6Udp (pkt : Bytes) : Type 0 where
  pub long_enough : 48 ≤ length pkt
  pub version : get_or pkt 0 0 / 16 ≡ 6
  pub next_header : get_or pkt 6 0 ≡ udp_next_header
  pub complete : payload_len_at pkt + 40 ≤ length pkt

-- The parts of such a packet.
abbrev pub udp_view : Bytes → UdpV6
udp_view pkt = record {
  src_ip = from_octets (take 16 (drop 8 pkt));
  dst_ip = from_octets (take 16 (drop 24 pkt));
  src_port = from_be16 (get_or (drop 40 pkt) 0 0) (get_or (drop 40 pkt) 1 0);
  dst_port = from_be16 (get_or (drop 40 pkt) 2 0) (get_or (drop 40 pkt) 3 0);
  payload = take (payload_len_at pkt - 8) (drop 8 (drop 40 pkt));
}

try-found :
    (pkt : Bytes) (at : ℕ)
    → at + 16 ≤ length pkt
    → try (try_ipv6 (take 16 (drop at pkt))) ≡ found (from_octets (take 16 (drop at pkt)))
try-found pkt at h =
    rw
      (try_ipv6-some (take 16 (drop at pkt))
        (omega (arith, length-take 16 (drop at pkt), length-drop at pkt)))
      refl

max_header : (len : ℕ) → max len 8 - 8 ≡ len - 8
max_header len = omega arith

parse_udp_lem :
    (src dst : Ipv6Addr) (len : ℕ) (udp : Bytes)
    → 8 ≤ length udp
    → len ≤ length udp
    → parse_udp src dst len udp
      ≡ found (record {
        src_ip = src;
        dst_ip = dst;
        src_port = from_be16 (get_or udp 0 0) (get_or udp 1 0);
        dst_port = from_be16 (get_or udp 2 0) (get_or udp 3 0);
        payload = take (len - 8) (drop 8 udp);
      })
unfolding parse_udp
parse_udp_lem src dst len udp h k = ground (
  arith,
  max_header len,
  index-found udp 0 0,
  index-found udp 1 0,
  index-found udp 2 0,
  index-found udp 3 0,
  slice-found udp 8 (max len 8),
)

parse_udp_short :
    (src dst : Ipv6Addr) (len : ℕ) (udp : Bytes)
    → length udp < len
    → parse_udp src dst len udp ≡ nothing
unfolding parse_udp
parse_udp_short src dst len udp h = ground arith

-- The rest of the parser once the packet is long enough for its headers.
after_headers : Bytes → Outcome UdpV6
after_headers pkt = do
  guard (get_or pkt 0 0 / 16 == 6)
  guard (get_or pkt 6 0 == udp_next_header)
  parse_udp (udp_view pkt).src_ip (udp_view pkt).dst_ip (payload_len_at pkt) (drop 40 pkt)

parse_short : (pkt : Bytes) → length pkt < 48 → parse_ipv6_udp pkt ≡ nothing
unfolding parse_ipv6_udp
parse_short pkt h = rw (lt→ltb (length pkt) 48 h) refl

slice_rest : (pkt : Bytes) → 40 ≤ length pkt → slice pkt 40 (length pkt) ≡ found (drop 40 pkt)
slice_rest pkt h =
    slice-found pkt 40 (length pkt) h (omega arith)
    ∙ ap found (rw (← length-drop 40 pkt) (take_all (drop 40 pkt)))

parse_long : (pkt : Bytes) → 48 ≤ length pkt → parse_ipv6_udp pkt ≡ after_headers pkt
unfolding parse_ipv6_udp after_headers
parse_long pkt h =
    rw
      (
        ltb-false (length pkt) 48 h,
        index-found pkt 0 0 (omega arith),
        index-found pkt 6 0 (omega arith),
        index-found pkt 4 0 (omega arith),
        index-found pkt 5 0 (omega arith),
        slice-found pkt 8 24 (omega arith) (omega arith),
        try-found pkt 8 (omega arith),
        slice-found pkt 24 40 (omega arith) (omega arith),
        try-found pkt 24 (omega arith),
        slice_rest pkt (omega arith),
      )
      refl

decide_long :
    (pkt : Bytes)
    → 48 ≤ length pkt
    → (IsIpv6Udp pkt × (after_headers pkt ≡ found (udp_view pkt)))
      ⊎ (¬ IsIpv6Udp pkt × (after_headers pkt ≡ nothing))
unfolding after_headers
decide_long pkt h = elim (Bool-cases (get_or pkt 0 0 / 16 == 6)) [
  | inr other ↦ inr (λ k. ground (arith, k.version), rw other refl)
  | inl six ↦ elim (Bool-cases (get_or pkt 6 0 == udp_next_header)) [
    | inr other ↦ inr (λ k. ground (arith, k.next_header), rw (six, other) refl)
    | inl udp ↦ elim (dec_le (payload_len_at pkt + 40) (length pkt)) [
      | yes fits ↦ inl (
        record {
          long_enough = h;
          version = (==_iff _ _).0 six;
          next_header = (==_iff _ _).0 udp;
          complete = fits;
        },
        rw (six, udp)
            (parse_udp_lem (udp_view pkt).src_ip (udp_view pkt).dst_ip (payload_len_at pkt)
              (drop 40 pkt) (omega (arith, length-drop 40 pkt))
              (omega (arith, length-drop 40 pkt))),
      )
      | no cut ↦ inr (
        λ k. cut k.complete,
        rw (six, udp)
            (parse_udp_short (udp_view pkt).src_ip (udp_view pkt).dst_ip (payload_len_at pkt)
              (drop 40 pkt) (omega (arith, length-drop 40 pkt))),
      )
    ]
  ]
]

-- The parser does not panic on any input: it returns the parts of a well-formed packet, and `None`
-- on every other.
pub parse_ipv6_udp-udp_view :
    (pkt : Bytes)
    → (IsIpv6Udp pkt × (parse_ipv6_udp pkt ≡ found (udp_view pkt)))
      ⊎ (¬ IsIpv6Udp pkt × (parse_ipv6_udp pkt ≡ nothing))
parse_ipv6_udp-udp_view pkt = elim (dec_le 48 (length pkt)) [
  | yes long ↦ rw (parse_long pkt long) (decide_long pkt long)
  | no short ↦ inr (λ k. short k.long_enough, parse_short pkt (omega arith))
]
