-- ===== src/Packet/Checksum.antt =====
-- The checksums of crates/dns-stack/src/packet.rs as a receiver checks them: over the packet with
-- its checksum in place the computed checksum is zero.
use dns_announce.Shared.{
  ℕ, ◌+◌, ◌-◌, ◌/◌, ◌%◌, ◌^◌, ◌<◌, ◌≡◌, refl, arith, length, All, drop, take, ◌⊎◌, ap, ◌∙◌,
}
use dns_announce.Net.{Bytes, IsByte, IsU16, be16, Ipv6Addr, octets, IsIpv6}
use dns_announce.Packet.{
  checksum_accumulate, checksum_finish, add_u32, upper_layer_checksum, udp_next_header,
  udp_unsummed, udp_checksum, copy_at, build_ipv6_header, build_udp_packet,
}
use dns_announce.Packet.Sum.{
  word_sum, word_sum-le, residue, residue_complement, checksum_accumulate-word_sum,
  checksum_finish-residue,
}

-- The sum of the words of the pseudo-header and of the packet.
abbrev pub pseudo_sum : Ipv6Addr → Ipv6Addr → ℕ → Bytes → ℕ
pseudo_sum src dst next_header b =
    word_sum (octets src) + word_sum (octets dst) + length b + next_header + word_sum b

pub pseudo_sum-lt :
    (src dst : Ipv6Addr) (next_header : ℕ) (b : Bytes)
    → IsIpv6 src
    → IsIpv6 dst
    → IsByte next_header
    → All IsByte b
    → length b < 2 ^ 16
    → pseudo_sum src dst next_header b < 2 ^ 31 + 2 ^ 30
pseudo_sum-lt src dst n b hs hd hn hb hl =
    omega (arith, word_sum-le (octets src) hs, word_sum-le (octets dst) hd, word_sum-le b hb)

accumulated :
    (s d b : Bytes) (n : ℕ)
    → length b < 2 ^ 16
    → word_sum s + word_sum d + length b + n + word_sum b < 2 ^ 32
    → (let sum2 = checksum_accumulate (checksum_accumulate 0 s) d in
        let len = length b % 2 ^ 32 in
        checksum_accumulate
          (add_u32 (add_u32 (add_u32 sum2 (len / 2 ^ 16 % 2 ^ 16)) (len % 2 ^ 16)) n)
          b)
      ≡ word_sum s + word_sum d + length b + n + word_sum b
accumulated s d b n hl h =
    let e1 : checksum_accumulate 0 s ≡ word_sum s =
      omega (arith, checksum_accumulate-word_sum 0 s (omega arith)) in
    let e2 : checksum_accumulate (checksum_accumulate 0 s) d ≡ word_sum s + word_sum d =
      rw e1 (checksum_accumulate-word_sum (word_sum s) d (omega arith)) in
    let sum5 : ℕ = word_sum s + word_sum d + length b + n in
    rw (e2, start) (checksum_accumulate-word_sum sum5 b (omega arith))
  where
    start :
        add_u32
          (add_u32
            (add_u32 (word_sum s + word_sum d) (length b % 2 ^ 32 / 2 ^ 16 % 2 ^ 16))
            (length b % 2 ^ 32 % 2 ^ 16))
          n
        ≡ word_sum s + word_sum d + length b + n
    start = omega arith

-- For valid addresses, a next header from 1 to 255 and a packet of bytes below 64 KiB,
-- `upper_layer_checksum` is the complement of the sum of the 16-bit words of the pseudo-header and
-- the packet, modulo 65535: no addition wraps around.
pub upper_layer_checksum-residue :
    (src dst : Ipv6Addr) (next_header : ℕ) (b : Bytes)
    → IsIpv6 src
    → IsIpv6 dst
    → IsByte next_header
    → 0 < next_header
    → All IsByte b
    → length b < 2 ^ 16
    → upper_layer_checksum src dst next_header b
      ≡ 0xffff - residue (pseudo_sum src dst next_header b)
unfolding upper_layer_checksum
upper_layer_checksum-residue src dst n b hs hd hn pos hb hl =
    let small = pseudo_sum-lt src dst n b hs hd hn hb hl in
    ap checksum_finish (accumulated (octets src) (octets dst) b n hl (omega arith))
    ∙ checksum_finish-residue (pseudo_sum src dst n b) (omega arith) (omega arith)

-- A packet whose checksum word was zero verifies once the checksum stands in that word; an all-ones
-- word in place of a zero checksum verifies too.
pub checksum_filled :
    (src dst : Ipv6Addr) (next_header : ℕ) (p q : Bytes) (csum : ℕ)
    → IsIpv6 src
    → IsIpv6 dst
    → IsByte next_header
    → 0 < next_header
    → All IsByte p
    → All IsByte q
    → length p < 2 ^ 16
    → length q ≡ length p
    → word_sum q ≡ word_sum p + csum
    → (csum ≡ upper_layer_checksum src dst next_header p)
      ⊎ ((upper_layer_checksum src dst next_header p ≡ 0) × (csum ≡ 0xffff))
    → upper_layer_checksum src dst next_header q ≡ 0
checksum_filled src dst n p q c hs hd hn pos hp hq hl el ew hc =
    upper_layer_checksum-residue src dst n q hs hd hn pos hq (omega arith) ∙ rw total filled
  where
    total : pseudo_sum src dst n q ≡ pseudo_sum src dst n p + c
    total = rw (el, ew) (omega arith)

    before : upper_layer_checksum src dst n p ≡ 0xffff - residue (pseudo_sum src dst n p)
    before = upper_layer_checksum-residue src dst n p hs hd hn pos hp hl

    filled : 0xffff - residue (pseudo_sum src dst n p + c) ≡ 0
    filled = residue_complement (pseudo_sum src dst n p) c (omega arith) (rw before at hc)

pub upper_layer_checksum-IsU16 :
    (src dst : Ipv6Addr) (n : ℕ) (b : Bytes) → IsU16 (upper_layer_checksum src dst n b)
unfolding upper_layer_checksum checksum_finish
upper_layer_checksum-IsU16 src dst n b = omega arith

udp_checksum_bounds :
    (src dst : Ipv6Addr) (udp : Bytes)
    → (0 < udp_checksum src dst udp) × (udp_checksum src dst udp < 2 ^ 16)
unfolding udp_checksum
udp_checksum_bounds src dst udp =
    ground (arith, upper_layer_checksum-IsU16 src dst udp_next_header udp)

udp_checksum_cases :
    (src dst : Ipv6Addr) (udp : Bytes)
    → (udp_checksum src dst udp ≡ upper_layer_checksum src dst udp_next_header udp)
      ⊎ ((upper_layer_checksum src dst udp_next_header udp ≡ 0)
          × (udp_checksum src dst udp ≡ 0xffff))
unfolding udp_checksum
udp_checksum_cases src dst udp = ground arith

-- The UDP part of a packet that `build_udp_packet` makes, with its checksum in place.
udp_summed : Ipv6Addr → Ipv6Addr → ℕ → ℕ → Bytes → Bytes
udp_summed src dst sport dport payload =
    let udp = udp_unsummed sport dport payload in copy_at 6 (be16 (udp_checksum src dst udp)) udp

drop-build_udp_packet :
    (src dst : Ipv6Addr) (sport dport : ℕ) (payload : Bytes) (hop : ℕ)
    → drop 40 (build_udp_packet src dst sport dport payload hop)
      ≡ udp_summed src dst sport dport payload
unfolding build_udp_packet build_ipv6_header udp_summed
drop-build_udp_packet src dst sport dport payload hop = refl

module _ (src dst : Ipv6Addr) (sport dport : ℕ) (payload : Bytes) where
  udp_unsummed-IsByte : All IsByte payload → All IsByte (udp_unsummed sport dport payload)
  unfolding udp_unsummed
  udp_unsummed-IsByte h = ground arith

  udp_summed-IsByte : All IsByte payload → All IsByte (udp_summed src dst sport dport payload)
  unfolding udp_summed udp_unsummed
  udp_summed-IsByte h = ground arith

  -- The packet is made of bytes.
  pub build_udp_packet-IsByte :
      (hop : ℕ)
      → IsIpv6 src
      → IsIpv6 dst
      → IsByte hop
      → All IsByte payload
      → All IsByte (build_udp_packet src dst sport dport payload hop)
  unfolding build_udp_packet build_ipv6_header udp_unsummed
  build_udp_packet-IsByte hop hs hd hh h = ground arith

  -- The two headers, and the payload.
  pub length-build_udp_packet :
      (hop : ℕ) → length (build_udp_packet src dst sport dport payload hop) ≡ 48 + length payload
  unfolding build_udp_packet build_ipv6_header udp_unsummed
  length-build_udp_packet hop = omega arith

  word_sum-udp_summed :
      word_sum (udp_summed src dst sport dport payload)
      ≡ word_sum (udp_unsummed sport dport payload)
        + udp_checksum src dst (udp_unsummed sport dport payload)
  unfolding udp_summed udp_unsummed
  word_sum-udp_summed =
      omega (arith, udp_checksum_bounds src dst (udp_unsummed sport dport payload))

  length-udp_summed :
      length (udp_summed src dst sport dport payload) ≡ length (udp_unsummed sport dport payload)
  unfolding udp_summed udp_unsummed
  length-udp_summed = omega arith

  length-udp_unsummed : length (udp_unsummed sport dport payload) ≡ 8 + length payload
  unfolding udp_unsummed
  length-udp_unsummed = omega arith

checksum_field_pos :
    (src dst : Ipv6Addr) (sport dport : ℕ) (payload : Bytes) (hop : ℕ)
    → 0 < word_sum (take 2 (drop 46 (build_udp_packet src dst sport dport payload hop)))
unfolding build_udp_packet build_ipv6_header udp_unsummed
checksum_field_pos src dst sport dport payload hop =
    omega (arith, udp_checksum_bounds src dst (udp_unsummed sport dport payload))

-- For valid addresses and a payload of fewer than 65528 bytes, whatever the ports and the hop
-- limit, the checksum computed over the built UDP packet with its checksum in place is zero, so a
-- receiver accepts it, and the checksum field is not zero, which would mean that there is none.
pub build_udp_packet-checksum :
    (src dst : Ipv6Addr) (sport dport : ℕ) (payload : Bytes) (hop : ℕ)
    → IsIpv6 src
    → IsIpv6 dst
    → All IsByte payload
    → length payload < 2 ^ 16 - 8
    → (upper_layer_checksum src dst udp_next_header
          (drop 40 (build_udp_packet src dst sport dport payload hop))
        ≡ 0)
      × (0 < word_sum (take 2 (drop 46 (build_udp_packet src dst sport dport payload hop))))
build_udp_packet-checksum src dst sport dport payload hop hs hd hp hl =
    let udp = udp_unsummed sport dport payload in
    let bytes = udp_unsummed-IsByte src dst sport dport payload hp in
    let bytes' = udp_summed-IsByte src dst sport dport payload hp in
    let len = length-udp_unsummed src dst sport dport payload in
    (
      rw drop-build_udp_packet (
          checksum_filled src dst udp_next_header udp _ (udp_checksum src dst udp) hs hd
            (omega arith) (omega arith) bytes bytes' (omega (arith, len))
            (length-udp_summed src dst sport dport payload)
            (word_sum-udp_summed src dst sport dport payload) (udp_checksum_cases src dst udp)),
      checksum_field_pos src dst sport dport payload hop,
    )
