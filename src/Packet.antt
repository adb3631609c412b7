-- ===== src/Packet.antt =====
-- crates/dns-stack/src/packet.rs: IPv6 headers, the RFC 1071 checksum, and building and parsing
-- UDP packets over IPv6. A packet is its list of bytes.
pub mod Sum
pub mod Checksum
pub mod Parse
pub mod RoundTrip
use dns_announce.Shared.{
  ℕ, zero, suc, ◌+◌, ◌-◌, ◌*◌, ◌/◌, ◌%◌, ◌^◌, max, Bool, not, ◌||◌, List, [], ◌∷◌, ◌++◌, arith,
  ◌==◌, leb, ltb, if◌then◌else◌, length, set, drop, replicate, Outcome, found, nothing, panicked,
  ◌>>=◌, ◌>>◌, guard, try, index, slice,
}
use dns_announce.Net.{Bytes, be16, from_be16, Ipv6Addr, octets, try_ipv6}

abbrev pub ipv6_header_len : ℕ
ipv6_header_len = 40

abbrev pub icmpv6_next_header : ℕ
icmpv6_next_header = 58

abbrev pub udp_next_header : ℕ
udp_next_header = 17

-- `buf[at..at + data.len()].copy_from_slice(data)`, for a range inside `buf`.
abbrev pub copy_at : ℕ → Bytes → Bytes → Bytes
copy_at at [] buf = buf
copy_at at (x ∷ xs) buf = copy_at (suc at) xs (set buf at x)

unfoldable pub build_ipv6_header : Ipv6Addr → Ipv6Addr → ℕ → ℕ → ℕ → Bytes
build_ipv6_header src dst next_header hop_limit payload_len =
    let hdr0 = replicate ipv6_header_len 0 in
    let hdr1 = set hdr0 0 0x60 in
    let hdr2 = copy_at 4 (be16 payload_len) hdr1 in
    let hdr3 = set hdr2 6 next_header in
    let hdr4 = set hdr3 7 hop_limit in
    let hdr5 = copy_at 8 (octets src) hdr4 in copy_at 24 (octets dst) hdr5

-- `u32` addition, as it wraps.
abbrev pub add_u32 : ℕ → ℕ → ℕ
add_u32 a b = (a + b) % 2 ^ 32

pub checksum_accumulate : ℕ → Bytes → ℕ
checksum_accumulate sum [] = sum
checksum_accumulate sum (last ∷ []) = add_u32 sum (last * 256)
checksum_accumulate sum (hi ∷ lo ∷ rest) = checksum_accumulate (add_u32 sum (from_be16 hi lo)) rest

-- The loop of `checksum_finish`, on fuel: `sum & 0xffff` is `sum % 2 ^ 16`.
pub fold_carries : ℕ → ℕ → ℕ
fold_carries zero sum = sum
fold_carries (suc fuel) sum =
    let rest = fold_carries fuel (add_u32 (sum % 2 ^ 16) (sum / 2 ^ 16)) in
    if sum / 2 ^ 16 == 0 then sum else rest

-- `!(sum as u16)`, behind the loop. Two rounds are enough for a `u32`.
pub checksum_finish : ℕ → ℕ
checksum_finish sum = 0xffff - fold_carries 3 sum % 2 ^ 16

pub upper_layer_checksum : Ipv6Addr → Ipv6Addr → ℕ → Bytes → ℕ
upper_layer_checksum src dst next_header upper_layer_packet =
    let sum1 = checksum_accumulate 0 (octets src) in
    let sum2 = checksum_accumulate sum1 (octets dst) in
    let len = length upper_layer_packet % 2 ^ 32 in
    let sum3 = add_u32 sum2 (len / 2 ^ 16 % 2 ^ 16) in
    let sum4 = add_u32 sum3 (len % 2 ^ 16) in
    let sum5 = add_u32 sum4 next_header in
    checksum_finish (checksum_accumulate sum5 upper_layer_packet)

-- The datagram before its checksum is filled in.
pub udp_unsummed : ℕ → ℕ → Bytes → Bytes
udp_unsummed src_port dst_port payload =
    let udp_len = 8 + length payload in
    be16 src_port ++ (be16 dst_port ++ (be16 (udp_len % 2 ^ 16) ++ (0 ∷ 0 ∷ payload)))

-- A computed checksum of 0 is sent as all ones.
pub udp_checksum : Ipv6Addr → Ipv6Addr → Bytes → ℕ
udp_checksum src_ip dst_ip udp =
    let csum = upper_layer_checksum src_ip dst_ip udp_next_header udp in
    if csum == 0 then 0xffff else csum

pub build_udp_packet : Ipv6Addr → Ipv6Addr → ℕ → ℕ → Bytes → ℕ → Bytes
build_udp_packet src_ip dst_ip src_port dst_port payload hop_limit =
    let udp_len = 8 + length payload in
    let udp = udp_unsummed src_port dst_port payload in
    let csum = udp_checksum src_ip dst_ip udp in
    let ip_hdr = build_ipv6_header src_ip dst_ip udp_next_header hop_limit (udp_len % 2 ^ 16) in
    ip_hdr ++ copy_at 6 (be16 csum) udp

pub record UdpV6 : Type 0 where
  pub src_ip : Ipv6Addr
  pub dst_ip : Ipv6Addr
  pub src_port : ℕ
  pub dst_port : ℕ
  pub payload : Bytes

-- `parse_ipv6_udp` from `let udp` on.
pub parse_udp : Ipv6Addr → Ipv6Addr → ℕ → Bytes → Outcome UdpV6
parse_udp src_ip dst_ip payload_len udp = do
  guard (not (ltb (length udp) 8 || ltb (length udp) payload_len))
  src_hi ← index udp 0
  src_lo ← index udp 1
  dst_hi ← index udp 2
  dst_lo ← index udp 3
  payload ← slice udp 8 (max payload_len 8)
  found (record {
    src_ip = src_ip;
    dst_ip = dst_ip;
    src_port = from_be16 src_hi src_lo;
    dst_port = from_be16 dst_hi dst_lo;
    payload = payload;
  })

pub parse_ipv6_udp : Bytes → Outcome UdpV6
parse_ipv6_udp pkt = do
  guard (not (ltb (length pkt) (ipv6_header_len + 8)))
  version ← index pkt 0
  guard (version / 16 == 6)
  next_header ← index pkt 6
  guard (next_header == udp_next_header)
  len_hi ← index pkt 4
  len_lo ← index pkt 5
  src ← slice pkt 8 24
  src_ip ← try (try_ipv6 src)
  dst ← slice pkt 24 40
  dst_ip ← try (try_ipv6 dst)
  udp ← slice pkt ipv6_header_len (length pkt)
  parse_udp src_ip dst_ip (from_be16 len_hi len_lo) udp
