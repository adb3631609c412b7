-- ===== src/Ra/Advert.antt =====
-- The whole Router Advertisement packet of crates/dns-stack/src/ra.rs: its checksum and its header.
use dns_announce.Shared.{
  ℕ, zero, suc, ◌+◌, ◌^◌, ◌<◌, ◌≡◌, refl, Bool, true, false, List, [], ◌∷◌, ◌++◌, arith, ◌==◌,
  if◌then◌else◌, length, All, is_empty, take, drop, not, inl, get_or, All-append, replicate,
}
use dns_announce.Net.{Bytes, be16, IsByte, Ipv6Addr, octets, IsIpv6}
use dns_announce.Packet.{copy_at, build_ipv6_header, upper_layer_checksum}
use dns_announce.Packet.Sum.{word_sum}
use dns_announce.Packet.Checksum.{checksum_filled, upper_layer_checksum-IsU16}
use dns_announce.Packet.Parse.{payload_len_at}
use dns_announce.Ra.Options.{padding, build_dnssl_option-body}
use dns_announce.Text.{split_cons, split_dots}
use dns_announce.Ra.{
  RaConfig, encode_labels, encode_dnssl_names, all_octets, build_rdnss_option, build_dnssl_option,
  ra_options, ra_unsummed, build_router_advertisement,
}

-- A configuration of valid addresses and of domains that are byte strings.
pub record IsRaConfig (cfg : RaConfig) : Type 0 where
  pub src_IsIpv6 : IsIpv6 cfg.link_local_src
  pub servers_IsIpv6 : All IsIpv6 cfg.dns_servers
  pub domains_IsByte : All (All IsByte) cfg.search_domains

split_cons-IsByte :
    (c : ℕ) (dot : Bool) (ps : List Bytes)
    → IsByte c
    → All (All IsByte) ps
    → All (All IsByte) (split_cons c dot ps)
unfolding split_cons
split_cons-IsByte c true ps h k = (tt, k)
split_cons-IsByte c false [] h k = ((h, tt), tt)
split_cons-IsByte c false (p ∷ ps) h k = ((h, k.0), k.1)

split_dots-IsByte : (d : Bytes) → All IsByte d → All (All IsByte) (split_dots d)
unfolding split_dots
split_dots-IsByte [] h = (tt, tt)
split_dots-IsByte (c ∷ cs) h =
    split_cons-IsByte c (c == b'.') (split_dots cs) h.0 (split_dots-IsByte cs h.1)

encode_labels-IsByte : (ls : List Bytes) → All (All IsByte) ls → All IsByte (encode_labels ls)
unfolding encode_labels
encode_labels-IsByte [] h = tt
encode_labels-IsByte (l ∷ ls) h =
    (omega arith, All-append IsByte l (encode_labels ls) h.0 (encode_labels-IsByte ls h.1))

encode_dnssl_names-IsByte :
    (ds : List Bytes) → All (All IsByte) ds → All IsByte (encode_dnssl_names ds)
unfolding encode_dnssl_names
encode_dnssl_names-IsByte [] h = tt
encode_dnssl_names-IsByte (d ∷ ds) h =
    All-append IsByte (encode_labels (split_dots d)) (0 ∷ encode_dnssl_names ds)
      (encode_labels-IsByte (split_dots d) (split_dots-IsByte d h.0))
      (omega arith, encode_dnssl_names-IsByte ds h.1)

all_octets-IsByte : (servers : List Ipv6Addr) → All IsIpv6 servers → All IsByte (all_octets servers)
unfolding all_octets
all_octets-IsByte [] h = tt
all_octets-IsByte (a ∷ servers) h =
    All-append IsByte (octets a) (all_octets servers) h.0 (all_octets-IsByte servers h.1)

replicate-IsByte : (n : ℕ) → All IsByte (replicate n 0)
replicate-IsByte zero = tt
replicate-IsByte (suc n) = (omega arith, replicate-IsByte n)

build_dnssl_option-IsByte :
    (ds : List Bytes) (t : ℕ) → All (All IsByte) ds → All IsByte (build_dnssl_option ds t)
build_dnssl_option-IsByte ds t h =
    let names = encode_dnssl_names ds in
    let zeros : ℕ = padding (length names) in
    let padded : All IsByte (names ++ replicate zeros 0) =
      All-append IsByte names (replicate zeros 0) (encode_dnssl_names-IsByte ds h)
        (replicate-IsByte zeros) in
    rw build_dnssl_option-body (ground arith)

ra_options-IsByte : (cfg : RaConfig) → IsRaConfig cfg → All IsByte (ra_options cfg)
unfolding ra_options build_rdnss_option
ra_options-IsByte cfg h =
    let servers = all_octets-IsByte cfg.dns_servers h.servers_IsIpv6 in
    let dnssl = build_dnssl_option-IsByte cfg.search_domains cfg.lifetime_secs h.domains_IsByte in
    let tail : All IsByte (
        if not (is_empty cfg.search_domains)
        then build_dnssl_option cfg.search_domains cfg.lifetime_secs
        else []) =
      ground arith in
    let body = All-append IsByte (all_octets cfg.dns_servers) _ servers tail in ground arith

-- The ICMPv6 message with its checksum in place.
ra_summed : RaConfig → Ipv6Addr → Bytes
ra_summed cfg dst =
    copy_at 2 (be16 (upper_layer_checksum cfg.link_local_src dst 58 (ra_unsummed cfg)))
      (ra_unsummed cfg)

module _ (cfg : RaConfig) (dst : Ipv6Addr) where
  drop-build_router_advertisement : drop 40 (build_router_advertisement cfg dst) ≡ ra_summed cfg dst
  unfolding build_router_advertisement build_ipv6_header ra_summed
  drop-build_router_advertisement = refl

  ra_unsummed-IsByte : IsRaConfig cfg → All IsByte (ra_unsummed cfg)
  unfolding ra_unsummed
  ra_unsummed-IsByte h = ground (arith, ra_options-IsByte cfg h)

  ra_summed-IsByte : IsRaConfig cfg → All IsByte (ra_summed cfg dst)
  unfolding ra_summed ra_unsummed
  ra_summed-IsByte h = ground (arith, ra_options-IsByte cfg h)

  -- The packet is made of bytes.
  pub build_router_advertisement-IsByte :
      IsRaConfig cfg → IsIpv6 dst → All IsByte (build_router_advertisement cfg dst)
  unfolding build_router_advertisement build_ipv6_header ra_unsummed
  build_router_advertisement-IsByte h hd =
      let src : IsIpv6 cfg.link_local_src = h.src_IsIpv6 in ground (arith, ra_options-IsByte cfg h)

  -- The options stand behind the IPv6 header and the fixed part of the message.
  pub drop-options : drop 56 (build_router_advertisement cfg dst) ≡ ra_options cfg
  unfolding build_router_advertisement build_ipv6_header ra_unsummed
  drop-options = refl

  word_sum-ra_summed :
      word_sum (ra_summed cfg dst)
      ≡ word_sum (ra_unsummed cfg)
        + upper_layer_checksum cfg.link_local_src dst 58 (ra_unsummed cfg)
  unfolding ra_summed ra_unsummed
  word_sum-ra_summed =
      omega (arith, upper_layer_checksum-IsU16 cfg.link_local_src dst 58 (ra_unsummed cfg))

  length-ra_summed : length (ra_summed cfg dst) ≡ length (ra_unsummed cfg)
  unfolding ra_summed ra_unsummed
  length-ra_summed = omega arith

-- For a configuration with valid addresses and bytes, a valid destination and a message below 64
-- KiB, the checksum computed over the advertisement's ICMPv6 message with its checksum in place is
-- zero, so a receiver accepts it.
pub build_router_advertisement-checksum :
    (cfg : RaConfig) (dst : Ipv6Addr)
    → IsRaConfig cfg
    → IsIpv6 dst
    → length (ra_unsummed cfg) < 2 ^ 16
    → upper_layer_checksum cfg.link_local_src dst 58 (drop 40 (build_router_advertisement cfg dst))
      ≡ 0
build_router_advertisement-checksum cfg dst h hd hl = rw drop-build_router_advertisement (
    checksum_filled cfg.link_local_src dst 58 (ra_unsummed cfg) (ra_summed cfg dst)
      (upper_layer_checksum cfg.link_local_src dst 58 (ra_unsummed cfg)) h.src_IsIpv6 hd
      (omega arith) (omega arith) (ra_unsummed-IsByte cfg dst h) (ra_summed-IsByte cfg dst h) hl
      (length-ra_summed cfg dst) (word_sum-ra_summed cfg dst) (inl refl))

-- What RFC 4861 asks of the IPv6 header of an advertisement: hop limit 255, next header ICMPv6, the
-- two addresses, and a payload length that counts the bytes behind the header, if they fit it.
pub record IsRaHeader (src dst : Ipv6Addr) (pkt : Bytes) : Type 0 where
  pub version : get_or pkt 0 0 ≡ 0x60
  pub payload_len : payload_len_at pkt + 40 ≡ length pkt
  pub next_header : get_or pkt 6 0 ≡ 58
  pub hop_limit : get_or pkt 7 0 ≡ 255
  pub src_is : take 16 (drop 8 pkt) ≡ octets src
  pub dst_is : take 16 (drop 24 pkt) ≡ octets dst

-- The IPv6 header of an advertisement whose message fits an IPv6 payload: version 6, the length of
-- what follows, next header ICMPv6, hop limit 255, and the given addresses.
pub build_router_advertisement-IsRaHeader :
    (cfg : RaConfig) (dst : Ipv6Addr)
    → length (ra_unsummed cfg) < 2 ^ 16
    → IsRaHeader cfg.link_local_src dst (build_router_advertisement cfg dst)
unfolding build_router_advertisement build_ipv6_header ra_unsummed
build_router_advertisement-IsRaHeader cfg dst h = record {
  version = refl;
  payload_len = omega arith;
  next_header = refl;
  hop_limit = refl;
  src_is = refl;
  dst_is = refl;
}
