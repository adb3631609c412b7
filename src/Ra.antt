-- ===== src/Ra.antt =====
-- crates/dns-stack/src/ra.rs: the Router Advertisement with its RDNSS and DNSSL options, and the
-- recognition of Router Solicitations. A domain is its bytes; `Duration` is a number of
-- nanoseconds.
pub mod Labels
pub mod Options
pub mod Advert
pub mod Solicit
use dns_announce.Shared.{
  ℕ, zero, suc, ◌+◌, ◌*◌, ◌/◌, ◌%◌, ◌^◌, Bool, true, false, not, ◌&&◌, List, [], ◌∷◌, ◌++◌, arith,
  ◌==◌, ltb, if◌then◌else◌, length, set, is_empty, Outcome, found, nothing, panicked, ◌>>=◌, ◌>>◌,
  guard, try, index, slice,
}
use dns_announce.Text.{split_dots}
use dns_announce.Net.{Bytes, be16, be32, Ipv6Addr, octets, try_ipv6}
use dns_announce.Packet.{ipv6_header_len, copy_at, build_ipv6_header, upper_layer_checksum}

-- ff02::1
abbrev pub all_nodes_multicast : Ipv6Addr
all_nodes_multicast = record {
  o0 = 0xff;
  o1 = 2;
  o2 = 0;
  o3 = 0;
  o4 = 0;
  o5 = 0;
  o6 = 0;
  o7 = 0;
  o8 = 0;
  o9 = 0;
  o10 = 0;
  o11 = 0;
  o12 = 0;
  o13 = 0;
  o14 = 0;
  o15 = 1;
}

abbrev pub icmpv6_rtr_solicit : ℕ
icmpv6_rtr_solicit = 133

abbrev pub icmpv6_rtr_advert : ℕ
icmpv6_rtr_advert = 134

abbrev pub ra_hop_limit : ℕ
ra_hop_limit = 255

abbrev pub opt_rdnss : ℕ
opt_rdnss = 25

abbrev pub opt_dnssl : ℕ
opt_dnssl = 31

pub record RaConfig : Type 0 where
  pub link_local_src : Ipv6Addr
  pub dns_servers : List Ipv6Addr
  pub search_domains : List Bytes
  pub lifetime_secs : ℕ
  pub router_lifetime_secs : ℕ
  pub resend_interval : ℕ

unfoldable pub encode_labels : List Bytes → Bytes
encode_labels [] = []
encode_labels (label ∷ labels) = (length label % 256) ∷ (label ++ encode_labels labels)

unfoldable pub encode_dnssl_names : List Bytes → Bytes
encode_dnssl_names [] = []
encode_dnssl_names (domain ∷ domains) =
    encode_labels (split_dots domain) ++ (0 ∷ encode_dnssl_names domains)

unfoldable pub all_octets : List Ipv6Addr → Bytes
all_octets [] = []
all_octets (addr ∷ servers) = octets addr ++ all_octets servers

unfoldable pub build_rdnss_option : List Ipv6Addr → ℕ → Bytes
build_rdnss_option servers lifetime_secs =
    let len_units = (1 + 2 * length servers) % 256 in
    opt_rdnss ∷ len_units ∷ 0 ∷ 0 ∷ (be32 lifetime_secs ++ all_octets servers)

-- `while opt.len() % 8 != 0 { opt.push(0); }` on fuel: seven rounds are enough.
unfoldable pub pad_to_8 : ℕ → Bytes → Bytes
pad_to_8 zero opt = opt
pad_to_8 (suc fuel) opt =
    let rest = pad_to_8 fuel (opt ++ (0 ∷ [])) in if length opt % 8 == 0 then opt else rest

unfoldable pub build_dnssl_option : List Bytes → ℕ → Bytes
build_dnssl_option domains lifetime_secs =
    let names = encode_dnssl_names domains in
    let opt = pad_to_8 7 (opt_dnssl ∷ 0 ∷ 0 ∷ 0 ∷ (be32 lifetime_secs ++ names)) in
    let len_units = length opt / 8 % 256 in set opt 1 len_units

-- The two options; there is no DNSSL option without search domains.
unfoldable pub ra_options : RaConfig → Bytes
ra_options cfg =
    build_rdnss_option cfg.dns_servers cfg.lifetime_secs
    ++ (if not (is_empty cfg.search_domains)
        then build_dnssl_option cfg.search_domains cfg.lifetime_secs
        else [])

-- The ICMPv6 message before its checksum is filled in.
unfoldable pub ra_unsummed : RaConfig → Bytes
ra_unsummed cfg =
    icmpv6_rtr_advert
    ∷ 0
    ∷ 0
    ∷ 0
    ∷ 64
    ∷ 0
    ∷ (be16 cfg.router_lifetime_secs ++ (be32 0 ++ (be32 0 ++ ra_options cfg)))

pub build_router_advertisement : RaConfig → Ipv6Addr → Bytes
build_router_advertisement cfg dst =
    let icmp = ra_unsummed cfg in
    let csum = upper_layer_checksum cfg.link_local_src dst 58 icmp in
    let summed = copy_at 2 (be16 csum) icmp in
    build_ipv6_header cfg.link_local_src dst 58 ra_hop_limit (length summed % 2 ^ 16) ++ summed

-- The tests of the last line of `is_router_solicitation`, each made if the ones before it pass.
solicits : Bytes → ℕ → ℕ → Outcome Bool
solicits pkt hop_limit next_header =
    if (hop_limit == 255) && (next_header == 58)
    then index pkt ipv6_header_len >>= (λ kind. found (kind == icmpv6_rtr_solicit))
    else found false

pub is_router_solicitation : Bytes → Outcome Bool
unfolding solicits
is_router_solicitation pkt =
    if ltb (length pkt) (ipv6_header_len + 8)
    then found false
    else do hop_limit ← index pkt 7; next_header ← index pkt 6; solicits pkt hop_limit next_header

pub solicitation_src : Bytes → Outcome Ipv6Addr
solicitation_src pkt = do
  guard (not (ltb (length pkt) 24))
  src ← slice pkt 8 24
  try (try_ipv6 src)
