-- ===== src/Tests/Advertise.antt =====
-- crates/dns-stack/src/ra.rs at a configuration with two servers and two search domains.
use dns_announce.Shared.{
  zero, ◌≡◌, List, [], ◌∷◌, ◌++◌, arith, length, drop, some, replicate, map, is_empty,
  if◌then◌else◌,
}
use dns_announce.Net.{Bytes}
use dns_announce.Text.{split_dots, split_cons, codes}
use dns_announce.Packet.{upper_layer_checksum}
use dns_announce.Ra.{
  RaConfig, opt_rdnss, opt_dnssl, encode_labels, all_octets, build_rdnss_option, pad_to_8,
  build_dnssl_option, ra_options, ra_unsummed, encode_dnssl_names, build_router_advertisement,
}
use dns_announce.Ra.Labels.{read_names, read_names-encode_dnssl_names}
use dns_announce.Ra.Options.{walk_options, rdnss_body, dnssl_body, walk_options-ra_options}
use dns_announce.Ra.Advert.{IsRaConfig, build_router_advertisement-checksum}
use dns_announce.Tests.Wire.{client, server}

abbrev domains : List Bytes
domains = codes "vpn.example" ∷ codes "lan" ∷ []

abbrev pub advertised : RaConfig
advertised = record {
  link_local_src = server;
  dns_servers = server ∷ client ∷ [];
  search_domains = domains;
  lifetime_secs = 1200;
  router_lifetime_secs = 0;
  resend_interval = 200000;
}

walk_options-ra_options_example :
    walk_options (length (ra_options advertised)) (ra_options advertised)
    ≡ some (
        record { kind = opt_rdnss; body = rdnss_body advertised.dns_servers 1200 }
        ∷ (if is_empty domains
            then []
            else record { kind = opt_dnssl; body = dnssl_body domains 1200 } ∷ []))
unfolding encode_dnssl_names encode_labels split_dots split_cons
walk_options-ra_options_example = walk_options-ra_options advertised (omega arith) (omega arith)

read_names-encode_dnssl_names_example :
    read_names zero [] [] (encode_dnssl_names domains ++ replicate 5 0)
    ≡ some (map split_dots domains)
unfolding split_dots split_cons
read_names-encode_dnssl_names_example = read_names-encode_dnssl_names domains 5 (omega arith)

advertised-IsRaConfig : IsRaConfig advertised
advertised-IsRaConfig = record {
  src_IsIpv6 = omega arith;
  servers_IsIpv6 = omega arith;
  domains_IsByte = omega arith;
}

build_router_advertisement-checksum_example :
    upper_layer_checksum server client 58 (drop 40 (build_router_advertisement advertised client))
    ≡ 0
unfolding ra_unsummed ra_options build_rdnss_option build_dnssl_option pad_to_8 all_octets
    encode_dnssl_names encode_labels split_dots split_cons
build_router_advertisement-checksum_example =
    build_router_advertisement-checksum advertised client advertised-IsRaConfig (omega arith)
      (omega arith)
