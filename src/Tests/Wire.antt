-- ===== src/Tests/Wire.antt =====
-- crates/dns-stack/src/packet.rs at concrete packets.
use dns_announce.Shared.{◌/◌, ◌^◌, ◌<◌, ◌≡◌, ◌⊎◌, [], ◌∷◌, arith, take, drop, found, nothing}
use dns_announce.Net.{Bytes, Ipv6Addr}
use dns_announce.Packet.{
  udp_next_header, fold_carries, upper_layer_checksum, build_udp_packet, parse_ipv6_udp,
}
use dns_announce.Packet.Sum.{word_sum, fold_carries_stops}
use dns_announce.Packet.Checksum.{build_udp_packet-checksum}
use dns_announce.Packet.Parse.{IsIpv6Udp, udp_view, parse_ipv6_udp-udp_view}
use dns_announce.Packet.RoundTrip.{parse_ipv6_udp-build_udp_packet}

-- fe80::1 and fe80::2
abbrev pub client : Ipv6Addr
client = record {
  o0 = 0xfe;
  o1 = 0x80;
  o2 = 0;
  o3 = 0;
  o4 = 0;
  o5 = 0;
  o6 = 0;
  o7 = 0;
  o8 = 0;
  o9 = 0;
  o10 = 0;
  o11 = 0;
  o12 = 0;
  o13 = 0;
  o14 = 0;
  o15 = 1;
}

abbrev pub server : Ipv6Addr
server = record {
  o0 = 0xfe;
  o1 = 0x80;
  o2 = 0;
  o3 = 0;
  o4 = 0;
  o5 = 0;
  o6 = 0;
  o7 = 0;
  o8 = 0;
  o9 = 0;
  o10 = 0;
  o11 = 0;
  o12 = 0;
  o13 = 0;
  o14 = 0;
  o15 = 2;
}

-- A UDP packet from port 5353 of the client to port 53 of the server, with two bytes.
abbrev pub query_packet : Bytes
query_packet =
    0x60 ∷ 0 ∷ 0 ∷ 0 ∷ 0 ∷ 10 ∷ 17 ∷ 64 ∷ 0xfe ∷ 0x80 ∷ 0 ∷ 0 ∷ 0 ∷ 0 ∷ 0 ∷ 0 ∷ 0 ∷ 0 ∷ 0 ∷ 0 ∷ 0
    ∷ 0 ∷ 0 ∷ 1 ∷ 0xfe ∷ 0x80 ∷ 0 ∷ 0 ∷ 0 ∷ 0 ∷ 0 ∷ 0 ∷ 0 ∷ 0 ∷ 0 ∷ 0 ∷ 0 ∷ 0 ∷ 0 ∷ 2 ∷ 20 ∷ 233 ∷ 0
    ∷ 53 ∷ 0 ∷ 10 ∷ 0 ∷ 0 ∷ 1 ∷ 28 ∷ []

abbrev message : Bytes
message = 1 ∷ 28 ∷ 7 ∷ []

build_udp_packet-checksum_example :
    (upper_layer_checksum client server udp_next_header
        (drop 40 (build_udp_packet client server 5353 53 message 64))
      ≡ 0)
    × (0 < word_sum (take 2 (drop 46 (build_udp_packet client server 5353 53 message 64))))
build_udp_packet-checksum_example =
    build_udp_packet-checksum client server 5353 53 message 64 (omega arith) (omega arith)
      (omega arith) (omega arith)

parse_ipv6_udp-udp_view_example :
    (IsIpv6Udp query_packet × (parse_ipv6_udp query_packet ≡ found (udp_view query_packet)))
    ⊎ (¬ IsIpv6Udp query_packet × (parse_ipv6_udp query_packet ≡ nothing))
parse_ipv6_udp-udp_view_example = parse_ipv6_udp-udp_view query_packet

parse_ipv6_udp-build_udp_packet_example :
    parse_ipv6_udp (build_udp_packet client server 5353 53 message 64)
    ≡ found (record {
      src_ip = client;
      dst_ip = server;
      src_port = 5353;
      dst_port = 53;
      payload = message;
    })
parse_ipv6_udp-build_udp_packet_example =
    parse_ipv6_udp-build_udp_packet client server 5353 53 message 64 (omega arith) (omega arith)
      (omega arith)

fold_carries_stops_example :
    (fold_carries 2 0x1ffff / 2 ^ 16 ≡ 0) × (fold_carries 9 0x1ffff ≡ fold_carries 2 0x1ffff)
fold_carries_stops_example = fold_carries_stops 7 0x1ffff (omega arith)
