-- ===== src/Tests/Server.antt =====
-- crates/dns-stack/src/dns.rs with a small message format: a message is its bytes, and each byte is a
-- question of that type for the one name.
use dns_announce.Text.{codes}
use dns_announce.Shared.{
  ℕ, ◌%◌, ◌≡◌, refl, ◌⊎◌, ◌↔◌, true, Option, none, some, [], ◌∷◌, ◌==◌, map, arith, length, found,
  nothing, if◌then◌else◌, seq_eq,
}
use dns_announce.Net.{Bytes, v6, from_octets}
use dns_announce.Packet.{parse_ipv6_udp}
use dns_announce.Packet.Parse.{udp_view}
use dns_announce.Dns.{
  dns_port, matches_suffix, answer, addrs, DnsConfig, ReplyPacket, SimpleDns, Resolver, query_of,
  apply_verdict, reply_base, reply_for, handle_packet,
}
use dns_announce.Dns.Suffix.{FallsUnder, matches_suffix-FallsUnder}
use dns_announce.Dns.Answers.{record_of, rcode_of, answers_of, reply_for-verdict}
use dns_announce.Dns.Handle.{
  IsForServer, Answers, reply_packet, handle_packet_sound, handle_packet_complete,
}
use dns_announce.Example.{StaticResolver, resolve}
use dns_announce.Example.Served.{IsServed, reply_for-IsServed}
use dns_announce.Tests.Wire.{client, server, query_packet}

abbrev parse_some : Bytes → Option Bytes
parse_some [] = none
parse_some (b ∷ bs) = some (b ∷ bs)

-- The identifier and the number of answers.
abbrev summary : ReplyPacket Bytes ℕ → Option Bytes
summary r = some (r.id % 256 ∷ length r.answers % 256 ∷ [])

abbrev pub wire : SimpleDns
wire = record {
  Packet = Bytes;
  Question = ℕ;
  Name = Bytes;
  Qtype = ℕ;
  parse = parse_some;
  id = λ packet. 7;
  questions = λ packet. packet;
  recursion_desired = λ packet. true;
  qname = λ question. codes "Host.VPN";
  qtype = λ question. question;
  name_to_string = λ name. name;
  is_type_a = λ qtype. qtype == 1;
  is_type_aaaa = λ qtype. qtype == 28;
  build_bytes_vec_compressed = summary;
}

abbrev pub resolver : Resolver
resolver query = answer (addrs (v6 client ∷ []))

abbrev pub config : DnsConfig
config = record { server_addr = server }

matches_suffix-FallsUnder_example :
    (matches_suffix (codes "a.myVPN") (codes "MyVpn") ≡ true)
    ↔ FallsUnder (codes "a.myVPN") (codes "MyVpn")
matches_suffix-FallsUnder_example = matches_suffix-FallsUnder (codes "a.myVPN") (codes "MyVpn")

reply_for-verdict_example : reply_for wire resolver (28 ∷ []) 28 ≡ record {
  id = 7;
  recursion_desired = true;
  recursion_available = true;
  rcode = rcode_of wire (resolver (query_of wire 28));
  questions = 28 ∷ [];
  answers =
      map
        (record_of wire 28)
        (answers_of wire (resolver (query_of wire 28)) (query_of wire 28).kind);
}
reply_for-verdict_example = reply_for-verdict wire resolver (28 ∷ []) 28

query_packet-IsForServer : IsForServer config query_packet
unfolding from_octets
query_packet-IsForServer = record {
  udp = record {
    long_enough = omega arith;
    version = refl;
    next_header = refl;
    complete = omega arith;
  };
  addressed = refl;
  port = refl;
}

abbrev built : Bytes
built = 7 ∷ length (reply_for wire resolver (1 ∷ 28 ∷ []) 1).answers % 256 ∷ []

query_packet-Answers : Answers wire resolver (udp_view query_packet) (1 ∷ 28 ∷ []) 1 built
unfolding reply_for apply_verdict reply_base
query_packet-Answers = record { parses = refl; asks = refl; builds = refl }

handle_packet_sound_example :
    (handle_packet wire config resolver query_packet ≡ nothing)
    ⊎ ((packet : Bytes) × (question : ℕ) × (payload : Bytes) × IsForServer config query_packet
        × Answers wire resolver (udp_view query_packet) packet question payload
        × (handle_packet wire config resolver query_packet
            ≡ found (reply_packet wire resolver (udp_view query_packet) payload)))
handle_packet_sound_example = handle_packet_sound wire config resolver query_packet

handle_packet_complete_example :
    (reply : Bytes) × (handle_packet wire config resolver query_packet ≡ found reply)
    × (parse_ipv6_udp reply
        ≡ found (record {
          src_ip = server;
          dst_ip = (udp_view query_packet).src_ip;
          src_port = dns_port;
          dst_port = (udp_view query_packet).src_port;
          payload = built;
        }))
handle_packet_complete_example =
    handle_packet_complete wire config resolver query_packet (1 ∷ 28 ∷ []) 1 built (omega arith)
      query_packet-IsForServer query_packet-Answers (omega arith)

-- The same questions for a name of the example.
abbrev example_wire : SimpleDns
example_wire = record wire { qname = λ question. codes "Foo.MyVPN" }

abbrev static_resolver : StaticResolver
static_resolver = record {
  map = λ name. if seq_eq name (codes "foo.myvpn") then some (v6 server) else none;
}

reply_for-IsServed_example :
    IsServed example_wire static_resolver 28
      (reply_for example_wire (resolve static_resolver) (28 ∷ []) 28)
reply_for-IsServed_example = reply_for-IsServed example_wire static_resolver (28 ∷ []) 28
