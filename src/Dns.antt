-- ===== src/Dns.antt =====
-- crates/dns-stack/src/dns.rs: the DNS server, which hands each query to the application's resolver
-- and builds the reply packet. The message format is the `simple-dns` crate's, a parameter here.
pub mod Suffix
pub mod Answers
pub mod Handle
use dns_announce.Shared.{
  ℕ, ◌+◌, ◌-◌, Bool, true, false, not, ◌&&◌, ◌||◌, Option, none, some, List, [], ◌∷◌, map, arith,
  ◌==◌, leb, ltb, if◌then◌else◌, length, take, drop, is_empty, seq_eq, Outcome, found, nothing,
  panicked, ◌>>=◌, ◌>>◌, guard, try,
}
use dns_announce.Net.{Bytes, Ipv6Addr, Ipv4Addr, IpAddr, v4, v6, same_addr}
use dns_announce.Packet.{UdpV6, parse_ipv6_udp, build_udp_packet}

abbrev pub dns_port : ℕ
dns_port = 53

abbrev pub answer_ttl : ℕ
answer_ttl = 60

-- `u8::to_ascii_lowercase`
pub to_ascii_lowercase : ℕ → ℕ
to_ascii_lowercase c = if leb b'A' c && leb c b'Z' then c + 32 else c

-- Equal but for the case of ASCII letters.
pub eq_ignore_ascii_case : Bytes → Bytes → Bool
eq_ignore_ascii_case xs ys = seq_eq (map to_ascii_lowercase xs) (map to_ascii_lowercase ys)

-- `head.last() == Some(&b'.')`
pub ends_in_dot : Bytes → Bool
ends_in_dot [] = false
ends_in_dot (c ∷ []) = c == b'.'
ends_in_dot (c ∷ d ∷ rest) = ends_in_dot (d ∷ rest)

pub matches_suffix : Bytes → Bytes → Bool
matches_suffix name suffix =
    if ltb (length name) (length suffix)
    then false
    else let head_len = length name - length suffix in
      let head = take head_len name in
      let tail = drop head_len name in
      eq_ignore_ascii_case tail suffix && (is_empty head || ends_in_dot head)

pub data RecordKind : Type 0 where
  a aaaa other : RecordKind

pub record Query : Type 0 where
  pub name : Bytes
  pub kind : RecordKind

-- `Query::new`
pub new : Bytes → RecordKind → Query
new name kind = record { name = name; kind = kind }

pub data Answer : Type 0 where
  addrs : List IpAddr → Answer

pub data Reply : Type 0 where
  answer : Answer → Reply
  nx_domain : Reply
  not_mine : Reply

-- `dyn Resolver`: what it answers to each query while one packet is handled.
abbrev pub Resolver : Type 0
Resolver = Query → Reply

pub record DnsConfig : Type 0 where
  pub server_addr : Ipv6Addr

pub data RData : Type 0 where
  rdata_a : Ipv4Addr → RData
  rdata_aaaa : Ipv6Addr → RData

pub data Rcode : Type 0 where
  no_error name_error refused : Rcode

-- Class IN is the only class of a record that the server makes.
pub record ResourceRecord (Name : Type 0) : Type 0 where
  pub name : Name
  pub ttl : ℕ
  pub rdata : RData

-- What `handle_packet` sets of a `simple_dns::Packet` that `new_reply` made.
pub record ReplyPacket (Name Question : Type 0) : Type 0 where
  pub id : ℕ
  pub recursion_desired : Bool
  pub recursion_available : Bool
  pub rcode : Rcode
  pub questions : List Question
  pub answers : List (ResourceRecord Name)

-- What the server uses of `simple-dns`: `Packet::parse`, the parts of a packet and of a question,
-- the tests of a QTYPE against `TYPE::A` and `TYPE::AAAA`, and `build_bytes_vec_compressed`.
pub record SimpleDns : Type 1 where
  pub Packet : Type 0
  pub Question : Type 0
  pub Name : Type 0
  pub Qtype : Type 0
  pub parse : Bytes → Option Packet
  pub id : Packet → ℕ
  pub questions : Packet → List Question
  pub recursion_desired : Packet → Bool
  pub qname : Question → Name
  pub qtype : Question → Qtype
  pub name_to_string : Name → Bytes
  pub is_type_a : Qtype → Bool
  pub is_type_aaaa : Qtype → Bool
  pub build_bytes_vec_compressed : ReplyPacket Name Question → Option Bytes

-- `<[T]>::first`
abbrev pub first : {A : Type 0} → List A → Option A
first [] = none
first (x ∷ xs) = some x

-- The `match (query.kind, addr)` of the answer loop; `none` is its `continue`.
pub rdata_for : RecordKind → IpAddr → Option RData
rdata_for a (v4 x) = some (rdata_a x)
rdata_for a (v6 x) = none
rdata_for aaaa (v4 x) = none
rdata_for aaaa (v6 x) = some (rdata_aaaa x)
rdata_for other addr = none

module _ (wire : SimpleDns) where
  open wire use {Packet, Question, Name, Qtype}

  pub from_qtype : Qtype → RecordKind
  from_qtype qtype =
      if wire.is_type_a qtype then a else if wire.is_type_aaaa qtype then aaaa else other

  pub query_of : Question → Query
  query_of question = record {
    name = map to_ascii_lowercase (wire.name_to_string (wire.qname question));
    kind = from_qtype (wire.qtype question);
  }

  push_answer : Question → Option RData → List (ResourceRecord Name) → List (ResourceRecord Name)
  push_answer question none rest = rest
  push_answer question (some rdata) rest =
      record { name = wire.qname question; ttl = answer_ttl; rdata = rdata } ∷ rest

  -- The loop over the resolver's addresses.
  pub answers_for : Question → RecordKind → List IpAddr → List (ResourceRecord Name)
  answers_for question kind [] = []
  answers_for question kind (addr ∷ rest) =
      push_answer question (rdata_for kind addr) (answers_for question kind rest)

  -- The reply before the resolver is asked.
  unfoldable pub reply_base : Packet → Question → ReplyPacket Name Question
  reply_base packet question = record {
    id = wire.id packet;
    recursion_desired = wire.recursion_desired packet;
    recursion_available = true;
    rcode = no_error;
    questions = question ∷ [];
    answers = [];
  }

  -- The `match resolver.resolve(&query)`.
  unfoldable pub apply_verdict :
      Reply → Question → RecordKind → ReplyPacket Name Question → ReplyPacket Name Question
  apply_verdict not_mine question kind reply = record reply { rcode = refused }
  apply_verdict nx_domain question kind reply = record reply { rcode = name_error }
  apply_verdict (answer (addrs list)) question kind reply = record reply {
    answers = answers_for question kind list;
  }

  unfoldable pub reply_for : Resolver → Packet → Question → ReplyPacket Name Question
  reply_for resolver packet question =
      let query = query_of question in
      apply_verdict (resolver query) question query.kind (reply_base packet question)

  -- `handle_packet` behind the test of the destination.
  pub answer_datagram : Resolver → UdpV6 → Outcome Bytes
  answer_datagram resolver udp = do
    packet ← try (wire.parse udp.payload)
    question ← try (first (wire.questions packet))
    dns_payload ← try (wire.build_bytes_vec_compressed (reply_for resolver packet question))
    found (build_udp_packet udp.dst_ip udp.src_ip dns_port udp.src_port dns_payload 64)

  pub handle_packet : DnsConfig → Resolver → Bytes → Outcome Bytes
  handle_packet cfg resolver pkt = do
    udp ← parse_ipv6_udp pkt
    guard (not (not (same_addr udp.dst_ip cfg.server_addr) || not (udp.dst_port == dns_port)))
    answer_datagram resolver udp
