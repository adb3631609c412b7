-- ===== src/Dns/Answers.antt =====
-- What the answer loop and the verdicts of crates/dns-stack/src/dns.rs put into the reply.
use dns_announce.Shared.{◌≡◌, refl, ap, true, List, [], ◌∷◌, map}
use dns_announce.Net.{Ipv4Addr, Ipv6Addr, IpAddr, v4, v6}
use dns_announce.Dns.{
  SimpleDns, RecordKind, a, aaaa, other, addrs, Reply, answer, nx_domain, not_mine, Resolver, RData,
  rdata_a, rdata_aaaa, Rcode, no_error, name_error, refused, ResourceRecord, answer_ttl, rdata_for,
  query_of, push_answer, answers_for, reply_base, apply_verdict, reply_for,
}

-- The addresses of one family, in order.
pub v4_addrs : List IpAddr → List Ipv4Addr
v4_addrs [] = []
v4_addrs (v4 x ∷ rest) = x ∷ v4_addrs rest
v4_addrs (v6 x ∷ rest) = v4_addrs rest

pub v6_addrs : List IpAddr → List Ipv6Addr
v6_addrs [] = []
v6_addrs (v4 x ∷ rest) = v6_addrs rest
v6_addrs (v6 x ∷ rest) = x ∷ v6_addrs rest

-- The record data that a query of each kind is answered with.
abbrev pub wanted : RecordKind → List IpAddr → List RData
wanted a list = map rdata_a (v4_addrs list)
wanted aaaa list = map rdata_aaaa (v6_addrs list)
wanted other list = []

module _ (wire : SimpleDns) where
  open wire use {Packet, Question, Name}

  abbrev pub record_of : Question → RData → ResourceRecord Name
  record_of question rdata = record { name = wire.qname question; ttl = answer_ttl; rdata = rdata }

  answers_for-wanted :
      (question : Question) (kind : RecordKind) (list : List IpAddr)
      → answers_for wire question kind list ≡ map (record_of question) (wanted kind list)
  unfolding answers_for push_answer rdata_for v4_addrs v6_addrs
  answers_for-wanted question a [] = refl
  answers_for-wanted question aaaa [] = refl
  answers_for-wanted question other [] = refl
  answers_for-wanted question a (v4 x ∷ rest) =
      ap (◌∷◌ (record_of question (rdata_a x))) (answers_for-wanted question a rest)
  answers_for-wanted question a (v6 x ∷ rest) = answers_for-wanted question a rest
  answers_for-wanted question aaaa (v4 x ∷ rest) = answers_for-wanted question aaaa rest
  answers_for-wanted question aaaa (v6 x ∷ rest) =
      ap (◌∷◌ (record_of question (rdata_aaaa x))) (answers_for-wanted question aaaa rest)
  answers_for-wanted question other (x ∷ rest) = answers_for-wanted question other rest

  -- The response code and the answer section that a verdict asks for.
  abbrev pub rcode_of : Reply → Rcode
  rcode_of not_mine = refused
  rcode_of nx_domain = name_error
  rcode_of (answer x) = no_error

  abbrev pub answers_of : Reply → RecordKind → List RData
  answers_of not_mine kind = []
  answers_of nx_domain kind = []
  answers_of (answer (addrs list)) kind = wanted kind list

  verdict_lem :
      (packet : Packet) (question : Question) (verdict : Reply) (kind : RecordKind)
      → apply_verdict wire verdict question kind (reply_base wire packet question) ≡ record {
        id = wire.id packet;
        recursion_desired = wire.recursion_desired packet;
        recursion_available = true;
        rcode = rcode_of verdict;
        questions = question ∷ [];
        answers = map (record_of question) (answers_of verdict kind);
      }
  unfolding apply_verdict reply_base
  verdict_lem packet question not_mine kind = refl
  verdict_lem packet question nx_domain kind = refl
  verdict_lem packet question (answer (addrs list)) kind =
      rw (answers_for-wanted question kind list) refl

  -- The reply of every verdict: the query's id and RD flag, RA set, the question repeated, the
  -- verdict's response code, and as answers the addresses of the family that was asked for, all of
  -- them and in the resolver's order, each under the question's name with the fixed TTL.
  pub reply_for-verdict :
      (resolver : Resolver) (packet : Packet) (question : Question)
      → reply_for wire resolver packet question ≡ (
          let query = query_of wire question in
          let verdict = resolver query in
          record {
            id = wire.id packet;
            recursion_desired = wire.recursion_desired packet;
            recursion_available = true;
            rcode = rcode_of verdict;
            questions = question ∷ [];
            answers = map (record_of question) (answers_of verdict query.kind);
          })
  unfolding reply_for
  reply_for-verdict resolver packet question =
      verdict_lem packet question (resolver (query_of wire question)) (query_of wire question).kind
