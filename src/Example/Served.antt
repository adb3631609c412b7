-- ===== src/Example/Served.antt =====
-- The resolver of crates/dns-stack/examples/basic.rs behind the server of crates/dns-stack/src/dns.rs.
use dns_announce.Shared.{
  ◌≡◌, refl, Bool, true, false, Bool-cases, Option-cases, inl, inr, [], ◌∷◌, none, some, map,
}
use dns_announce.Net.{Bytes, IpAddr}
use dns_announce.Dns.{
  SimpleDns, ReplyPacket, refused, name_error, no_error, matches_suffix, query_of, reply_for,
}
use dns_announce.Dns.Suffix.{FallsUnder, matches_suffix-FallsUnder}
use dns_announce.Dns.Answers.{wanted, record_of, reply_for-verdict}
use dns_announce.Example.{StaticResolver, suffix, looked_up, resolve}

off_on : (b : Bool) → b ≡ false → ¬ (b ≡ true)
off_on b e f = cc

module _ (wire : SimpleDns) where
  open wire use {Packet, Question, Name}

  -- The reply that a query for this name should have.
  pub data IsServed (self : StaticResolver) (question : Question) (r : ReplyPacket Name Question)
      : Type 0 where
    foreign :
        ¬ FallsUnder (query_of wire question).name suffix
        → r.rcode ≡ refused
        → r.answers ≡ []
        → IsServed self question r
    absent :
        FallsUnder (query_of wire question).name suffix
        → self.map (query_of wire question).name ≡ none
        → r.rcode ≡ name_error
        → r.answers ≡ []
        → IsServed self question r
    present :
        (addr : IpAddr)
        → FallsUnder (query_of wire question).name suffix
        → self.map (query_of wire question).name ≡ some addr
        → r.rcode ≡ no_error
        → r.answers
          ≡ map (record_of wire question) (wanted (query_of wire question).kind (addr ∷ []))
        → IsServed self question r

  -- The server with the example's resolver answers every question in one of three ways: a name outside
  -- the suffix is refused, a name under it that is not in the map does not exist, and one that is in the
  -- map gets its address, if that is of the family that was asked for.
  pub reply_for-IsServed :
      (self : StaticResolver) (packet : Packet) (question : Question)
      → IsServed self question (reply_for wire (resolve self) packet question)
  unfolding resolve looked_up
  reply_for-IsServed self packet question =
      let name : Bytes = (query_of wire question).name in
      let under = matches_suffix-FallsUnder name suffix in
      rw (reply_for-verdict wire (resolve self) packet question)
        (elim (Bool-cases (matches_suffix name suffix)) [
          | inr outside ↦ rw outside (foreign (λ f. off_on _ outside (under.1 f)) refl refl)
          | inl inside ↦ elim (Option-cases (self.map name)) [
            | inl missing ↦ rw (inside, missing) (absent (under.0 inside) missing refl refl)
            | inr (addr, known) ↦ rw (inside, known) (present addr (under.0 inside) known refl refl)
          ]
        ])
