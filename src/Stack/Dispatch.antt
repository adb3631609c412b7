-- ===== src/Stack/Dispatch.antt =====
-- One round of the dispatcher of crates/dns-stack/src/lib.rs.
use dns_announce.Shared.{
  ◌≡◌, ◌≢◌, refl, ◌⊎◌, inl, inr, true, false, take, drop, found, panicked, Bool-cases,
}
use dns_announce.Net.{Bytes, from_octets}
use dns_announce.Ra.{build_router_advertisement}
use dns_announce.Ra.Solicit.{
  solicitation_bytes, is_router_solicitation-solicitation_bytes, solicitation_src-found,
}
use dns_announce.Dns.{SimpleDns, Resolver, handle_packet}
use dns_announce.Dns.Handle.{handle_packet_sound}
use dns_announce.Stack.{DnsStack, dispatch}

module _ (wire : SimpleDns) (stack : DnsStack) (resolver : Resolver) where
  -- Every received packet: a solicitation makes the dispatcher send an advertisement to its
  -- source, and any other packet what the DNS server makes of it.
  pub dispatch-cases :
      (pkt : Bytes)
      → ((solicitation_bytes pkt ≡ true)
          × (dispatch wire stack resolver pkt
              ≡ found
                  (build_router_advertisement stack.ra_cfg (from_octets (take 16 (drop 8 pkt))))))
        ⊎ ((solicitation_bytes pkt ≡ false)
            × (dispatch wire stack resolver pkt ≡ handle_packet wire stack.dns_cfg resolver pkt))
  unfolding dispatch
  dispatch-cases pkt = elim (Bool-cases (solicitation_bytes pkt)) [
    | inl yes' ↦ inl (
      yes',
      rw (is_router_solicitation-solicitation_bytes, yes', solicitation_src-found pkt yes') refl,
    )
    | inr no' ↦ inr (no', rw (is_router_solicitation-solicitation_bytes, no') refl)
  ]

  -- No received packet ends the dispatcher by a panic.
  pub dispatch-ne-panicked : (pkt : Bytes) → dispatch wire stack resolver pkt ≢ panicked
  dispatch-ne-panicked pkt h = elim (dispatch-cases pkt) [
    | inl (_, e) ↦ cc (e, h)
    | inr (_, e) ↦ elim (handle_packet_sound wire stack.dns_cfg resolver pkt) [
      | inl none' ↦ cc (e, h, none')
      | inr (_, _, _, _, _, r) ↦ cc (e, h, r)
    ]
  ]
