-- ===== src/Tests/Schedule.antt =====
-- crates/dns-stack/src/lib.rs under a concrete schedule.
use dns_announce.Shared.{◌≡◌, ◌⊎◌, true, false, List, [], ◌∷◌, take, drop, found}
use dns_announce.Net.{Bytes, from_octets}
use dns_announce.Ra.{build_router_advertisement}
use dns_announce.Ra.Solicit.{solicitation_bytes}
use dns_announce.Dns.{handle_packet}
use dns_announce.Stack.{
  DnsStack, State, Event, arrive, drop_outgoing, tick, dispatch_round, spawned, dispatch, run,
}
use dns_announce.Stack.Dispatch.{dispatch-cases}
use dns_announce.Stack.Schedule.{IsSound, run-IsSound}
use dns_announce.Stack.Drain.{Accounts, arrivals, run-Accounts}
use dns_announce.Tests.Wire.{query_packet}
use dns_announce.Tests.Advertise.{advertised}
use dns_announce.Tests.Server.{wire, resolver, config}

abbrev pub stack : DnsStack
stack = record { ra_cfg = advertised; dns_cfg = config }

-- A Router Solicitation from fe80::1.
abbrev pub solicitation : Bytes
solicitation =
    0x60 ∷ 0 ∷ 0 ∷ 0 ∷ 0 ∷ 8 ∷ 58 ∷ 255 ∷ 0xfe ∷ 0x80 ∷ 0 ∷ 0 ∷ 0 ∷ 0 ∷ 0 ∷ 0 ∷ 0 ∷ 0 ∷ 0 ∷ 0 ∷ 0
    ∷ 0 ∷ 0 ∷ 1 ∷ 0xff ∷ 2 ∷ 0 ∷ 0 ∷ 0 ∷ 0 ∷ 0 ∷ 0 ∷ 0 ∷ 0 ∷ 0 ∷ 0 ∷ 0 ∷ 0 ∷ 0 ∷ 2 ∷ 133 ∷ 0 ∷ 0 ∷ 0
    ∷ 0 ∷ 0 ∷ 0 ∷ 0 ∷ []

abbrev schedule : List Event
schedule =
    tick
    ∷ arrive solicitation
    ∷ arrive query_packet
    ∷ dispatch_round
    ∷ drop_outgoing
    ∷ dispatch_round
    ∷ tick
    ∷ []

abbrev queued : State
queued = record spawned { incoming = solicitation ∷ query_packet ∷ [] }

abbrev closed : State
closed = record queued { outgoing_open = false }

run-IsSound_example : IsSound wire stack resolver (run wire stack resolver schedule spawned)
run-IsSound_example = run-IsSound wire stack resolver schedule

run-Accounts_example :
    Accounts
      (arrivals wire stack resolver schedule spawned)
      (run wire stack resolver schedule spawned)
run-Accounts_example = run-Accounts wire stack resolver schedule

dispatch-cases_example :
    ((solicitation_bytes solicitation ≡ true)
      × (dispatch wire stack resolver solicitation
          ≡ found (
              build_router_advertisement advertised (from_octets (take 16 (drop 8 solicitation))))))
    ⊎ ((solicitation_bytes solicitation ≡ false)
        × (dispatch wire stack resolver solicitation
            ≡ handle_packet wire config resolver solicitation))
dispatch-cases_example = dispatch-cases wire stack resolver solicitation
