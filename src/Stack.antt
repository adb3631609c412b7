-- ===== src/Stack.antt =====
-- crates/dns-stack/src/lib.rs: `DnsStack` with its two tasks, the RA beacon and the dispatcher, and
-- the channels between them and the caller. The runtime's scheduling, the caller's sends and the
-- closing of channels are a list of events.
pub mod Dispatch
pub mod Schedule
pub mod Drain
pub mod Live
pub mod Valid
use dns_announce.Shared.{
  ◌==◌, ℕ, Bool, true, false, ◌&&◌, List, [], ◌∷◌, ◌++◌, if◌then◌else◌, Outcome, found, nothing,
  panicked, ◌>>=◌,
}
use dns_announce.Net.{Bytes, Ipv6Addr}
use dns_announce.Ra.{
  RaConfig, all_nodes_multicast, build_router_advertisement, is_router_solicitation,
  solicitation_src,
}
use dns_announce.Dns.{SimpleDns, DnsConfig, Resolver, handle_packet}

pub record DnsStack : Type 0 where
  pub ra_cfg : RaConfig
  pub dns_cfg : DnsConfig

-- A packet on the outgoing channel, by the task that sent it.
pub data Sent : Type 0 where
  advert reply : Bytes → Sent

-- The channels and the two tasks. `handled` are the packets whose round of the dispatcher's loop is
-- done, in order; `sent` is all that the outgoing channel took.
pub record State : Type 0 where
  pub incoming : List Bytes
  pub incoming_open : Bool
  pub outgoing_open : Bool
  pub sent : List Sent
  pub handled : List Bytes
  pub beacon_running : Bool
  pub dispatcher_running : Bool

-- What may happen next: the caller puts a packet in (the end of the dispatcher drops its receiver,
-- and no packet gets in any more), closes the incoming channel, or drops the
-- receiver of the outgoing one; the beacon's ticker fires; the dispatcher goes once round its loop.
pub data Event : Type 0 where
  arrive : Bytes → Event
  close_incoming drop_outgoing tick dispatch_round : Event

-- `spawn`: both tasks run and the channels are empty.
abbrev pub spawned : State
spawned = record {
  incoming = [];
  incoming_open = true;
  outgoing_open = true;
  sent = [];
  handled = [];
  beacon_running = true;
  dispatcher_running = true;
}

-- The end of a round: a send that fails is a `break`, and a panic ends the task too.
unfoldable pub finish_round : Outcome Bytes → Bytes → State → State
finish_round nothing pkt s = record s { handled = s.handled ++ (pkt ∷ []) }
finish_round panicked pkt s = record s { dispatcher_running = false }
finish_round (found packet) pkt s =
    if s.outgoing_open
    then record s { handled = s.handled ++ (pkt ∷ []); sent = s.sent ++ (reply packet ∷ []) }
    else record s { dispatcher_running = false }

-- The advertisement is built once, before the loop.
pub unsolicited : DnsStack → Bytes
unsolicited stack = build_router_advertisement stack.ra_cfg all_nodes_multicast

-- One turn of `ra_beacon_loop`. `tokio::time::interval` panics for a period of zero, so the task ends
-- before it ever sends.
unfoldable pub beacon_step : DnsStack → State → State
beacon_step stack s =
    if s.beacon_running
    then if stack.ra_cfg.resend_interval == 0
      then record s { beacon_running = false }
      else if s.outgoing_open
      then record s { sent = s.sent ++ (advert (unsolicited stack) ∷ []) }
      else record s { beacon_running = false }
    else s

module _ (wire : SimpleDns) (stack : DnsStack) (resolver : Resolver) where
  -- What one received packet makes the dispatcher send: `nothing` is a `continue` without a send.
  pub dispatch : Bytes → Outcome Bytes
  dispatch pkt = do
    solicitation ← is_router_solicitation pkt
    if solicitation
        then (solicitation_src pkt >>= (λ src. found (build_router_advertisement stack.ra_cfg src)))
        else handle_packet wire stack.dns_cfg resolver pkt

  -- `incoming.recv()`: it waits while the channel is empty and open, and the loop ends when it is
  -- empty and closed.
  pub receive : List Bytes → State → State
  receive [] s = if s.incoming_open then s else record s { dispatcher_running = false }
  receive (pkt ∷ rest) s = finish_round (dispatch pkt) pkt (record s { incoming = rest })

  pub dispatch_step : State → State
  dispatch_step s = if s.dispatcher_running then receive s.incoming s else s

  unfoldable pub step : Event → State → State
  step (arrive pkt) s =
      if s.incoming_open && s.dispatcher_running
      then record s { incoming = s.incoming ++ (pkt ∷ []) }
      else s
  step close_incoming s = record s { incoming_open = false }
  step drop_outgoing s = record s { outgoing_open = false }
  step tick s = beacon_step stack s
  step dispatch_round s = dispatch_step s

  unfoldable pub run : List Event → State → State
  run [] s = s
  run (e ∷ es) s = run es (step e s)
