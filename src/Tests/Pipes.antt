-- ===== src/Tests/Pipes.antt =====
-- crates/dns-stack/examples/basic.rs around the stack, with channels for one packet.
use dns_announce.Shared.{
  ℕ, zero, suc, inl, inr, refl, replicate, Option, none, some, All, ◌<◌, ◌≡◌, List, [], ◌∷◌, arith,
}
use dns_announce.Stack
use dns_announce.Stack.Schedule.{replies, dispatched}
use dns_announce.Bridge.{
  Bridge, channel_capacity, start, Event, device_reads, tick, reader_turn, dispatcher_turn,
  beacon_turn, run, step, reads, reader_step, ticks, beacon_step,
}
use dns_announce.Bridge.Shows.{Refines}
use dns_announce.Bridge.Answers.{unanswered}
use dns_announce.Bridge.Work.{Task, reader_task, dispatcher_task, beacon_task, writer_task, work}
use dns_announce.Bridge.Fair.{IsFair, all_turns}
use dns_announce.Bridge.Drained.{after-drained}
use dns_announce.Net.{Bytes, IsByte}
use dns_announce.Ra.{
  encode_dnssl_names, encode_labels, ra_unsummed, ra_options, build_rdnss_option, all_octets,
  build_dnssl_option, pad_to_8,
}
use dns_announce.Text.{split_dots, split_cons}
use mathlib.Core.Path.{subst}
use dns_announce.Stack.Valid.{IsReady, BuildsBytes, IsValid}
use dns_announce.Bridge.Valid.{packet_of, run-IsValid}
use dns_announce.Example.Program.{ra_cfg, dns_cfg, static_resolver, main}
use dns_announce.Example.{resolve}
use dns_announce.Tests.Wire.{query_packet}
use dns_announce.Tests.Server.{wire, resolver}
use dns_announce.Tests.Schedule.{stack, solicitation}

-- Two packets arrive, and the beacon fills the outgoing channel before the first reply.
abbrev events : List Event
events =
    device_reads solicitation
    ∷ reader_turn
    ∷ tick
    ∷ beacon_turn
    ∷ dispatcher_turn
    ∷ dispatcher_turn
    ∷ device_reads query_packet
    ∷ reader_turn
    ∷ []

abbrev ran : Bridge
ran = run wire stack resolver 1 events start

-- The reader before the dispatcher, and the writer twice.
abbrev turn_order : List Task
turn_order = reader_task ∷ dispatcher_task ∷ writer_task ∷ beacon_task ∷ writer_task ∷ []

turn_order-IsFair : IsFair turn_order
turn_order-IsFair reader_task = inl refl
turn_order-IsFair dispatcher_task = inr (inl refl)
turn_order-IsFair writer_task = inr (inr (inl refl))
turn_order-IsFair beacon_task = inr (inr (inr (inl refl)))

turn_orders-IsFair : (n : ℕ) → All IsFair (replicate n turn_order)
turn_orders-IsFair zero = tt
turn_orders-IsFair (suc n) = (turn_order-IsFair, turn_orders-IsFair n)

abbrev blocks : List (List Task)
blocks = replicate 11 turn_order

-- Both channels are full, and the reader holds one more packet.
abbrev full_events : List Event
full_events =
    device_reads solicitation
    ∷ reader_turn
    ∷ tick
    ∷ beacon_turn
    ∷ device_reads query_packet
    ∷ reader_turn
    ∷ []

abbrev full : Bridge
full = run wire stack resolver 1 full_events start

full-work : work full < 11
unfolding run step reads reader_step ticks beacon_step
full-work = omega arith

after-drained_example :
    (replies (run wire stack resolver 1 (all_turns blocks) full).written
      ≡ dispatched wire stack resolver full.read)
    × ((run wire stack resolver 1 (all_turns blocks) full).outgoing ≡ [])
    × (unanswered wire stack resolver (run wire stack resolver 1 (all_turns blocks) full) ≡ [])
after-drained_example =
    after-drained wire stack resolver 1 full_events blocks (omega arith) (turn_orders-IsFair 11)
      full-work

-- The program as the example sets it up.
abbrev BytesOption : Option Bytes → Type 0
BytesOption none = Unit {0}
BytesOption (some payload) = All IsByte payload

summary-BuildsBytes : BuildsBytes wire
summary-BuildsBytes p payload e = subst (λ (o : Option Bytes). BytesOption o) e (omega arith)

program-IsReady : IsReady (record { ra_cfg = ra_cfg; dns_cfg = dns_cfg })
unfolding encode_dnssl_names encode_labels ra_unsummed ra_options split_dots split_cons
    build_rdnss_option all_octets build_dnssl_option pad_to_8
program-IsReady = record {
  ra = record {
    src_IsIpv6 = omega arith;
    servers_IsIpv6 = (omega arith, tt);
    domains_IsByte = (omega arith, tt);
  };
  server = omega arith;
  few_servers = omega arith;
  short_names = omega arith;
  fits = omega arith;
}

run-IsValid_example :
    All
      (λ p. IsValid (record { ra_cfg = ra_cfg; dns_cfg = dns_cfg }) (packet_of p))
      (main wire events).written
unfolding main
run-IsValid_example =
    run-IsValid wire (record { ra_cfg = ra_cfg; dns_cfg = dns_cfg }) (resolve static_resolver)
      channel_capacity events program-IsReady summary-BuildsBytes
      (omega arith, (tt, (tt, (tt, (tt, (tt, (omega arith, (tt, tt))))))))
