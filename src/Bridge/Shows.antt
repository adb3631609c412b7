-- ===== src/Bridge/Shows.antt =====
-- What the tasks of crates/dns-stack/examples/basic.rs around the stack show of it: the state of the
-- stack of `Stack`, whose channels are unbounded.
use dns_announce.Shared.{
  inl, inr, ◌==◌, ◌≡◌, refl, ◌⊎◌, Bool, true, false, List, [], ◌∷◌, ◌++◌, found, not,
}
use dns_announce.Net.{Bytes}
use dns_announce.Dns.{SimpleDns, Resolver}
use dns_announce.Stack
use dns_announce.Stack.{
  DnsStack, Sent, advert, reply, State, arrive, close_incoming, dispatch_round, spawned,
  unsolicited, dispatch, finish_round, receive, dispatch_step,
}
use dns_announce.Bridge.{
  Reader, receiving, holding, reader_done, Dispatcher, idle, replying, dispatcher_done, Bridge,
  Beacon, ticking, sending, beacon_done, reader_alive, dispatcher_alive, beacon_alive,
}

pub on_off : (b : Bool) → b ≡ true → b ≡ false → ⊥
on_off b e f = cc

pub not_on : (b : Bool) → not b ≡ true → b ≡ false
not_on true e = cc
not_on false e = refl

pub not_off : (b : Bool) → not b ≡ false → b ≡ true
not_off true e = refl
not_off false e = cc

-- The packets that a task has in hand.
abbrev pub held : Reader → List Bytes
held receiving = []
held (holding b) = b ∷ []
held reader_done = []

abbrev pub pending : Dispatcher → List Bytes
pending idle = []
pending (replying pkt packet) = pkt ∷ []
pending dispatcher_done = []

-- The writer stops only when nobody can send any more and its channel is empty.
abbrev pub WriterServes : Bridge → Type 0
WriterServes s =
    (s.writer_running ≡ true)
    ⊎ ((dispatcher_alive s.dispatcher ≡ false)
        × (beacon_alive s.beacon ≡ false)
        × (s.outgoing ≡ []))

pub on_while_dispatching :
    (s : Bridge) → WriterServes s → dispatcher_alive s.dispatcher ≡ true → s.writer_running ≡ true
on_while_dispatching s (inl on) e = on
on_while_dispatching s (inr (gone, _, _)) e = absurd (on_off _ e gone)

pub on_while_sending :
    (s : Bridge) → WriterServes s → beacon_alive s.beacon ≡ true → s.writer_running ≡ true
on_while_sending s (inl on) e = on
on_while_sending s (inr (_, gone, _)) e = absurd (on_off _ e gone)

-- The beacon sends only with a period that is not zero, and ends only with one that is.
abbrev pub Timed : DnsStack → Beacon → Type 0
Timed stack ticking = Unit {0}
Timed stack sending = (stack.ra_cfg.resend_interval == 0) ≡ false
Timed stack beacon_done = (stack.ra_cfg.resend_interval == 0) ≡ true

module _ (wire : SimpleDns) (stack : DnsStack) (resolver : Resolver) where
  -- A reply that waits is the one to its packet.
  abbrev pub Answered : Dispatcher → Type 0
  Answered idle = Unit {0}
  Answered (replying pkt packet) = dispatch wire stack resolver pkt ≡ found packet
  Answered dispatcher_done = Unit {0}

  -- What the unbounded stack shows of a bridge: a packet whose reply waits is still on its channel, and
  -- its outgoing channel is never drained.
  pub record Refines (s : Bridge) (t : State) : Type 0 where
    pub queue : t.incoming ≡ pending s.dispatcher ++ s.incoming
    pub sent : t.sent ≡ s.written ++ s.outgoing
    pub all : s.read ≡ t.handled ++ (t.incoming ++ held s.reader)
    pub reader_open : t.incoming_open ≡ reader_alive s.reader
    pub dispatching : t.dispatcher_running ≡ dispatcher_alive s.dispatcher
    pub outgoing_open : t.outgoing_open ≡ true
    pub beacon_on : t.beacon_running ≡ beacon_alive s.beacon
    pub writer_on : WriterServes s
    pub timed : Timed stack s.beacon
    pub ended :
        dispatcher_alive s.dispatcher ≡ false → (reader_alive s.reader ≡ false) × (s.incoming ≡ [])
    pub answered : Answered s.dispatcher

  -- The stack stands still or takes one step.
  abbrev pub Follows : Bridge → State → Type 0
  Follows s t = Refines s t ⊎ ((e : Stack.Event) × Refines s (Stack.step wire stack resolver e t))
