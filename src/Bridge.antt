-- ===== src/Bridge.antt =====
-- crates/dns-stack/examples/basic.rs: `main` behind the set-up. Two tasks move packets between a device
-- and the channels of the stack, which are bounded, so a send waits while its channel is full. The
-- tasks of crates/dns-stack/src/lib.rs stand here between their waits; `Stack` has them round by round.

pub mod Shows
pub mod Tasks
pub mod Replies
pub mod Refines
pub mod Answers
pub mod Work
pub mod Fair
pub mod Reads
pub mod Drained
pub mod Valid
use dns_announce.Shared.{
  ◌==◌, ℕ, Bool, true, false, not, ◌||◌, List, [], ◌∷◌, ◌++◌, if◌then◌else◌, ltb, length, Outcome,
  found, nothing, panicked,
}
use dns_announce.Net.{Bytes}
use dns_announce.Dns.{SimpleDns, Resolver}
use dns_announce.Stack.{DnsStack, Sent, advert, reply, unsolicited, dispatch}

-- Both channels of `main` have this capacity.
abbrev pub channel_capacity : ℕ
channel_capacity = 256

-- Where each task stands. The reader waits for the device or for room in the incoming channel.
pub data Reader : Type 0 where
  receiving : Reader
  holding : Bytes → Reader
  reader_done : Reader

-- The dispatcher waits for a packet, or for room for the reply to one.
pub data Dispatcher : Type 0 where
  idle : Dispatcher
  replying : Bytes → Bytes → Dispatcher
  dispatcher_done : Dispatcher

pub data Beacon : Type 0 where
  ticking sending beacon_done : Beacon

-- `read` and `written` are all packets that came from the device and that were handed to it.
pub record Bridge : Type 0 where
  pub read : List Bytes
  pub reader : Reader
  pub incoming : List Bytes
  pub dispatcher : Dispatcher
  pub beacon : Beacon
  pub outgoing : List Sent
  pub writer_running : Bool
  pub written : List Sent

abbrev pub start : Bridge
start = record {
  read = [];
  reader = receiving;
  incoming = [];
  dispatcher = idle;
  beacon = ticking;
  outgoing = [];
  writer_running = true;
  written = [];
}

-- What may happen next: the device delivers a packet or fails, the ticker fires, or a task goes on,
-- which does nothing where it must wait.
pub data Event : Type 0 where
  device_reads : Bytes → Event
  device_fails tick reader_turn dispatcher_turn beacon_turn writer_turn : Event

-- `true` until the task has dropped its end of a channel.
abbrev pub reader_alive : Reader → Bool
reader_alive receiving = true
reader_alive (holding b) = true
reader_alive reader_done = false

abbrev pub dispatcher_alive : Dispatcher → Bool
dispatcher_alive idle = true
dispatcher_alive (replying pkt packet) = true
dispatcher_alive dispatcher_done = false

abbrev pub beacon_alive : Beacon → Bool
beacon_alive ticking = true
beacon_alive sending = true
beacon_alive beacon_done = false

-- The device delivers to a reader that waits for it; a packet is what fits the buffer of the reader.
unfoldable pub reads : Bytes → Reader → Bridge → Bridge
reads b receiving s = record s { reader = holding b; read = s.read ++ (b ∷ []) }
reads b (holding x) s = s
reads b reader_done s = s

unfoldable pub fails : Reader → Bridge → Bridge
fails receiving s = record s { reader = reader_done }
fails (holding x) s = s
fails reader_done s = s

-- The ticker fires. With a period of zero `tokio::time::interval` panics, and the beacon never sends.
unfoldable pub ticks : DnsStack → Beacon → Bridge → Bridge
ticks stack ticking s =
    if stack.ra_cfg.resend_interval == 0
    then record s { beacon = beacon_done }
    else record s { beacon = sending }
ticks stack sending s = s
ticks stack beacon_done s = s

module _ (cap : ℕ) where
  -- `incoming_tx.send(..)`: it fails once the dispatcher has dropped its receiver.
  unfoldable pub reader_step : Reader → Bridge → Bridge
  reader_step receiving s = s
  reader_step (holding b) s =
      if not (dispatcher_alive s.dispatcher)
      then record s { reader = reader_done }
      else if ltb (length s.incoming) cap
      then record s { reader = receiving; incoming = s.incoming ++ (b ∷ []) }
      else s
  reader_step reader_done s = s

  -- `outgoing.send(unsolicited.clone())`
  unfoldable pub beacon_step : DnsStack → Beacon → Bridge → Bridge
  beacon_step stack ticking s = s
  beacon_step stack sending s =
      if not s.writer_running
      then record s { beacon = beacon_done }
      else if ltb (length s.outgoing) cap
      then record s { beacon = ticking; outgoing = s.outgoing ++ (advert (unsolicited stack) ∷ []) }
      else s
  beacon_step stack beacon_done s = s

  -- A send of the dispatcher, behind what it received.
  unfoldable pub reply_step : Bytes → Bridge → Bridge
  reply_step packet s =
      if not s.writer_running
      then record s { dispatcher = dispatcher_done }
      else if ltb (length s.outgoing) cap
      then record s { dispatcher = idle; outgoing = s.outgoing ++ (reply packet ∷ []) }
      else s

-- What the dispatcher does with a packet that it took from the channel, up to its send.
unfoldable pub took : Outcome Bytes → Bytes → Bridge → Bridge
took nothing pkt s = s
took (found packet) pkt s = record s { dispatcher = replying pkt packet }
took panicked pkt s = record s { dispatcher = dispatcher_done }

-- `outgoing_rx.recv()` and the device's send, whose error is only logged. The channel is closed when
-- both of its senders are gone.
unfoldable pub writer_step : List Sent → Bridge → Bridge
writer_step [] s =
    if dispatcher_alive s.dispatcher || beacon_alive s.beacon
    then s
    else record s { writer_running = false }
writer_step (p ∷ rest) s = record s { outgoing = rest; written = s.written ++ (p ∷ []) }

unfoldable pub write : Bridge → Bridge
write s = if s.writer_running then writer_step s.outgoing s else s

module _ (wire : SimpleDns) (stack : DnsStack) (resolver : Resolver) (cap : ℕ) where
  -- `incoming.recv()`, and the rest of the round up to its send.
  unfoldable pub take_step : List Bytes → Bridge → Bridge
  take_step [] s = if reader_alive s.reader then s else record s { dispatcher = dispatcher_done }
  take_step (pkt ∷ rest) s =
      took (dispatch wire stack resolver pkt) pkt (record s { incoming = rest })

  unfoldable pub dispatcher_step : Dispatcher → Bridge → Bridge
  dispatcher_step idle s = take_step s.incoming s
  dispatcher_step (replying pkt packet) s = reply_step cap packet s
  dispatcher_step dispatcher_done s = s

  unfoldable pub step : Event → Bridge → Bridge
  step (device_reads b) s = reads b s.reader s
  step device_fails s = fails s.reader s
  step tick s = ticks stack s.beacon s
  step reader_turn s = reader_step cap s.reader s
  step dispatcher_turn s = dispatcher_step s.dispatcher s
  step beacon_turn s = beacon_step cap stack s.beacon s
  step writer_turn s = write s

  unfoldable pub run : List Event → Bridge → Bridge
  run [] s = s
  run (e ∷ es) s = run es (step e s)
