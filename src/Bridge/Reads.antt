-- ===== src/Bridge/Reads.antt =====
-- What the tasks of crates/dns-stack/examples/basic.rs have read from the device, which only the device
-- changes.
use dns_announce.Shared.{
  ℕ, ◌≡◌, not, ◌||◌, List, [], ◌∷◌, length, if_cases, ltb, Outcome, found, nothing, panicked,
}
use dns_announce.Net.{Bytes}
use dns_announce.Dns.{SimpleDns, Resolver}
use dns_announce.Stack.{DnsStack, Sent, dispatch}
use dns_announce.Bridge.{
  Reader, receiving, holding, reader_done, Dispatcher, idle, replying, dispatcher_done, Beacon,
  ticking, sending, beacon_done, Bridge, reader_alive, dispatcher_alive, beacon_alive, reader_step,
  beacon_step, reply_step, took, writer_step, take_step, dispatcher_step, write,
}

-- The turns of the tasks read nothing from the device.
abbrev pub Reads : List Bytes → Bridge → Type 0
Reads pkts s = s.read ≡ pkts

writer_step-Reads :
    (pkts : List Bytes) (queue : List Sent) (s : Bridge)
    → Reads pkts s
    → Reads pkts (writer_step queue s)
unfolding writer_step
writer_step-Reads pkts [] s h =
    if_cases (Reads pkts) (dispatcher_alive s.dispatcher || beacon_alive s.beacon) _ _ (λ on. h)
      (λ off. h)
writer_step-Reads pkts (p ∷ rest) s h = h

pub write-Reads : (pkts : List Bytes) (s : Bridge) → Reads pkts s → Reads pkts (write s)
unfolding write
write-Reads pkts s h =
    if_cases (Reads pkts) s.writer_running _ _ (λ on. writer_step-Reads pkts s.outgoing s h)
      (λ off. h)

pub reader_step-Reads :
    (room : ℕ) (pkts : List Bytes) (x : Reader) (s : Bridge)
    → Reads pkts s
    → Reads pkts (reader_step room x s)
unfolding reader_step
reader_step-Reads room pkts receiving s h = h
reader_step-Reads room pkts reader_done s h = h
reader_step-Reads room pkts (holding b) s h =
    if_cases (Reads pkts) (not (dispatcher_alive s.dispatcher)) _ _ (λ gone. h)
      (λ on. if_cases (Reads pkts) (ltb (length s.incoming) room) _ _ (λ fits. h) (λ full. h))

pub beacon_step-Reads :
    (room : ℕ) (stack : DnsStack) (pkts : List Bytes) (x : Beacon) (s : Bridge)
    → Reads pkts s
    → Reads pkts (beacon_step room stack x s)
unfolding beacon_step
beacon_step-Reads room stack pkts ticking s h = h
beacon_step-Reads room stack pkts beacon_done s h = h
beacon_step-Reads room stack pkts sending s h =
    if_cases (Reads pkts) (not s.writer_running) _ _ (λ gone. h)
      (λ on. if_cases (Reads pkts) (ltb (length s.outgoing) room) _ _ (λ fits. h) (λ full. h))

took-Reads :
    (pkts : List Bytes) (o : Outcome Bytes) (pkt : Bytes) (s : Bridge)
    → Reads pkts s
    → Reads pkts (took o pkt s)
unfolding took
took-Reads pkts nothing pkt s h = h
took-Reads pkts (found packet) pkt s h = h
took-Reads pkts panicked pkt s h = h

module _ (wire : SimpleDns) (stack : DnsStack) (resolver : Resolver) (room : ℕ) where
  take_step-Reads :
      (pkts : List Bytes) (queue : List Bytes) (s : Bridge)
      → Reads pkts s
      → Reads pkts (take_step wire stack resolver room queue s)
  unfolding take_step
  take_step-Reads pkts [] s h =
      if_cases (Reads pkts) (reader_alive s.reader) _ _ (λ on. h) (λ off. h)
  take_step-Reads pkts (pkt ∷ rest) s h =
      took-Reads pkts (dispatch wire stack resolver pkt) pkt (record s { incoming = rest }) h

  pub dispatcher_step-Reads :
      (pkts : List Bytes) (x : Dispatcher) (s : Bridge)
      → Reads pkts s
      → Reads pkts (dispatcher_step wire stack resolver room x s)
  unfolding dispatcher_step reply_step
  dispatcher_step-Reads pkts idle s h = take_step-Reads pkts s.incoming s h
  dispatcher_step-Reads pkts (replying pkt packet) s h =
      if_cases (Reads pkts) (not s.writer_running) _ _ (λ gone. h)
        (λ on. if_cases (Reads pkts) (ltb (length s.outgoing) room) _ _ (λ fits. h) (λ full. h))
  dispatcher_step-Reads pkts dispatcher_done s h = h
