-- ===== src/Bridge/Work.antt =====
-- The work that waits in the tasks and channels of crates/dns-stack/examples/basic.rs, and that a turn of a
-- task does some of it unless the task must wait.
use dns_announce.Shared.{
  ℕ, suc, ◌+◌, ◌*◌, ◌≤◌, ◌<◌, ◌≡◌, refl, ap, ◌⊎◌, inl, inr, Bool, true, false, not, ◌||◌, List, [],
  ◌∷◌, ltb, length, length-append, if_cases, arith, Outcome, found, nothing, panicked,
}
use dns_announce.Net.{Bytes}
use dns_announce.Dns.{SimpleDns, Resolver}
use dns_announce.Stack.{DnsStack, Sent, advert, reply, unsolicited}
use dns_announce.Bridge.{
  Reader, receiving, holding, reader_done, Dispatcher, idle, replying, dispatcher_done, Beacon,
  ticking, sending, beacon_done, Bridge, Event, reader_turn, dispatcher_turn, beacon_turn,
  writer_turn, reader_alive, dispatcher_alive, beacon_alive, reader_step, beacon_step, reply_step,
  took, writer_step, take_step, dispatcher_step, write, step,
}
use dns_announce.Bridge.Shows.{held, pending, WriterServes, on_off}

-- The four tasks, and the turn of each.
pub data Task : Type 0 where
  reader_task dispatcher_task beacon_task writer_task : Task

abbrev pub turn : Task → Event
turn reader_task = reader_turn
turn dispatcher_task = dispatcher_turn
turn beacon_task = beacon_turn
turn writer_task = writer_turn

-- What is left to do with a packet, where it is. A dispatcher or writer that waits may still
-- end.
abbrev pub reader_work : Reader → ℕ
reader_work receiving = 0
reader_work (holding b) = 4
reader_work reader_done = 0

abbrev pub dispatcher_work : Dispatcher → ℕ
dispatcher_work idle = 1
dispatcher_work (replying pkt packet) = 3
dispatcher_work dispatcher_done = 0

abbrev pub beacon_work : Beacon → ℕ
beacon_work ticking = 0
beacon_work sending = 2
beacon_work beacon_done = 0

abbrev pub writer_work : Bool → ℕ
writer_work true = 1
writer_work false = 0

abbrev pub work : Bridge → ℕ
work s =
    reader_work s.reader
    + (3 * length s.incoming
        + (dispatcher_work s.dispatcher
            + (beacon_work s.beacon + (length s.outgoing + writer_work s.writer_running))))

-- No task that others wait for has stopped.
pub record IsLive (s : Bridge) : Type 0 where
  pub writer_on : WriterServes s
  pub ended : dispatcher_alive s.dispatcher ≡ false → s.incoming ≡ []

module _ (room : ℕ) where
  -- Why a turn of a task does nothing.
  abbrev pub Waits : Task → Bridge → Type 0
  Waits reader_task s = (held s.reader ≡ []) ⊎ (room ≤ length s.incoming)
  Waits dispatcher_task s =
      ((pending s.dispatcher ≡ []) × (s.incoming ≡ [])) ⊎ (room ≤ length s.outgoing)
  Waits beacon_task s = Unit {0}
  Waits writer_task s = s.outgoing ≡ []

  -- A turn does some work, or it does nothing because the task waits.
  abbrev pub Works : Task → Bridge → Bridge → Type 0
  Works t s s' = (work s' < work s) ⊎ ((s' ≡ s) × Waits t s)

  full_le : (n : ℕ) → ltb n room ≡ false → room ≤ n
  full_le n h = ground arith

  writer_step-Works :
      (queue : List Sent) (s : Bridge)
      → s.outgoing ≡ queue
      → s.writer_running ≡ true
      → Works writer_task s (writer_step queue s)
  unfolding writer_step
  writer_step-Works [] s e on =
      let serves : writer_work s.writer_running ≡ 1 = ap writer_work on in
      if_cases (Works writer_task s) (dispatcher_alive s.dispatcher || beacon_alive s.beacon) _ _
        (λ live. inr (refl, e)) (λ off. inl (omega (arith, serves)))
  writer_step-Works (p ∷ rest) s e on =
      let shorter : length s.outgoing ≡ suc (length rest) = ap length e in
      inl (omega (arith, shorter))

  write-Works : (s : Bridge) → WriterServes s → Works writer_task s (write s)
  unfolding write
  write-Works s serves =
      if_cases (Works writer_task s) s.writer_running _ _
        (λ on. writer_step-Works s.outgoing s refl on) (λ off. inr (refl, empty serves off))
    where
      empty : WriterServes s → s.writer_running ≡ false → s.outgoing ≡ []
      empty (inl on) off = absurd (on_off _ on off)
      empty (inr (_, _, none')) off = none'

  reader_step-Works :
      (x : Reader) (s : Bridge) → s.reader ≡ x → Works reader_task s (reader_step room x s)
  unfolding reader_step
  reader_step-Works receiving s e = inr (refl, inl (ap held e))
  reader_step-Works reader_done s e = inr (refl, inl (ap held e))
  reader_step-Works (holding b) s e =
      let busy : reader_work s.reader ≡ 4 = ap reader_work e in
      if_cases (Works reader_task s) (not (dispatcher_alive s.dispatcher)) _ _
        (λ gone. inl (omega (arith, busy)))
        (λ on.
          if_cases (Works reader_task s) (ltb (length s.incoming) room) _ _
            (λ fits. inl (omega (arith, busy, length-append s.incoming (b ∷ []))))
            (λ full. inr (refl, inr (full_le (length s.incoming) full))))

  beacon_step-Works :
      (stack : DnsStack) (x : Beacon) (s : Bridge)
      → s.beacon ≡ x
      → Works beacon_task s (beacon_step room stack x s)
  unfolding beacon_step
  beacon_step-Works stack ticking s e = inr (refl, tt)
  beacon_step-Works stack beacon_done s e = inr (refl, tt)
  beacon_step-Works stack sending s e =
      let busy : beacon_work s.beacon ≡ 2 = ap beacon_work e in
      if_cases (Works beacon_task s) (not s.writer_running) _ _ (λ gone. inl (omega (arith, busy)))
        (λ on.
          if_cases (Works beacon_task s) (ltb (length s.outgoing) room) _ _
            (λ fits.
              inl (omega (arith, busy, length-append s.outgoing (advert (unsolicited stack) ∷ []))))
            (λ full. inr (refl, tt)))

  reply_step-Works :
      (pkt packet : Bytes) (s : Bridge)
      → s.dispatcher ≡ replying pkt packet
      → Works dispatcher_task s (reply_step room packet s)
  unfolding reply_step
  reply_step-Works pkt packet s e =
      let busy : dispatcher_work s.dispatcher ≡ 3 = ap dispatcher_work e in
      if_cases (Works dispatcher_task s) (not s.writer_running) _ _
        (λ gone. inl (omega (arith, busy)))
        (λ on.
          if_cases (Works dispatcher_task s) (ltb (length s.outgoing) room) _ _
            (λ fits. inl (omega (arith, busy, length-append s.outgoing (reply packet ∷ []))))
            (λ full. inr (refl, inr (full_le (length s.outgoing) full))))

  took-work :
      (o : Outcome Bytes) (pkt : Bytes) (rest : List Bytes) (s : Bridge)
      → dispatcher_work s.dispatcher ≡ 1
      → length s.incoming ≡ suc (length rest)
      → work (took o pkt (record s { incoming = rest })) < work s
  unfolding took
  took-work nothing pkt rest s e f = omega arith
  took-work (found packet) pkt rest s e f = omega arith
  took-work panicked pkt rest s e f = omega arith

  module _ (wire : SimpleDns) (stack : DnsStack) (resolver : Resolver) where
    take_step-Works :
        (queue : List Bytes) (s : Bridge)
        → s.dispatcher ≡ idle
        → s.incoming ≡ queue
        → Works dispatcher_task s (take_step wire stack resolver room queue s)
    unfolding take_step
    take_step-Works [] s e f =
        let waits : dispatcher_work s.dispatcher ≡ 1 = ap dispatcher_work e in
        if_cases (Works dispatcher_task s) (reader_alive s.reader) _ _
          (λ on. inr (refl, inl (ap pending e, f))) (λ off. inl (omega (arith, waits)))
    take_step-Works (pkt ∷ rest) s e f =
        inl (took-work _ pkt rest s (ap dispatcher_work e) (ap length f))

    dispatcher_step-Works :
        (x : Dispatcher) (s : Bridge)
        → s.dispatcher ≡ x
        → (dispatcher_alive s.dispatcher ≡ false → s.incoming ≡ [])
        → Works dispatcher_task s (dispatcher_step wire stack resolver room x s)
    unfolding dispatcher_step
    dispatcher_step-Works idle s e ended = take_step-Works s.incoming s e refl
    dispatcher_step-Works (replying pkt packet) s e ended = reply_step-Works pkt packet s e
    dispatcher_step-Works dispatcher_done s e ended =
        inr (refl, inl (ap pending e, ended (ap dispatcher_alive e)))

    pub turn-Works :
        (t : Task) (s : Bridge) → IsLive s → Works t s (step wire stack resolver room (turn t) s)
    unfolding step write
    turn-Works reader_task s live = reader_step-Works s.reader s refl
    turn-Works dispatcher_task s live = dispatcher_step-Works s.dispatcher s refl live.ended
    turn-Works beacon_task s live = beacon_step-Works stack s.beacon s refl
    turn-Works writer_task s live = write-Works s live.writer_on
