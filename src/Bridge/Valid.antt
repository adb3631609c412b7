-- ===== src/Bridge/Valid.antt =====
-- Everything that crates/dns-stack/examples/basic.rs hands to its device is a packet that a receiver takes.
use mathlib.Core.Path.{subst}
use dns_announce.Shared.{
  if_cases, ◌==◌, ℕ, refl, sym, List, [], ◌∷◌, ◌++◌, All, All-append, All-append_left,
}
use dns_announce.Net.{Bytes, IsByte}
use dns_announce.Dns.{SimpleDns, Resolver}
use dns_announce.Stack.{DnsStack, Sent, advert, reply, unsolicited}
use dns_announce.Stack.Schedule.{replies, adverts, AllEqual}
use dns_announce.Stack.Valid.{
  IsReady, BuildsBytes, IsValid, unsolicited-IsValid, dispatched-IsValid,
}
use dns_announce.Bridge.{
  Reader, receiving, holding, reader_done, Beacon, ticking, sending, beacon_done, Bridge, start,
  Event, device_reads, device_fails, tick, reader_turn, dispatcher_turn, beacon_turn, writer_turn,
  reads, fails, ticks, step, run,
}
use dns_announce.Bridge.Reads.{
  Reads, write-Reads, reader_step-Reads, beacon_step-Reads, dispatcher_step-Reads,
}
use dns_announce.Bridge.Answers.{run-answers}

-- The device delivers bytes.
abbrev pub BringsBytes : Event → Type 0
BringsBytes (device_reads b) = All IsByte b
BringsBytes device_fails = Unit {0}
BringsBytes tick = Unit {0}
BringsBytes reader_turn = Unit {0}
BringsBytes dispatcher_turn = Unit {0}
BringsBytes beacon_turn = Unit {0}
BringsBytes writer_turn = Unit {0}

abbrev HasReadBytes : Bridge → Type 0
HasReadBytes s = All (All IsByte) s.read

reads-HasReadBytes :
    (b : Bytes) (x : Reader) (s : Bridge)
    → All IsByte b
    → HasReadBytes s
    → HasReadBytes (reads b x s)
unfolding reads
reads-HasReadBytes b receiving s h k = All-append (All IsByte) s.read (b ∷ []) k (h, tt)
reads-HasReadBytes b (holding x) s h k = k
reads-HasReadBytes b reader_done s h k = k

fails-Reads : (x : Reader) (s : Bridge) → Reads s.read (fails x s)
unfolding fails
fails-Reads receiving s = refl
fails-Reads (holding x) s = refl
fails-Reads reader_done s = refl

ticks-Reads : (stack : DnsStack) (x : Beacon) (s : Bridge) → Reads s.read (ticks stack x s)
unfolding ticks
ticks-Reads stack ticking s =
    if_cases (Reads s.read) (stack.ra_cfg.resend_interval == 0) _ _ (λ _. refl) (λ _. refl)
ticks-Reads stack sending s = refl
ticks-Reads stack beacon_done s = refl

abbrev pub packet_of : Sent → Bytes
packet_of (advert b) = b
packet_of (reply b) = b

module _ (wire : SimpleDns) (stack : DnsStack) (resolver : Resolver) (room : ℕ) where
  step-HasReadBytes :
      (e : Event) (s : Bridge)
      → BringsBytes e
      → HasReadBytes s
      → HasReadBytes (step wire stack resolver room e s)
  unfolding step
  step-HasReadBytes (device_reads b) s h k = reads-HasReadBytes b s.reader s h k
  step-HasReadBytes device_fails s h k = subst (All (All IsByte)) (sym (fails-Reads s.reader s)) k
  step-HasReadBytes tick s h k = subst (All (All IsByte)) (sym (ticks-Reads stack s.beacon s)) k
  step-HasReadBytes reader_turn s h k =
      subst (All (All IsByte)) (sym (reader_step-Reads room s.read s.reader s refl)) k
  step-HasReadBytes dispatcher_turn s h k =
      subst (All (All IsByte))
        (sym (dispatcher_step-Reads wire stack resolver room s.read s.dispatcher s refl)) k
  step-HasReadBytes beacon_turn s h k =
      subst (All (All IsByte)) (sym (beacon_step-Reads room stack s.read s.beacon s refl)) k
  step-HasReadBytes writer_turn s h k = subst (All (All IsByte)) (sym (write-Reads s.read s refl)) k

  run-HasReadBytes :
      (es : List Event) (s : Bridge)
      → All BringsBytes es
      → HasReadBytes s
      → HasReadBytes (run wire stack resolver room es s)
  unfolding run
  run-HasReadBytes [] s h k = k
  run-HasReadBytes (e ∷ es) s h k = run-HasReadBytes es _ h.1 (step-HasReadBytes e s h.0 k)

  written-IsValid :
      (sent : List Sent)
      → IsReady stack
      → All (IsValid stack) (replies sent)
      → AllEqual (unsolicited stack) (adverts sent)
      → All (λ p. IsValid stack (packet_of p)) sent
  unfolding replies adverts
  written-IsValid [] ready h k = tt
  written-IsValid (advert b ∷ sent) ready h k = (
    subst (IsValid stack) (sym k.0) (unsolicited-IsValid wire stack resolver ready),
    written-IsValid sent ready h k.1,
  )
  written-IsValid (reply b ∷ sent) ready h k = (h.0, written-IsValid sent ready h.1 k)

  -- For a configuration that fits its length fields, a library that builds messages of bytes, and a
  -- device that delivers bytes: whatever else the device, the ticker and
  -- the scheduler do, and whatever the packets from the device hold, everything that the device gets
  -- is bytes and either a Router Advertisement with the configured options, a right header and a right
  -- checksum, or a UDP packet with a right checksum from the server's address and port 53, or else
  -- longer than a UDP packet can be.
  pub run-IsValid :
      (es : List Event)
      → IsReady stack
      → BuildsBytes wire
      → All BringsBytes es
      → All (λ p. IsValid stack (packet_of p)) (run wire stack resolver room es start).written
  run-IsValid es ready built bytes =
      let s = run wire stack resolver room es start in
      let (told, same, _, _) = run-answers wire stack resolver room es in
      let valid =
        dispatched-IsValid wire stack resolver ready s.read built
          (run-HasReadBytes es start bytes tt) in
      written-IsValid s.written ready
        (All-append_left (IsValid stack) (replies s.written) _ (
          All-append_left (IsValid stack) (replies s.written ++ replies s.outgoing) _
            (subst (All (IsValid stack)) told valid)))
        same
