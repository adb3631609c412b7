-- ===== src/Bridge/Drained.antt =====
-- Every packet that crates/dns-stack/examples/basic.rs reads from its device is answered in the end
-- by every fair scheduler.
use mathlib.Core.Path.{subst}
use dns_announce.Shared.{
  All, ℕ, ◌<◌, ◌≡◌, refl, sym, ap, ◌∙◌, List, [], ◌∷◌, ◌++◌, length, append-nil,
}
use dns_announce.Net.{Bytes}
use dns_announce.Dns.{SimpleDns, Resolver}
use dns_announce.Stack
use dns_announce.Stack.{DnsStack, Sent, spawned, dispatch, unsolicited}
use dns_announce.Stack.Schedule.{replies, dispatched}
use dns_announce.Bridge.{Bridge, start, Event, step, run}
use dns_announce.Bridge.Refines.{run-Refines}
use dns_announce.Bridge.Answers.{unanswered, run-answers}
use dns_announce.Bridge.Work.{
  Task, reader_task, dispatcher_task, beacon_task, writer_task, turn, work,
}
use dns_announce.Bridge.Fair.{IsFair, turns, all_turns, run-append, IsDone, settled}
use dns_announce.Bridge.Reads.{
  Reads, write-Reads, reader_step-Reads, beacon_step-Reads, dispatcher_step-Reads,
}

module _ (wire : SimpleDns) (stack : DnsStack) (resolver : Resolver) (room : ℕ) where
  turn-Reads :
      (pkts : List Bytes) (t : Task) (s : Bridge)
      → Reads pkts s
      → Reads pkts (step wire stack resolver room (turn t) s)
  unfolding step
  turn-Reads pkts reader_task s h = reader_step-Reads room pkts s.reader s h
  turn-Reads pkts dispatcher_task s h =
      dispatcher_step-Reads wire stack resolver room pkts s.dispatcher s h
  turn-Reads pkts beacon_task s h = beacon_step-Reads room stack pkts s.beacon s h
  turn-Reads pkts writer_task s h = write-Reads pkts s h

  turns-Reads :
      (pkts : List Bytes) (ts : List Task) (s : Bridge)
      → Reads pkts s
      → Reads pkts (run wire stack resolver room (turns ts) s)
  unfolding turns run
  turns-Reads pkts [] s h = h
  turns-Reads pkts (t ∷ ts) s h = turns-Reads pkts ts _ (turn-Reads pkts t s h)

  all_turns-Reads :
      (pkts : List Bytes) (blocks : List (List Task)) (s : Bridge)
      → Reads pkts s
      → Reads pkts (run wire stack resolver room (all_turns blocks) s)
  unfolding all_turns run
  all_turns-Reads pkts [] s h = h
  all_turns-Reads pkts (ts ∷ blocks) s h =
      subst (Reads pkts) (sym (run-append wire stack resolver room (turns ts) (all_turns blocks) s))
        (all_turns-Reads pkts blocks _ (turns-Reads pkts ts s h))

  abbrev pub after : List Event → Bridge
  after es = run wire stack resolver room es start

  alone :
      {sent : List Bytes} (out : List Sent) (left : List Bytes)
      → out ≡ []
      → left ≡ []
      → (sent ++ replies out) ++ dispatched wire stack resolver left ≡ sent
  unfolding replies dispatched
  alone {sent = sent} out left e f = rw (e, f) (append-nil _ ∙ append-nil sent)

  -- With channels that hold at least one packet, whatever the device, the ticker and the scheduler did
  -- before: after more stretches of turns than there was work left, each of which has a turn of every
  -- task, in any order, and in which nothing comes from the device or the ticker, no packet waits for an
  -- answer or for the device, and the device has got the replies to all packets that ever came from it,
  -- each once and in the order of the packets.
  pub after-drained :
      (es : List Event) (blocks : List (List Task))
      → 0 < room
      → All IsFair blocks
      → work (after es) < length blocks
      → (replies (run wire stack resolver room (all_turns blocks) (after es)).written
          ≡ dispatched wire stack resolver (after es).read)
        × ((run wire stack resolver room (all_turns blocks) (after es)).outgoing ≡ [])
        × (unanswered wire stack resolver
              (run wire stack resolver room (all_turns blocks) (after es))
            ≡ [])
  after-drained es blocks r fair enough =
      let s = after es in
      let s' = run wire stack resolver room (all_turns blocks) s in
      let (es', h) = run-Refines wire stack resolver room es in
      let done' : IsDone wire stack resolver room s' =
        settled wire stack resolver room blocks s (Stack.run wire stack resolver es' spawned) r h
          fair enough in
      let told : dispatched wire stack resolver s'.read
          ≡ (replies s'.written ++ replies s'.outgoing)
            ++ dispatched wire stack resolver (unanswered wire stack resolver s') =
        subst
          (λ x.
            dispatched wire stack resolver x.read
            ≡ (replies x.written ++ replies x.outgoing)
              ++ dispatched wire stack resolver (unanswered wire stack resolver x))
          (run-append wire stack resolver room es (all_turns blocks) start)
          (run-answers wire stack resolver room (es ++ all_turns blocks)).0 in
      (
        sym (
            ap (dispatched wire stack resolver) (sym (all_turns-Reads s.read blocks s refl))
            ∙ told
            ∙ alone s'.outgoing _ done'.0 done'.1),
        done'.0,
        done'.1,
      )
