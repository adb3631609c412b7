-- ===== src/Bridge/Answers.antt =====
-- What crates/dns-stack/examples/basic.rs hands to its device, from the record of the stack behind it.
use mathlib.Core.Path.{subst}
use dns_announce.Shared.{
  refl, ◌⊎◌, inl, inr, ==_iff, ℕ, ◌≡◌, sym, ap, ◌∙◌, true, List, ◌++◌, append_assoc,
}
use dns_announce.Net.{Bytes}
use dns_announce.Dns.{SimpleDns, Resolver}
use dns_announce.Stack
use dns_announce.Stack.{DnsStack, Sent, advert, reply, State, spawned, unsolicited}
use dns_announce.Stack.Schedule.{
  replies, adverts, adverts_before, AllEqual, replies-append, dispatched, dispatched-append,
  IsSound, run-IsSound,
}
use dns_announce.Bridge.{
  Beacon, ticking, sending, beacon_done, Bridge, start, Event, run, beacon_alive,
}
use dns_announce.Bridge.Shows.{WriterServes, Timed, held, pending, Refines}
use dns_announce.Bridge.Refines.{run-Refines}

Timed-beacon_alive :
    (stack : DnsStack) (x : Beacon)
    → Timed stack x
    → (beacon_alive x ≡ true) ⊎ (stack.ra_cfg.resend_interval ≡ 0)
Timed-beacon_alive stack ticking h = inl refl
Timed-beacon_alive stack sending h = inl refl
Timed-beacon_alive stack beacon_done h = inr ((==_iff _ 0).0 h)

module _ (wire : SimpleDns) (stack : DnsStack) (resolver : Resolver) where
  -- The packets from the device that no reply on its way answers yet.
  abbrev pub unanswered : Bridge → List Bytes
  unanswered s = pending s.dispatcher ++ (s.incoming ++ held s.reader)

  Refines-answers :
      (s : Bridge) (t : State)
      → Refines wire stack resolver s t
      → IsSound wire stack resolver t
      → dispatched wire stack resolver s.read
        ≡ (replies s.written ++ replies s.outgoing) ++ dispatched wire stack resolver (unanswered s)
  Refines-answers s t h sound =
      ap (dispatched wire stack resolver) h.all
      ∙ dispatched-append wire stack resolver t.handled (t.incoming ++ held s.reader)
      ∙ ap (λ (l : List Bytes). l ++ dispatched wire stack resolver (t.incoming ++ held s.reader))
          (sym sound.replies_are ∙ ap replies h.sent ∙ replies-append s.written s.outgoing)
      ∙ ap
          (λ (l : List Bytes).
            (replies s.written ++ replies s.outgoing) ++ dispatched wire stack resolver l)
          (ap (λ (l : List Bytes). l ++ held s.reader) h.queue
            ∙ append_assoc (pending s.dispatcher) s.incoming (held s.reader))

  pub run-answers :
      (room : ℕ) (es : List Event)
      → (dispatched wire stack resolver (run wire stack resolver room es start).read
          ≡ (replies (run wire stack resolver room es start).written
              ++ replies (run wire stack resolver room es start).outgoing)
            ++ dispatched wire stack resolver (unanswered (run wire stack resolver room es start)))
        × AllEqual (unsolicited stack) (adverts (run wire stack resolver room es start).written)
        × ((beacon_alive (run wire stack resolver room es start).beacon ≡ true)
            ⊎ (stack.ra_cfg.resend_interval ≡ 0))
        × WriterServes (run wire stack resolver room es start)
  run-answers room es =
      let s = run wire stack resolver room es start in
      let (es', h) = run-Refines wire stack resolver room es in
      let t = Stack.run wire stack resolver es' spawned in
      let sound = run-IsSound wire stack resolver es' in
      (
        Refines-answers s t h sound,
        adverts_before (unsolicited stack) s.written s.outgoing
            (subst (λ l. AllEqual (unsolicited stack) (adverts l)) h.sent sound.adverts_are),
        Timed-beacon_alive stack s.beacon h.timed,
        h.writer_on,
      )
