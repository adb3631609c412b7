-- ===== src/Bridge/Tasks.antt =====
-- The reader and the beacon of crates/dns-stack/examples/basic.rs, with the device and the ticker: each
-- of their steps is one of the stack with unbounded channels, or none.
use mathlib.Core.Path.{subst}
use dns_announce.Shared.{
  ◌==◌, ℕ, ◌≡◌, refl, sym, ap, ◌∙◌, inl, inr, true, List, [], ◌∷◌, ◌++◌, append_assoc, append-nil,
  ltb, length, if_cases, not,
}
use dns_announce.Net.{Bytes}
use dns_announce.Dns.{SimpleDns, Resolver}
use dns_announce.Stack
use dns_announce.Stack.{
  DnsStack, Sent, advert, reply, State, arrive, close_incoming, dispatch_round, spawned,
  unsolicited, dispatch, finish_round, receive, dispatch_step,
}
use dns_announce.Stack.Live.{arrive_live, tick_live, tick_panics}
use dns_announce.Bridge.{
  Reader, receiving, holding, reader_done, Beacon, ticking, sending, beacon_done, Bridge,
  reader_alive, dispatcher_alive, beacon_alive, reads, fails, ticks, reader_step, beacon_step,
}
use dns_announce.Bridge.Shows.{
  on_off, not_on, not_off, held, pending, Refines, Follows, Timed, on_while_sending,
}

module _ (wire : SimpleDns) (stack : DnsStack) (resolver : Resolver) where
  pub reads-Refines :
      (b : Bytes) (x : Reader) (s : Bridge) (t : State)
      → s.reader ≡ x
      → Refines wire stack resolver s t
      → Refines wire stack resolver (reads b x s) t
  unfolding reads
  reads-Refines b receiving s t e h = record {
    queue = h.queue;
    sent = h.sent;
    all =
        ap (λ (l : List Bytes). l ++ (b ∷ []))
          (h.all ∙ ap (λ x. t.handled ++ (t.incoming ++ held x)) e)
        ∙ rw append-nil (append_assoc t.handled t.incoming (b ∷ []));
    reader_open = h.reader_open ∙ ap reader_alive e;
    dispatching = h.dispatching;
    outgoing_open = h.outgoing_open;
    beacon_on = h.beacon_on;
    writer_on = h.writer_on;
    timed = h.timed;
    ended = λ d. (sym (ap reader_alive e) ∙ (h.ended d).0, (h.ended d).1);
    answered = h.answered;
  }
  reads-Refines b (holding x) s t e h = h
  reads-Refines b reader_done s t e h = h

  pub fails-Follows :
      (x : Reader) (s : Bridge) (t : State)
      → s.reader ≡ x
      → Refines wire stack resolver s t
      → Follows wire stack resolver (fails x s) t
  unfolding fails Stack.step
  fails-Follows receiving s t e h = inr (
    close_incoming,
    record {
      queue = h.queue;
      sent = h.sent;
      all = h.all ∙ ap (λ x. t.handled ++ (t.incoming ++ held x)) e;
      reader_open = refl;
      dispatching = h.dispatching;
      outgoing_open = h.outgoing_open;
      beacon_on = h.beacon_on;
      writer_on = h.writer_on;
      timed = h.timed;
      ended = λ d. (refl, (h.ended d).1);
      answered = h.answered;
    },
  )
  fails-Follows (holding x) s t e h = inl h
  fails-Follows reader_done s t e h = inl h

  pub ticks-Follows :
      (x : Beacon) (s : Bridge) (t : State)
      → s.beacon ≡ x
      → Refines wire stack resolver s t
      → Follows wire stack resolver (ticks stack x s) t
  unfolding ticks
  ticks-Follows sending s t e h = inl h
  ticks-Follows beacon_done s t e h = inl h
  ticks-Follows ticking s t e h =
      if_cases (λ s'. Follows wire stack resolver s' t) (stack.ra_cfg.resend_interval == 0) _ _
        (λ zero'. inr (
          Stack.tick,
          subst (Refines wire stack resolver _)
              (sym (tick_panics wire stack resolver t (h.beacon_on ∙ ap beacon_alive e) zero'))
              (record {
                queue = h.queue;
                sent = h.sent;
                all = h.all;
                reader_open = h.reader_open;
                dispatching = h.dispatching;
                outgoing_open = h.outgoing_open;
                beacon_on = refl;
                writer_on = inl on;
                timed = zero';
                ended = h.ended;
                answered = h.answered;
              }),
        ))
        (λ timed. inl (record {
          queue = h.queue;
          sent = h.sent;
          all = h.all;
          reader_open = h.reader_open;
          dispatching = h.dispatching;
          outgoing_open = h.outgoing_open;
          beacon_on = h.beacon_on ∙ ap beacon_alive e;
          writer_on = inl on;
          timed = timed;
          ended = h.ended;
          answered = h.answered;
        }))
    where
      on : s.writer_running ≡ true
      on = on_while_sending s h.writer_on (ap beacon_alive e)

  pub reader_step-Follows :
      (room : ℕ) (x : Reader) (s : Bridge) (t : State)
      → s.reader ≡ x
      → Refines wire stack resolver s t
      → Follows wire stack resolver (reader_step room x s) t
  unfolding reader_step
  reader_step-Follows room receiving s t e h = inl h
  reader_step-Follows room reader_done s t e h = inl h
  reader_step-Follows room (holding b) s t e h =
      if_cases (λ s'. Follows wire stack resolver s' t) (not (dispatcher_alive s.dispatcher)) _ _
        (λ gone. absurd (on_off _ alive (h.ended (not_on _ gone)).0))
        (λ on.
          if_cases (λ s'. Follows wire stack resolver s' t) (ltb (length s.incoming) room) _ _
            (λ fits. inr (
              arrive b,
              subst (Refines wire stack resolver _)
                  (sym (
                    arrive_live wire stack resolver b t (h.reader_open ∙ alive)
                      (h.dispatching ∙ not_off _ on)))
                  (pushed (not_off _ on)),
            ))
            (λ full. inl h))
    where
      alive : reader_alive s.reader ≡ true
      alive = ap reader_alive e

      pushed :
          dispatcher_alive s.dispatcher ≡ true
          → Refines wire stack resolver
              (record s { reader = receiving; incoming = s.incoming ++ (b ∷ []) })
              (record t { incoming = t.incoming ++ (b ∷ []) })
      pushed live = record {
        queue =
            ap (λ (l : List Bytes). l ++ (b ∷ [])) h.queue
            ∙ append_assoc (pending s.dispatcher) s.incoming (b ∷ []);
        sent = h.sent;
        all = h.all ∙ rw (e, append-nil) refl;
        reader_open = h.reader_open ∙ alive;
        dispatching = h.dispatching;
        outgoing_open = h.outgoing_open;
        beacon_on = h.beacon_on;
        writer_on = h.writer_on;
        timed = h.timed;
        ended = λ d. absurd (on_off _ live d);
        answered = h.answered;
      }

  pub beacon_step-Follows :
      (room : ℕ) (x : Beacon) (s : Bridge) (t : State)
      → s.beacon ≡ x
      → Refines wire stack resolver s t
      → Follows wire stack resolver (beacon_step room stack x s) t
  unfolding beacon_step
  beacon_step-Follows room ticking s t e h = inl h
  beacon_step-Follows room beacon_done s t e h = inl h
  beacon_step-Follows room sending s t e h =
      if_cases (λ s'. Follows wire stack resolver s' t) (not s.writer_running) _ _
        (λ gone.
          absurd (on_off _ (on_while_sending s h.writer_on (ap beacon_alive e)) (not_on _ gone)))
        (λ on.
          if_cases (λ s'. Follows wire stack resolver s' t) (ltb (length s.outgoing) room) _ _
            (λ fits. inr (
              Stack.tick,
              subst (Refines wire stack resolver _)
                  (sym (
                    tick_live wire stack resolver t (h.beacon_on ∙ ap beacon_alive e)
                      (subst (Timed stack) e h.timed) h.outgoing_open))
                  (record {
                    queue = h.queue;
                    sent =
                        ap (λ (l : List Sent). l ++ (advert (unsolicited stack) ∷ [])) h.sent
                        ∙ append_assoc s.written s.outgoing (advert (unsolicited stack) ∷ []);
                    all = h.all;
                    reader_open = h.reader_open;
                    dispatching = h.dispatching;
                    outgoing_open = h.outgoing_open;
                    beacon_on = h.beacon_on ∙ ap beacon_alive e;
                    writer_on = inl (not_off _ on);
                    timed = tt;
                    ended = h.ended;
                    answered = h.answered;
                  }),
            ))
            (λ full. inl h))
