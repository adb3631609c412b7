-- ===== src/Bridge/Replies.antt =====
-- The dispatcher of crates/dns-stack/examples/basic.rs, whose send waits for room: each of its steps is
-- one of the stack with unbounded channels, or none.
use mathlib.Core.Path.{subst}
use dns_announce.Shared.{
  ℕ, ◌≡◌, refl, sym, ap, ◌∙◌, inl, inr, true, List, [], ◌∷◌, ◌++◌, append_assoc, ltb, length,
  Outcome, found, nothing, panicked, if_cases, not,
}
use dns_announce.Net.{Bytes}
use dns_announce.Dns.{SimpleDns, Resolver}
use dns_announce.Stack.{DnsStack, Sent, reply, State, dispatch_round, dispatch}
use dns_announce.Stack.Dispatch.{dispatch-ne-panicked}
use dns_announce.Stack.Live.{end_live, round_quiet, round_replied}
use dns_announce.Bridge.{
  Dispatcher, idle, replying, dispatcher_done, Bridge, reader_alive, dispatcher_alive, reply_step,
  took, take_step, dispatcher_step,
}
use dns_announce.Bridge.Shows.{
  on_while_dispatching, not_off, on_off, not_on, held, pending, Answered, Refines, Follows,
}

module _ (wire : SimpleDns) (stack : DnsStack) (resolver : Resolver) where
  took-Follows :
      (o : Outcome Bytes) (pkt : Bytes) (rest : List Bytes) (s : Bridge) (t : State)
      → dispatch wire stack resolver pkt ≡ o
      → s.dispatcher ≡ idle
      → s.incoming ≡ pkt ∷ rest
      → Refines wire stack resolver s t
      → Follows wire stack resolver (took o pkt (record s { incoming = rest })) t
  unfolding took
  took-Follows panicked pkt rest s t q e f h =
      absurd (dispatch-ne-panicked wire stack resolver pkt q)
  took-Follows nothing pkt rest s t q e f h = inr (
    dispatch_round,
    subst (Refines wire stack resolver _)
        (sym (round_quiet wire stack resolver pkt rest t on waits q))
        (record {
          queue = ap (λ d. pending d ++ rest) (sym e);
          sent = h.sent;
          all =
              h.all
              ∙ ap (λ l. t.handled ++ (l ++ held s.reader)) waits
              ∙ sym (append_assoc t.handled (pkt ∷ []) (rest ++ held s.reader));
          reader_open = h.reader_open;
          dispatching = h.dispatching;
          outgoing_open = h.outgoing_open;
          beacon_on = h.beacon_on;
          writer_on = h.writer_on;
          timed = h.timed;
          ended = λ d. absurd (on_off _ (ap dispatcher_alive e) d);
          answered = h.answered;
        }),
  )
    where
      on : t.dispatcher_running ≡ true
      on = h.dispatching ∙ ap dispatcher_alive e

      waits : t.incoming ≡ pkt ∷ rest
      waits = h.queue ∙ ap (λ d. pending d ++ s.incoming) e ∙ f
  took-Follows (found packet) pkt rest s t q e f h = inl (record {
    queue = h.queue ∙ ap (λ d. pending d ++ s.incoming) e ∙ f;
    sent = h.sent;
    all = h.all;
    reader_open = h.reader_open;
    dispatching = h.dispatching ∙ ap dispatcher_alive e;
    outgoing_open = h.outgoing_open;
    beacon_on = h.beacon_on;
    writer_on = inl (on_while_dispatching s h.writer_on (ap dispatcher_alive e));
    timed = h.timed;
    ended = λ d. cc;
    answered = q;
  })

  take_step-Follows :
      (room : ℕ) (queue : List Bytes) (s : Bridge) (t : State)
      → s.incoming ≡ queue
      → s.dispatcher ≡ idle
      → Refines wire stack resolver s t
      → Follows wire stack resolver (take_step wire stack resolver room queue s) t
  unfolding take_step
  take_step-Follows room (pkt ∷ rest) s t f e h =
      took-Follows (dispatch wire stack resolver pkt) pkt rest s t refl e f h
  take_step-Follows room [] s t f e h =
      if_cases (λ s'. Follows wire stack resolver s' t) (reader_alive s.reader) _ _ (λ open'. inl h)
        (λ closed. inr (
          dispatch_round,
          subst (Refines wire stack resolver _)
              (sym (
                end_live wire stack resolver t (h.dispatching ∙ ap dispatcher_alive e) empty
                  (h.reader_open ∙ closed)))
              (record {
                queue = empty ∙ sym f;
                sent = h.sent;
                all = h.all;
                reader_open = h.reader_open;
                dispatching = refl;
                outgoing_open = h.outgoing_open;
                beacon_on = h.beacon_on;
                writer_on = inl (on_while_dispatching s h.writer_on (ap dispatcher_alive e));
                timed = h.timed;
                ended = λ d. (closed, f);
                answered = tt;
              }),
        ))
    where
      empty : t.incoming ≡ []
      empty = h.queue ∙ ap (λ d. pending d ++ s.incoming) e ∙ f

  reply_step-Follows :
      (room : ℕ) (pkt packet : Bytes) (s : Bridge) (t : State)
      → s.dispatcher ≡ replying pkt packet
      → Refines wire stack resolver s t
      → Follows wire stack resolver (reply_step room packet s) t
  unfolding reply_step
  reply_step-Follows room pkt packet s t e h =
      if_cases (λ s'. Follows wire stack resolver s' t) (not s.writer_running) _ _
        (λ gone.
          absurd
            (on_off _ (on_while_dispatching s h.writer_on (ap dispatcher_alive e)) (not_on _ gone)))
        (λ on.
          if_cases (λ s'. Follows wire stack resolver s' t) (ltb (length s.outgoing) room) _ _
            (λ fits. inr (
              dispatch_round,
              subst (Refines wire stack resolver _)
                  (sym (
                    round_replied wire stack resolver pkt packet s.incoming t
                      (h.dispatching ∙ ap dispatcher_alive e) h.outgoing_open waits
                      (subst (Answered wire stack resolver) e h.answered)))
                  (record {
                    queue = refl;
                    sent =
                        ap (λ (l : List Sent). l ++ (reply packet ∷ [])) h.sent
                        ∙ append_assoc s.written s.outgoing (reply packet ∷ []);
                    all =
                        h.all
                        ∙ ap (λ l. t.handled ++ (l ++ held s.reader)) waits
                        ∙ sym (append_assoc t.handled (pkt ∷ []) (s.incoming ++ held s.reader));
                    reader_open = h.reader_open;
                    dispatching = h.dispatching ∙ ap dispatcher_alive e;
                    outgoing_open = h.outgoing_open;
                    beacon_on = h.beacon_on;
                    writer_on = inl (not_off _ on);
                    timed = h.timed;
                    ended = λ d. cc;
                    answered = tt;
                  }),
            ))
            (λ full. inl h))
    where
      waits : t.incoming ≡ pkt ∷ s.incoming
      waits = h.queue ∙ ap (λ d. pending d ++ s.incoming) e

  pub dispatcher_step-Follows :
      (room : ℕ) (x : Dispatcher) (s : Bridge) (t : State)
      → s.dispatcher ≡ x
      → Refines wire stack resolver s t
      → Follows wire stack resolver (dispatcher_step wire stack resolver room x s) t
  unfolding dispatcher_step
  dispatcher_step-Follows room idle s t e h = take_step-Follows room s.incoming s t refl e h
  dispatcher_step-Follows room (replying pkt packet) s t e h =
      reply_step-Follows room pkt packet s t e h
  dispatcher_step-Follows room dispatcher_done s t e h = inl h
