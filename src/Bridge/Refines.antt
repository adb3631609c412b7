-- ===== src/Bridge/Refines.antt =====
-- The tasks of crates/dns-stack/examples/basic.rs around the stack, with bounded channels and waiting
-- sends, do nothing that the stack of `Stack` cannot do.
use dns_announce.Shared.{
  ℕ, ◌≡◌, refl, sym, ap, ◌∙◌, inl, inr, Bool, true, false, ◌||◌, List, [], ◌∷◌, ◌++◌, append_assoc,
  if_cases,
}
use dns_announce.Dns.{SimpleDns, Resolver}
use dns_announce.Stack
use dns_announce.Stack.{
  DnsStack, Sent, advert, reply, State, arrive, close_incoming, dispatch_round, spawned,
  unsolicited, dispatch, finish_round, receive, dispatch_step,
}
use dns_announce.Bridge.{
  Bridge, start, Event, device_reads, device_fails, tick, reader_turn, dispatcher_turn, beacon_turn,
  writer_turn, dispatcher_alive, beacon_alive, writer_step, write, step, run,
}
use dns_announce.Bridge.Shows.{Refines, Follows}
use dns_announce.Bridge.Tasks.{
  reads-Refines, fails-Follows, ticks-Follows, reader_step-Follows, beacon_step-Follows,
}
use dns_announce.Bridge.Replies.{dispatcher_step-Follows}

module _ (wire : SimpleDns) (stack : DnsStack) (resolver : Resolver) where
  -- The stack does not see the writer.
  writer_step-Refines :
      (queue : List Sent) (s : Bridge) (t : State)
      → s.outgoing ≡ queue
      → s.writer_running ≡ true
      → Refines wire stack resolver s t
      → Refines wire stack resolver (writer_step queue s) t
  unfolding writer_step
  writer_step-Refines [] s t f on h =
      if_cases (λ s'. Refines wire stack resolver s' t)
        (dispatcher_alive s.dispatcher || beacon_alive s.beacon) _ _ (λ live. h)
        (λ off. record {
          queue = h.queue;
          sent = h.sent;
          all = h.all;
          reader_open = h.reader_open;
          dispatching = h.dispatching;
          outgoing_open = h.outgoing_open;
          beacon_on = h.beacon_on;
          writer_on = let (d, b) = neither _ _ off in inr (d, b, f);
          timed = h.timed;
          ended = h.ended;
          answered = h.answered;
        })
    where
      neither : (a b : Bool) → (a || b) ≡ false → (a ≡ false) × (b ≡ false)
      neither true b e = cc
      neither false b e = (refl, e)
  writer_step-Refines (p ∷ rest) s t f on h = record {
    queue = h.queue;
    sent =
        h.sent
        ∙ ap (λ (l : List Sent). s.written ++ l) f
        ∙ sym (append_assoc s.written (p ∷ []) rest);
    all = h.all;
    reader_open = h.reader_open;
    dispatching = h.dispatching;
    outgoing_open = h.outgoing_open;
    beacon_on = h.beacon_on;
    writer_on = inl on;
    timed = h.timed;
    ended = h.ended;
    answered = h.answered;
  }

  step-Follows :
      (room : ℕ) (e : Event) (s : Bridge) (t : State)
      → Refines wire stack resolver s t
      → Follows wire stack resolver (step wire stack resolver room e s) t
  unfolding step write
  step-Follows room (device_reads b) s t h =
      inl (reads-Refines wire stack resolver b s.reader s t refl h)
  step-Follows room device_fails s t h = fails-Follows wire stack resolver s.reader s t refl h
  step-Follows room tick s t h = ticks-Follows wire stack resolver s.beacon s t refl h
  step-Follows room reader_turn s t h =
      reader_step-Follows wire stack resolver room s.reader s t refl h
  step-Follows room dispatcher_turn s t h =
      dispatcher_step-Follows wire stack resolver room s.dispatcher s t refl h
  step-Follows room beacon_turn s t h =
      beacon_step-Follows wire stack resolver room s.beacon s t refl h
  step-Follows room writer_turn s t h =
      if_cases (λ s'. Follows wire stack resolver s' t) s.writer_running _ _
        (λ on. inl (writer_step-Refines s.outgoing s t refl on h)) (λ off. inl h)

  -- A run of the stack from this state.
  abbrev Simulated : Bridge → State → Type 0
  Simulated s t =
      (es : List Stack.Event) × Refines wire stack resolver s (Stack.run wire stack resolver es t)

  pub run_keeps-Refines :
      (room : ℕ) (es : List Event) (s : Bridge) (t : State)
      → Refines wire stack resolver s t
      → Simulated (run wire stack resolver room es s) t
  unfolding run Stack.run
  run_keeps-Refines room [] s t h = ([], h)
  run_keeps-Refines room (e ∷ es) s t h = elim (step-Follows room e s t h) [
    | inl still ↦ run_keeps-Refines room es (step wire stack resolver room e s) t still
    | inr (e', moved) ↦
        let (es', h') =
          run_keeps-Refines room es (step wire stack resolver room e s)
            (Stack.step wire stack resolver e' t) moved in
        (e' ∷ es', h')
  ]

  pub run-Refines :
      (room : ℕ) (es : List Event)
      → (es' : List Stack.Event) × Refines wire stack resolver
          (run wire stack resolver room es start)
          (Stack.run wire stack resolver es' spawned)
  run-Refines room es = run_keeps-Refines room es start spawned (record {
    queue = refl;
    sent = refl;
    all = refl;
    reader_open = refl;
    dispatching = refl;
    outgoing_open = refl;
    beacon_on = refl;
    writer_on = inl refl;
    timed = tt;
    ended = λ d. cc;
    answered = tt;
  })
