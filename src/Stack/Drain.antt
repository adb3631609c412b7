-- ===== src/Stack/Drain.antt =====
-- The dispatcher's queue in crates/dns-stack/src/lib.rs: order, loss, progress and shutdown.
use dns_announce.Shared.{
  ◌==◌, ℕ, zero, suc, ◌≡◌, refl, ap, sym, ◌∙◌, ◌⊎◌, inl, inr, ◌≢◌, Bool, ◌&&◌, true, false, List,
  [], ◌∷◌, ◌++◌, arith, append_assoc, append-nil, if◌then◌else◌, Outcome, found, nothing, panicked,
  Bool-cases, length, if_cases,
}
use mathlib.Core.Bool.{false≢true}
use dns_announce.Net.{Bytes}
use dns_announce.Dns.{SimpleDns, Resolver}
use dns_announce.Stack.{
  DnsStack, Sent, State, Event, arrive, close_incoming, drop_outgoing, tick, dispatch_round,
  spawned, dispatch, finish_round, receive, dispatch_step, beacon_step, step, run,
}
use dns_announce.Stack.Dispatch.{dispatch-ne-panicked}

-- What an event puts into the incoming channel.
abbrev accepted : Event → State → List Bytes
accepted (arrive pkt) s = if s.incoming_open && s.dispatcher_running then pkt ∷ [] else []
accepted _ s = []

-- Every arrival is handled, in order, or still waits, but for at most one packet, whose reply could
-- not be sent; then the dispatcher has ended.
pub record Accounts (arrived : List Bytes) (s : State) : Type 0 where
  pub lost : List Bytes
  pub all : arrived ≡ s.handled ++ (lost ++ s.incoming)
  pub at_most_one : (lost ≡ []) ⊎ ((length lost ≡ 1) × (s.dispatcher_running ≡ false))

module _ (wire : SimpleDns) (stack : DnsStack) (resolver : Resolver) where
  pub arrivals : List Event → State → List Bytes
  arrivals [] s = []
  arrivals (e ∷ es) s = accepted e s ++ arrivals es (step wire stack resolver e s)

  finish_round-Accounts :
      (o : Outcome Bytes) (pkt : Bytes) (s : State) (arrived : List Bytes)
      → arrived ≡ s.handled ++ (pkt ∷ s.incoming)
      → Accounts arrived (finish_round o pkt s)
  unfolding finish_round
  finish_round-Accounts nothing pkt s arrived e = record {
    lost = [];
    all = e ∙ sym (append_assoc s.handled (pkt ∷ []) s.incoming);
    at_most_one = inl refl;
  }
  finish_round-Accounts panicked pkt s arrived e = record {
    lost = pkt ∷ [];
    all = e;
    at_most_one = inr (refl, refl);
  }
  finish_round-Accounts (found b) pkt s arrived e = elim (Bool-cases s.outgoing_open) [
    | inl live ↦ rw live (record {
      lost = [];
      all = e ∙ sym (append_assoc s.handled (pkt ∷ []) s.incoming);
      at_most_one = inl refl;
    })
    | inr closed ↦ rw closed (record { lost = pkt ∷ []; all = e; at_most_one = inr (refl, refl) })
  ]

  receive-Accounts :
      (queue : List Bytes) (s : State) (arrived : List Bytes)
      → s.incoming ≡ queue
      → s.dispatcher_running ≡ true
      → Accounts arrived s
      → Accounts arrived (receive wire stack resolver queue s)
  unfolding receive
  receive-Accounts [] s arrived q running h =
      if_cases (Accounts arrived) s.incoming_open _ _ (λ _. h)
        (λ _. record { lost = h.lost; all = h.all; at_most_one = stopped h.at_most_one })
    where
      stopped :
          (h.lost ≡ []) ⊎ ((length h.lost ≡ 1) × (s.dispatcher_running ≡ false))
          → (h.lost ≡ []) ⊎ ((length h.lost ≡ 1) × (◌≡◌ {A = Bool} false false))
      stopped (inl e) = inl e
      stopped (inr (e, _)) = inr (e, refl)
  receive-Accounts (pkt ∷ rest) s arrived q running h =
      finish_round-Accounts (dispatch wire stack resolver pkt) pkt (record s { incoming = rest })
        arrived whole
    where
      none_lost : h.lost ≡ []
      none_lost = elim h.at_most_one [
        | inl e ↦ e
        | inr (_, stopped) ↦ absurd (false≢true (sym stopped ∙ running))
      ]

      whole : arrived ≡ s.handled ++ (pkt ∷ rest)
      whole = h.all ∙ rw (none_lost, q) refl

  beacon_step-Accounts :
      (s : State) (arrived : List Bytes)
      → Accounts arrived s
      → Accounts arrived (beacon_step stack s)
  unfolding beacon_step
  beacon_step-Accounts s arrived h =
      if_cases (Accounts arrived) s.beacon_running _ _
        (λ _.
          if_cases (Accounts arrived) (stack.ra_cfg.resend_interval == 0) _ _ (λ _. same)
            (λ _. if_cases (Accounts arrived) s.outgoing_open _ _ (λ _. same) (λ _. same)))
        (λ _. h)
    where
      same :
          {sent : List Sent} {on : Bool}
          → Accounts arrived (record s { sent = sent; beacon_running = on })
      same = record { lost = h.lost; all = h.all; at_most_one = h.at_most_one }

  step-Accounts :
      (e : Event) (s : State) (arrived : List Bytes)
      → Accounts arrived s
      → Accounts (arrived ++ accepted e s) (step wire stack resolver e s)
  unfolding step dispatch_step
  step-Accounts (arrive pkt) s arrived h =
      elim (Bool-cases (s.incoming_open && s.dispatcher_running)) [
        | inl live ↦ rw live (record {
          lost = h.lost;
          all =
              ap (λ (l : List Bytes). l ++ (pkt ∷ [])) h.all ∙ rw (append_assoc, append_assoc) refl;
          at_most_one = h.at_most_one;
        })
        | inr closed ↦
            rw (closed, append-nil)
              (record { lost = h.lost; all = h.all; at_most_one = h.at_most_one })
      ]
  step-Accounts close_incoming s arrived h =
      rw append-nil (record { lost = h.lost; all = h.all; at_most_one = h.at_most_one })
  step-Accounts drop_outgoing s arrived h =
      rw append-nil (record { lost = h.lost; all = h.all; at_most_one = h.at_most_one })
  step-Accounts tick s arrived h = rw append-nil (beacon_step-Accounts s arrived h)
  step-Accounts dispatch_round s arrived h = rw append-nil (
      if_cases (Accounts arrived) s.dispatcher_running _ _
        (λ running. receive-Accounts s.incoming s arrived refl running h) (λ _. h))

  run_keeps-Accounts :
      (es : List Event) (s : State) (arrived : List Bytes)
      → Accounts arrived s
      → Accounts (arrived ++ arrivals es s) (run wire stack resolver es s)
  unfolding run arrivals
  run_keeps-Accounts [] s arrived h = rw append-nil h
  run_keeps-Accounts (e ∷ es) s arrived h = rw append_assoc at (
      run_keeps-Accounts es (step wire stack resolver e s) (arrived ++ accepted e s)
        (step-Accounts e s arrived h))

  -- Under every schedule from the start, each packet that the incoming channel took is handled, in
  -- the order of arrival, or still waits in it, but for at most one whose round did not finish,
  -- after which the dispatcher has ended.
  pub run-Accounts :
      (es : List Event) → Accounts (arrivals es spawned) (run wire stack resolver es spawned)
  run-Accounts es =
      run_keeps-Accounts es spawned [] (record { lost = []; all = refl; at_most_one = inl refl })

  -- `n` rounds of the dispatcher.
  pub rounds : ℕ → State → State
  rounds zero s = s
  rounds (suc n) s = rounds n (dispatch_step wire stack resolver s)

  finish_live :
      (o : Outcome Bytes) (pkt : Bytes) (s : State)
      → o ≢ panicked
      → s.outgoing_open ≡ true
      → ((finish_round o pkt s).handled ≡ s.handled ++ (pkt ∷ []))
        × ((finish_round o pkt s).incoming ≡ s.incoming)
        × ((finish_round o pkt s).outgoing_open ≡ true)
        × ((finish_round o pkt s).dispatcher_running ≡ s.dispatcher_running)
  unfolding finish_round
  finish_live nothing pkt s h live = (refl, refl, live, refl)
  finish_live panicked pkt s h live = absurd (h refl)
  finish_live (found b) pkt s h live = ground arith

  pub dispatch_step_live :
      (pkt : Bytes) (rest : List Bytes) (s : State)
      → s.incoming ≡ pkt ∷ rest
      → s.dispatcher_running ≡ true
      → dispatch_step wire stack resolver s
        ≡ finish_round (dispatch wire stack resolver pkt) pkt (record s { incoming = rest })
  unfolding dispatch_step receive
  dispatch_step_live pkt rest s q running = simp (running, q)

  -- While the outgoing channel has its receiver, a running dispatcher handles everything that
  -- waits, in order, in as many rounds as there are packets, and goes on running with nothing left
  -- waiting.
  pub rounds-handle :
      (queue : List Bytes) (s : State)
      → s.incoming ≡ queue
      → s.dispatcher_running ≡ true
      → s.outgoing_open ≡ true
      → ((rounds (length queue) s).handled ≡ s.handled ++ queue)
        × ((rounds (length queue) s).incoming ≡ [])
        × ((rounds (length queue) s).dispatcher_running ≡ true)
  unfolding rounds
  rounds-handle [] s q running live = (sym (append-nil s.handled), q, running)
  rounds-handle (pkt ∷ rest) s q running live =
      let one =
        finish_live (dispatch wire stack resolver pkt) pkt (record s { incoming = rest })
          (dispatch-ne-panicked wire stack resolver pkt) live in
      let e = dispatch_step_live pkt rest s q running in
      let later =
        rounds-handle rest (dispatch_step wire stack resolver s)
          (ap (λ (t : State). t.incoming) e ∙ one.1)
          (ap (λ (t : State). t.dispatcher_running) e ∙ one.3 ∙ running)
          (ap (λ (t : State). t.outgoing_open) e ∙ one.2) in
      let handled = ap (λ (t : State). t.handled) e ∙ one.0 in
      (
        later.0
            ∙ ap (λ (l : List Bytes). l ++ rest) handled
            ∙ append_assoc s.handled (pkt ∷ []) rest,
        later.1,
        later.2,
      )

  abbrev IsSilent : List Sent → State → Type 0
  IsSilent sent s = (s.sent ≡ sent) × (s.outgoing_open ≡ false)

  finish_closed :
      (o : Outcome Bytes) (pkt : Bytes) (s : State)
      → s.outgoing_open ≡ false
      → IsSilent s.sent (finish_round o pkt s)
  unfolding finish_round
  finish_closed nothing pkt s h = (refl, h)
  finish_closed panicked pkt s h = (refl, h)
  finish_closed (found b) pkt s h = ground arith

  receive_closed :
      (queue : List Bytes) (s : State)
      → s.outgoing_open ≡ false
      → IsSilent s.sent (receive wire stack resolver queue s)
  unfolding receive
  receive_closed [] s h =
      if_cases (IsSilent s.sent) s.incoming_open _ _ (λ _. (refl, h)) (λ _. (refl, h))
  receive_closed (pkt ∷ rest) s h =
      finish_closed (dispatch wire stack resolver pkt) pkt (record s { incoming = rest }) h

  step_closed :
      (e : Event) (s : State)
      → s.outgoing_open ≡ false
      → IsSilent s.sent (step wire stack resolver e s)
  unfolding step dispatch_step beacon_step
  step_closed (arrive pkt) s h =
      if_cases (IsSilent s.sent) (s.incoming_open && s.dispatcher_running) _ _ (λ _. (refl, h))
        (λ _. (refl, h))
  step_closed close_incoming s h = (refl, h)
  step_closed drop_outgoing s h = (refl, refl)
  step_closed tick s h = ground arith
  step_closed dispatch_round s h =
      if_cases (IsSilent s.sent) s.dispatcher_running _ _ (λ _. receive_closed s.incoming s h)
        (λ _. (refl, h))

  -- Once the receiver of the outgoing channel is gone nothing more is sent, whatever happens next,
  -- and the channel stays closed.
  pub run_closed :
      (es : List Event) (s : State)
      → s.outgoing_open ≡ false
      → ((run wire stack resolver es s).sent ≡ s.sent)
        × ((run wire stack resolver es s).outgoing_open ≡ false)
  unfolding run
  run_closed [] s h = (refl, h)
  run_closed (e ∷ es) s h =
      let now = step_closed e s h in
      let later = run_closed es (step wire stack resolver e s) now.1 in (later.0 ∙ now.0, later.1)
