-- ===== src/Stack/Schedule.antt =====
-- The two tasks of crates/dns-stack/src/lib.rs under every schedule: what may stand on the outgoing
-- channel, and what becomes of the packets that arrive.
use dns_announce.Shared.{
  ◌==◌, ◌≡◌, refl, ap, sym, ◌∙◌, inl, inr, ◌&&◌, List, [], ◌∷◌, ◌++◌, append_assoc, append-nil,
  Outcome, found, nothing, panicked, Bool-cases, if_cases,
}
use dns_announce.Net.{Bytes}
use dns_announce.Dns.{SimpleDns, Resolver}
use dns_announce.Stack.{
  DnsStack, Sent, advert, reply, State, Event, arrive, close_incoming, drop_outgoing, tick,
  dispatch_round, spawned, dispatch, finish_round, receive, dispatch_step, unsolicited, beacon_step,
  step, run,
}

-- The dispatcher's packets among those sent, in order.
unfoldable pub replies : List Sent → List Bytes
replies [] = []
replies (advert b ∷ sent) = replies sent
replies (reply b ∷ sent) = b ∷ replies sent

unfoldable pub adverts : List Sent → List Bytes
adverts [] = []
adverts (advert b ∷ sent) = b ∷ adverts sent
adverts (reply b ∷ sent) = adverts sent

pub replies-append : (xs ys : List Sent) → replies (xs ++ ys) ≡ replies xs ++ replies ys
unfolding replies
replies-append [] ys = refl
replies-append (advert b ∷ xs) ys = replies-append xs ys
replies-append (reply b ∷ xs) ys = ap (◌∷◌ b) (replies-append xs ys)

abbrev pub outcome_list : Outcome Bytes → List Bytes
outcome_list (found b) = b ∷ []
outcome_list nothing = []
outcome_list panicked = []

abbrev pub AllEqual : Bytes → List Bytes → Type 0
AllEqual b [] = Unit {0}
AllEqual b (x ∷ xs) = (x ≡ b) × AllEqual b xs

pub adverts_before :
    (b : Bytes) (xs ys : List Sent) → AllEqual b (adverts (xs ++ ys)) → AllEqual b (adverts xs)
unfolding adverts
adverts_before b [] ys h = tt
adverts_before b (advert x ∷ xs) ys h = (h.0, adverts_before b xs ys h.1)
adverts_before b (reply x ∷ xs) ys h = adverts_before b xs ys h

adverts_grow :
    (b : Bytes) (sent : List Sent) (x : Sent)
    → AllEqual b (adverts sent)
    → AllEqual b (adverts (x ∷ []))
    → AllEqual b (adverts (sent ++ (x ∷ [])))
unfolding adverts
adverts_grow b [] x h k = k
adverts_grow b (advert y ∷ sent) x h k = (h.0, adverts_grow b sent x h.1 k)
adverts_grow b (reply y ∷ sent) x h k = adverts_grow b sent x h k

module _ (wire : SimpleDns) (stack : DnsStack) (resolver : Resolver) where
  -- What the dispatcher sends for a list of packets.
  unfoldable pub dispatched : List Bytes → List Bytes
  dispatched [] = []
  dispatched (pkt ∷ pkts) = outcome_list (dispatch wire stack resolver pkt) ++ dispatched pkts

  pub dispatched-append :
      (xs ys : List Bytes) → dispatched (xs ++ ys) ≡ dispatched xs ++ dispatched ys
  unfolding dispatched
  dispatched-append [] ys = refl
  dispatched-append (x ∷ xs) ys =
      ap (◌++◌ (outcome_list (dispatch wire stack resolver x))) (dispatched-append xs ys)
      ∙ sym (
          append_assoc (outcome_list (dispatch wire stack resolver x)) (dispatched xs)
            (dispatched ys))

  -- The replies on the channel are those to the handled packets, in order, and each advertisement is
  -- the unsolicited one.
  pub record IsSound (s : State) : Type 0 where
    pub replies_are : replies s.sent ≡ dispatched s.handled
    pub adverts_are : AllEqual (unsolicited stack) (adverts s.sent)

  dispatched_one :
      (pkts : List Bytes) (pkt : Bytes) (o : Outcome Bytes)
      → dispatch wire stack resolver pkt ≡ o
      → dispatched (pkts ++ (pkt ∷ [])) ≡ dispatched pkts ++ outcome_list o
  unfolding dispatched
  dispatched_one pkts pkt o e = dispatched-append pkts (pkt ∷ []) ∙ rw (e, append-nil) refl

  finish_round-IsSound :
      (o : Outcome Bytes) (pkt : Bytes) (s : State)
      → dispatch wire stack resolver pkt ≡ o
      → IsSound s
      → IsSound (finish_round o pkt s)
  unfolding finish_round replies adverts
  finish_round-IsSound nothing pkt s e h = record {
    replies_are = h.replies_are ∙ sym (dispatched_one s.handled pkt nothing e ∙ append-nil _);
    adverts_are = h.adverts_are;
  }
  finish_round-IsSound panicked pkt s e h = record {
    replies_are = h.replies_are;
    adverts_are = h.adverts_are;
  }
  finish_round-IsSound (found b) pkt s e h = elim (Bool-cases s.outgoing_open) [
    | inr closed ↦ rw closed (record { replies_are = h.replies_are; adverts_are = h.adverts_are })
    | inl live ↦ rw live (record {
      replies_are =
          replies-append s.sent (reply b ∷ [])
          ∙ ap (λ (l : List Bytes). l ++ (b ∷ [])) h.replies_are
          ∙ sym (dispatched_one s.handled pkt (found b) e);
      adverts_are = adverts_grow (unsolicited stack) s.sent (reply b) h.adverts_are tt;
    })
  ]

  receive-IsSound :
      (queue : List Bytes) (s : State) → IsSound s → IsSound (receive wire stack resolver queue s)
  unfolding receive
  receive-IsSound [] s h = elim (Bool-cases s.incoming_open) [
    | inl live ↦ rw live (record { replies_are = h.replies_are; adverts_are = h.adverts_are })
    | inr closed ↦ rw closed (record { replies_are = h.replies_are; adverts_are = h.adverts_are })
  ]
  receive-IsSound (pkt ∷ rest) s h =
      finish_round-IsSound _ pkt (record s { incoming = rest }) refl
        (record { replies_are = h.replies_are; adverts_are = h.adverts_are })

  beacon_step-IsSound : (s : State) → IsSound s → IsSound (beacon_step stack s)
  unfolding beacon_step replies adverts
  beacon_step-IsSound s h = elim (Bool-cases s.beacon_running) [
    | inr stopped ↦ rw stopped (record { replies_are = h.replies_are; adverts_are = h.adverts_are })
    | inl running ↦ elim (Bool-cases (stack.ra_cfg.resend_interval == 0)) [
      | inl zero' ↦
          rw (running, zero') (record { replies_are = h.replies_are; adverts_are = h.adverts_are })
      | inr timed ↦ elim (Bool-cases s.outgoing_open) [
        | inr closed ↦
            rw (running, timed, closed)
              (record { replies_are = h.replies_are; adverts_are = h.adverts_are })
        | inl live ↦
            rw (running, timed, live)
              (record {
                replies_are =
                    replies-append s.sent (advert (unsolicited stack) ∷ [])
                    ∙ append-nil _
                    ∙ h.replies_are;
                adverts_are =
                    adverts_grow (unsolicited stack) s.sent (advert (unsolicited stack))
                      h.adverts_are (refl, tt);
              })
      ]
    ]
  ]

  step-IsSound : (e : Event) (s : State) → IsSound s → IsSound (step wire stack resolver e s)
  unfolding step dispatch_step
  step-IsSound (arrive pkt) s h = elim (Bool-cases (s.incoming_open && s.dispatcher_running)) [
    | inl live ↦ rw live (record { replies_are = h.replies_are; adverts_are = h.adverts_are })
    | inr closed ↦ rw closed (record { replies_are = h.replies_are; adverts_are = h.adverts_are })
  ]
  step-IsSound close_incoming s h = record {
    replies_are = h.replies_are;
    adverts_are = h.adverts_are;
  }
  step-IsSound drop_outgoing s h = record {
    replies_are = h.replies_are;
    adverts_are = h.adverts_are;
  }
  step-IsSound tick s h = beacon_step-IsSound s h
  step-IsSound dispatch_round s h =
      if_cases IsSound s.dispatcher_running _ _ (λ _. receive-IsSound s.incoming s h) (λ _. h)

  run_keeps-IsSound :
      (es : List Event) (s : State) → IsSound s → IsSound (run wire stack resolver es s)
  unfolding run
  run_keeps-IsSound [] s h = h
  run_keeps-IsSound (e ∷ es) s h = run_keeps-IsSound es _ (step-IsSound e s h)

  -- Under every schedule from the start, the replies on the channel are those to the handled
  -- packets, in order, and each advertisement of the beacon is the unsolicited one.
  pub run-IsSound : (es : List Event) → IsSound (run wire stack resolver es spawned)
  unfolding dispatched replies adverts
  run-IsSound es = run_keeps-IsSound es spawned (record { replies_are = refl; adverts_are = tt })
