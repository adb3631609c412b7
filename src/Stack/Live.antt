-- ===== src/Stack/Live.antt =====
-- One step of the tasks of crates/dns-stack/src/lib.rs while they run and the channels are open.
use dns_announce.Shared.{
  ◌==◌, ◌≡◌, ap, ◌∙◌, Bool, true, false, ◌&&◌, List, [], ◌∷◌, ◌++◌, if_true, if_false, found,
  nothing,
}
use dns_announce.Net.{Bytes}
use dns_announce.Dns.{SimpleDns, Resolver}
use dns_announce.Stack.{
  DnsStack, advert, reply, State, arrive, tick, dispatch_round, dispatch, unsolicited, finish_round,
  receive, dispatch_step, beacon_step, step,
}
use dns_announce.Stack.Drain.{dispatch_step_live}

both_on : (a b : Bool) → a ≡ true → b ≡ true → (a && b) ≡ true
both_on true b e f = f
both_on false b e f = e

module _ (wire : SimpleDns) (stack : DnsStack) (resolver : Resolver) where
  pub arrive_live :
      (pkt : Bytes) (t : State)
      → t.incoming_open ≡ true
      → t.dispatcher_running ≡ true
      → step wire stack resolver (arrive pkt) t ≡ record t { incoming = t.incoming ++ (pkt ∷ []) }
  unfolding step
  arrive_live pkt t e f = if_true _ _ _ (both_on _ _ e f)

  pub tick_live :
      (t : State)
      → t.beacon_running ≡ true
      → (stack.ra_cfg.resend_interval == 0) ≡ false
      → t.outgoing_open ≡ true
      → step wire stack resolver tick t
        ≡ record t { sent = t.sent ++ (advert (unsolicited stack) ∷ []) }
  unfolding step beacon_step
  tick_live t e n f = if_true _ _ _ e ∙ if_false _ _ _ n ∙ if_true _ _ _ f

  pub tick_panics :
      (t : State)
      → t.beacon_running ≡ true
      → (stack.ra_cfg.resend_interval == 0) ≡ true
      → step wire stack resolver tick t ≡ record t { beacon_running = false }
  unfolding step beacon_step
  tick_panics t e n = if_true _ _ _ e ∙ if_true _ _ _ n

  -- The loop ends when its channel is empty and closed.
  pub end_live :
      (t : State)
      → t.dispatcher_running ≡ true
      → t.incoming ≡ []
      → t.incoming_open ≡ false
      → step wire stack resolver dispatch_round t ≡ record t { dispatcher_running = false }
  unfolding step dispatch_step receive
  end_live t e f g =
      if_true _ _ _ e ∙ ap (λ q. receive wire stack resolver q t) f ∙ if_false _ _ _ g

  pub round_quiet :
      (pkt : Bytes) (rest : List Bytes) (t : State)
      → t.dispatcher_running ≡ true
      → t.incoming ≡ pkt ∷ rest
      → dispatch wire stack resolver pkt ≡ nothing
      → step wire stack resolver dispatch_round t
        ≡ record t { incoming = rest; handled = t.handled ++ (pkt ∷ []) }
  unfolding step finish_round
  round_quiet pkt rest t e f q =
      dispatch_step_live wire stack resolver pkt rest t f e
      ∙ ap (λ o. finish_round o pkt (record t { incoming = rest })) q

  pub round_replied :
      (pkt packet : Bytes) (rest : List Bytes) (t : State)
      → t.dispatcher_running ≡ true
      → t.outgoing_open ≡ true
      → t.incoming ≡ pkt ∷ rest
      → dispatch wire stack resolver pkt ≡ found packet
      → step wire stack resolver dispatch_round t ≡ record t {
        incoming = rest;
        handled = t.handled ++ (pkt ∷ []);
        sent = t.sent ++ (reply packet ∷ []);
      }
  unfolding step finish_round
  round_replied pkt packet rest t e o f q =
      dispatch_step_live wire stack resolver pkt rest t f e
      ∙ ap (λ o. finish_round o pkt (record t { incoming = rest })) q
      ∙ if_true _ _ _ o
