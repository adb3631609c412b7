-- ===== src/Bridge/Fair.antt =====
-- Progress of crates/dns-stack/examples/basic.rs under a fair scheduler: the tasks never wait for each
-- other in a circle.
use mathlib.Core.Path.{subst}
use dns_announce.Shared.{
  ℕ, ◌≤◌, ◌<◌, ◌≡◌, refl, sym, ap, ◌∙◌, ◌⊎◌, inl, inr, List, [], ◌∷◌, ◌++◌, length, arith, All,
}
use dns_announce.Dns.{SimpleDns, Resolver}
use dns_announce.Stack.{DnsStack, State}
use dns_announce.Bridge.{Bridge, Event, step, run}
use dns_announce.Bridge.Shows.{Refines}
use dns_announce.Bridge.Refines.{run_keeps-Refines}
use dns_announce.Bridge.Answers.{unanswered}
use dns_announce.Bridge.Work.{
  Task, reader_task, dispatcher_task, writer_task, turn, work, IsLive, Waits, turn-Works,
}

-- The task has a turn among these.
abbrev pub HasTurn : Task → List Task → Type 0
HasTurn t [] = ⊥
HasTurn t (x ∷ xs) = (t ≡ x) ⊎ HasTurn t xs

-- Every task has a turn, in any order and any number of times.
abbrev pub IsFair : List Task → Type 0
IsFair ts = (t : Task) → HasTurn t ts

unfoldable pub turns : List Task → List Event
turns [] = []
turns (t ∷ ts) = turn t ∷ turns ts

-- One stretch of turns after the other.
unfoldable pub all_turns : List (List Task) → List Event
all_turns [] = []
all_turns (ts ∷ rest) = turns ts ++ all_turns rest

module _ (wire : SimpleDns) (stack : DnsStack) (resolver : Resolver) (room : ℕ) where
  pub run-append :
      (es es' : List Event) (s : Bridge)
      → run wire stack resolver room (es ++ es') s
        ≡ run wire stack resolver room es' (run wire stack resolver room es s)
  unfolding run
  run-append [] es' s = refl
  run-append (e ∷ es) es' s = run-append es es' (step wire stack resolver room e s)

  Refines-IsLive : (s : Bridge) (t : State) → Refines wire stack resolver s t → IsLive s
  Refines-IsLive s t h = record { writer_on = h.writer_on; ended = λ d. (h.ended d).1 }

  -- A turn of the task does nothing, because it waits.
  abbrev Stuck : Task → Bridge → Type 0
  Stuck t s = (step wire stack resolver room (turn t) s ≡ s) × Waits room t s

  skipped :
      (ts : List Task) {s s' : Bridge}
      → s' ≡ s
      → run wire stack resolver room (turns ts) s' ≡ run wire stack resolver room (turns ts) s
  skipped ts e = ap (run wire stack resolver room (turns ts)) e

  -- Turns do some work, or none of their tasks can.
  turns-work :
      (ts : List Task) (s : Bridge) (t : State)
      → Refines wire stack resolver s t
      → (work (run wire stack resolver room (turns ts) s) < work s)
        ⊎ ((run wire stack resolver room (turns ts) s ≡ s)
            × ((x : Task) → HasTurn x ts → Stuck x s))
  unfolding run turns
  turns-work [] s t h = inr (refl, λ x m. absurd m)
  turns-work (y ∷ ts) s t h =
      let s1 = step wire stack resolver room (turn y) s in
      let (es, h1) = run_keeps-Refines wire stack resolver room (turn y ∷ []) s t h in
      elim (turn-Works room wire stack resolver y s (Refines-IsLive s t h)) [
        | inl less ↦ elim (turns-work ts s1 _ h1) [
          | inl less' ↦ inl (omega (arith, less, less'))
          | inr (same, _) ↦ inl (omega (arith, less, ap work same))
        ]
        | inr (same, waits) ↦ elim (turns-work ts s t h) [
          | inl less ↦ inl (omega (arith, less, ap work (skipped ts same)))
          | inr (same', stuck) ↦ inr (
            skipped ts same ∙ same',
            λ x m. elim m [
              | inl e ↦ subst (λ z. Stuck z s) (sym e) (same, waits)
              | inr k ↦ stuck x k
            ],
          )
        ]
      ]

  stays :
      (ts : List Task) (s : Bridge)
      → ((x : Task) → Stuck x s)
      → run wire stack resolver room (turns ts) s ≡ s
  unfolding run turns
  stays [] s stuck = refl
  stays (x ∷ ts) s stuck = skipped ts (stuck x).0 ∙ stays ts s stuck

  all_stay :
      (blocks : List (List Task)) (s : Bridge)
      → ((x : Task) → Stuck x s)
      → run wire stack resolver room (all_turns blocks) s ≡ s
  unfolding run all_turns
  all_stay [] s stuck = refl
  all_stay (ts ∷ blocks) s stuck =
      run-append (turns ts) (all_turns blocks) s
      ∙ ap (run wire stack resolver room (all_turns blocks)) (stays ts s stuck)
      ∙ all_stay blocks s stuck

  -- Nothing waits on a channel to the device or for an answer.
  abbrev pub IsDone : Bridge → Type 0
  IsDone s = (s.outgoing ≡ []) × (unanswered wire stack resolver s ≡ [])

  Stuck-IsDone : (s : Bridge) → 0 < room → ((x : Task) → Stuck x s) → IsDone s
  Stuck-IsDone s r stuck = (out, answered (stuck dispatcher_task).1 (stuck reader_task).1)
    where
      out : s.outgoing ≡ []
      out = (stuck writer_task).1

      answered :
          Waits room dispatcher_task s
          → Waits room reader_task s
          → unanswered wire stack resolver s ≡ []
      answered (inr full) w = absurd (no_room (ap length out) full)
        where
          no_room : length s.outgoing ≡ 0 → room ≤ length s.outgoing → ⊥
          no_room e f = omega arith
      answered (inl (p, i)) (inl x) = rw (p, i, x) refl
      answered (inl (p, i)) (inr full) = absurd (no_room (ap length i) full)
        where
          no_room : length s.incoming ≡ 0 → room ≤ length s.incoming → ⊥
          no_room e f = omega arith

  pub settled :
      (blocks : List (List Task)) (s : Bridge) (t : State)
      → 0 < room
      → Refines wire stack resolver s t
      → All IsFair blocks
      → work s < length blocks
      → IsDone (run wire stack resolver room (all_turns blocks) s)
  unfolding all_turns run
  settled [] s t r h fair k = absurd (omega (arith, k))
  settled (ts ∷ blocks) s t r h fair k =
      let s1 = run wire stack resolver room (turns ts) s in
      let (es, h1) = run_keeps-Refines wire stack resolver room (turns ts) s t h in
      rw (run-append (turns ts) (all_turns blocks) s) (elim (turns-work ts s t h) [
        | inl less ↦ settled blocks s1 _ r h1 fair.1 (omega (arith, less, k))
        | inr (same, stuck) ↦
            let all_stuck : (x : Task) → Stuck x s = λ x. stuck x (fair.0 x) in
            rw (same, all_stay blocks s all_stuck) (Stuck-IsDone s r all_stuck)
      ])
