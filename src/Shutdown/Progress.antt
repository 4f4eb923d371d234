-- ===== src/Shutdown/Progress.antt =====
-- That a thread of the pool comes to its end once it is asked to stop, and that the thread which
-- waits for it goes on.
use concore2full.Base.{
  ℕ, ◌+◌, ◌*◌, ◌<◌, ◌≤◌, ◌≡◌, ◌⊎◌, inl, inr, refl, Bool, true, false, arith, List, if◌then◌else◌,
}
use concore2full.Schedule.{run, Fair, circles-Done}
use concore2full.Shutdown.{
  Shared, Pc, check_stop, load_num, prepare, dec_wake, check_sleep, wait, reset, check_again, pop,
  dec_num, running, ended, StopPc, request, notify, token, wait_end, joined, State, work_at,
  stop_at, count_wake, notify_token, Agent, worker, stopper, counting, notifying, step,
}
use concore2full.Shutdown.Invariant.{WorkerOk, StopOk, Inv, step-Inv, after, after-Inv}

-- The most accesses that the thread still makes, once a stop is requested, and the notification that
-- it waits for.
abbrev work_left : Pc → Bool → ℕ
work_left load_num woken = 8
work_left prepare woken = 7
work_left dec_wake woken = 6
work_left check_sleep woken = 5
work_left wait true = 3
work_left wait false = 4
work_left reset woken = 2
work_left pop woken = 4
work_left dec_num woken = 3
work_left running woken = 2
work_left check_again woken = 1
work_left check_stop woken = 1
work_left ended woken = 0

abbrev stop_left : StopPc → ℕ
stop_left request = 4
stop_left notify = 3
stop_left token = 2
stop_left wait_end = 1
stop_left joined = 0

abbrev left : Pc → StopPc → Shared → ℕ
left p q s = 10 * stop_left q + (if s.stop_requested then work_left p s.woken else 9)

abbrev measure : State → ℕ
measure s = left s.worker s.stopper s.shared

-- What the four agents make of the measure.
abbrev work_then : Bool → Pc → StopPc → Shared → ℕ
work_then finds p q s = let r = work_at finds p s in left r.1 q r.0

abbrev stop_then : Pc → StopPc → Shared → ℕ
stop_then p q s = let r = stop_at p q s in left p r.1 r.0

module _ (f g h : Bool) (s : Shared) where
  falls :
      (p : Pc) (q : StopPc)
      → StopOk p q s
      → (work_then f p q s ≤ left p q s)
        × (stop_then p q s ≤ left p q s)
        × (left p q (count_wake h s) ≤ left p q s)
        × (left p q (notify_token s) ≤ left p q s)
  unfolding work_at stop_at count_wake notify_token
  falls check_stop request at = ground arith
  falls _ _ at = ground arith

  lives :
      (p : Pc) (q : StopPc)
      → WorkerOk p q s
      → StopOk p q s
      → ((p ≡ ended) × (q ≡ joined))
        ⊎ (work_then f p q s < left p q s)
        ⊎ (stop_then p q s < left p q s)
        ⊎ (left p q (notify_token s) < left p q s)
  unfolding work_at stop_at notify_token
  lives check_stop request ok at = ground arith
  lives _ _ ok at = ground arith

  -- An agent that can lower the measure still can after another one that keeps it.
  work_persists :
      (p : Pc) (q : StopPc)
      → StopOk p q s
      → work_then f p q s < left p q s
      → (let r = stop_at p q s in
          left p r.1 r.0 ≡ left p q s → work_then g p r.1 r.0 < left p r.1 r.0)
        × (work_then g p q (count_wake h s) < left p q (count_wake h s))
        × (left p q (notify_token s) ≡ left p q s
            → work_then g p q (notify_token s) < left p q (notify_token s))
  unfolding work_at stop_at count_wake notify_token
  work_persists check_stop request at lt = ground arith
  work_persists _ _ at lt = ground arith

  stop_persists :
      (p : Pc) (q : StopPc)
      → StopOk p q s
      → stop_then p q s < left p q s
      → (let r = work_at g p s in
          left r.1 q r.0 ≡ left p q s → stop_then r.1 q r.0 < left r.1 q r.0)
        × (stop_then p q (count_wake h s) < left p q (count_wake h s))
        × (left p q (notify_token s) ≡ left p q s
            → stop_then p q (notify_token s) < left p q (notify_token s))
  unfolding work_at stop_at count_wake notify_token
  stop_persists check_stop request at lt = ground arith
  stop_persists _ _ at lt = ground arith

  notify_persists :
      (p : Pc) (q : StopPc)
      → StopOk p q s
      → left p q (notify_token s) < left p q s
      → (let r = work_at g p s in
          left r.1 q r.0 ≡ left p q s → left r.1 q (notify_token r.0) < left r.1 q r.0)
        × (let r = stop_at p q s in
            left p r.1 r.0 ≡ left p q s → left p r.1 (notify_token r.0) < left p r.1 r.0)
        × (left p q (notify_token (count_wake h s)) < left p q (count_wake h s))
  unfolding work_at stop_at count_wake notify_token
  notify_persists check_stop request at lt = ground arith
  notify_persists _ _ at lt = ground arith

  count_keeps : (p : Pc) (q : StopPc) → left p q (count_wake h s) ≡ left p q s
  unfolding count_wake
  count_keeps p q = ground arith

left_le : (p : Pc) (q : StopPc) (s : Shared) → left p q s ≤ 49
left_le check_stop request s = ground arith
left_le _ _ s = ground arith

abbrev Ended : State → Type 0
Ended s = (s.worker ≡ ended) × (s.stopper ≡ joined)

module _ (finds : ℕ → Bool) where
  step-falls : (a : Agent) (s : State) → Inv s → measure (step finds a s) ≤ measure s
  unfolding step
  step-falls worker s inv = (falls (finds s.tick) true true s.shared s.worker s.stopper inv.1).0
  step-falls stopper s inv = (falls true true true s.shared s.worker s.stopper inv.1).1
  step-falls counting s inv = (falls true true (finds s.tick) s.shared s.worker s.stopper inv.1).2
  step-falls notifying s inv = (falls true true true s.shared s.worker s.stopper inv.1).3

  step-lives :
      (s : State) → Inv s → Ended s ⊎ ((a : Agent) × (measure (step finds a s) < measure s))
  unfolding step
  step-lives s (ok, at) = elim (lives (finds s.tick) true true s.shared s.worker s.stopper ok at) [
    | inl e ↦ inl e
    | inr (inl lt) ↦ inr (worker, lt)
    | inr (inr (inl lt)) ↦ inr (stopper, lt)
    | inr (inr (inr lt)) ↦ inr (notifying, lt)
  ]

  step-persists :
      (a b : Agent) (s : State)
      → Inv s
      → measure (step finds a s) < measure s
      → measure (step finds b s) ≡ measure s
      → (a ≡ b) ⊎ (measure (step finds a (step finds b s)) < measure (step finds b s))
  unfolding step
  step-persists worker worker s inv lt e = inl refl
  step-persists stopper stopper s inv lt e = inl refl
  step-persists notifying notifying s inv lt e = inl refl
  step-persists counting b s inv lt e =
      absurd (omega (arith, count_keeps true true (finds s.tick) s.shared s.worker s.stopper))
  step-persists worker stopper s inv lt e = inr (
      (work_persists (finds s.tick) (finds (s.tick + 1)) (finds s.tick) s.shared s.worker s.stopper
          inv.1 lt).0
        e)
  step-persists worker counting s inv lt e = inr (
      (work_persists (finds s.tick) (finds (s.tick + 1)) (finds s.tick) s.shared s.worker s.stopper
        inv.1 lt).1)
  step-persists worker notifying s inv lt e = inr (
      (work_persists (finds s.tick) (finds (s.tick + 1)) (finds s.tick) s.shared s.worker s.stopper
          inv.1 lt).2
        e)
  step-persists stopper worker s inv lt e =
      inr (
        (stop_persists true (finds s.tick) (finds s.tick) s.shared s.worker s.stopper inv.1 lt).0 e)
  step-persists stopper counting s inv lt e =
      inr
        ((stop_persists true (finds s.tick) (finds s.tick) s.shared s.worker s.stopper inv.1 lt).1)
  step-persists stopper notifying s inv lt e =
      inr (
        (stop_persists true (finds s.tick) (finds s.tick) s.shared s.worker s.stopper inv.1 lt).2 e)
  step-persists notifying worker s inv lt e = inr (
      (notify_persists true (finds s.tick) (finds s.tick) s.shared s.worker s.stopper inv.1 lt).0 e)
  step-persists notifying stopper s inv lt e = inr (
      (notify_persists true (finds s.tick) (finds s.tick) s.shared s.worker s.stopper inv.1 lt).1 e)
  step-persists notifying counting s inv lt e =
      inr (
        (notify_persists true (finds s.tick) (finds s.tick) s.shared s.worker s.stopper inv.1 lt).2)

  step-Ended : (a : Agent) (s : State) → Ended s → Ended (step finds a s)
  unfolding step work_at stop_at
  step-Ended worker s (e, j) = (rw e refl, j)
  step-Ended stopper s (e, j) = (e, rw (e, j) refl)
  step-Ended counting s e = e
  step-Ended notifying s e = e

  -- Whatever the threads do first, whatever the thread finds on the lines, and however often other
  -- threads notify it, also where `wake_requests_` wraps around: under every further schedule with
  -- 49 windows in which each agent has a turn, the thread of the pool ends, and the thread that has
  -- requested the stop goes on.
  pub join-Ended :
      (plan rest : List Agent)
      → Fair 49 rest
      → let s = run (step finds) rest (after finds plan) in
        (s.worker ≡ ended) × (s.stopper ≡ joined)
  join-Ended plan rest fair =
      let s = after finds plan in
      circles-Done (step finds) Inv (step-Inv finds) measure Ended step-falls step-lives
        step-persists step-Ended fair s (after-Inv finds plan) (left_le s.worker s.stopper s.shared)
