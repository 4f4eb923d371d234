-- ===== src/Shutdown/Invariant.antt =====
-- Why a stop request reaches a thread that is about to sleep: the invariant, and that every access
-- keeps it. It does not need that `wake_requests_` stays in its bounds.
use concore2full.Base.{ℕ, ◌<◌, ◌≡◌, ◌⊎◌, refl, Bool, true, false, arith, List}
use concore2full.Schedule.{run, run-keeps}
use concore2full.Shutdown.{
  Shared, Pc, check_stop, check_sleep, wait, ended, StopPc, request, notify, token, joined, State,
  work_at, stop_at, count_wake, notify_token, Agent, worker, stopper, counting, notifying, step,
  start,
}

-- The stopping thread has counted its notification.
abbrev pub counted : StopPc → Bool
counted request = false
counted notify = false
counted _ = true

-- A thread is about to notify the token.
abbrev pub TokenLeft : StopPc → Shared → Type 0
TokenLeft q s = (q ≡ token) ⊎ (0 < s.pending)

-- The next notification that is counted wakes up the thread, or one that was counted does.
abbrev pub Reached : StopPc → Shared → Type 0
Reached q s = ((s.wake_requests ≡ 0) × (counted q ≡ false)) ⊎ (s.woken ≡ true) ⊎ TokenLeft q s

abbrev pub WorkerOk : Pc → StopPc → Shared → Type 0
WorkerOk check_sleep q s = (counted q ≡ true) ⊎ Reached q s
WorkerOk wait q s = Reached q s
WorkerOk _ q s = Unit

abbrev pub StopOk : Pc → StopPc → Shared → Type 0
StopOk p request s = s.stop_requested ≡ false
StopOk p joined s = (s.stop_requested ≡ true) × (p ≡ ended)
StopOk p _ s = s.stop_requested ≡ true

abbrev pub Inv : State → Type 0
Inv s = WorkerOk s.worker s.stopper s.shared × StopOk s.worker s.stopper s.shared

work_at-Ok :
    (finds : Bool) (p : Pc) (q : StopPc) (s : Shared)
    → WorkerOk p q s
    → StopOk p q s
    → let r = work_at finds p s in WorkerOk r.1 q r.0 × StopOk r.1 q r.0
unfolding work_at
work_at-Ok finds check_stop request s ok at = ground arith
work_at-Ok finds _ _ s ok at = ground arith

stop_at-Ok :
    (p : Pc) (q : StopPc) (s : Shared)
    → WorkerOk p q s
    → StopOk p q s
    → let r = stop_at p q s in WorkerOk p r.1 r.0 × StopOk p r.1 r.0
unfolding stop_at
stop_at-Ok check_stop request s ok at = ground arith
stop_at-Ok _ _ s ok at = ground arith

count_wake-Ok :
    (some_thread : Bool) (p : Pc) (q : StopPc) (s : Shared)
    → WorkerOk p q s
    → StopOk p q s
    → WorkerOk p q (count_wake some_thread s) × StopOk p q (count_wake some_thread s)
unfolding count_wake
count_wake-Ok some_thread check_stop request s ok at = ground arith
count_wake-Ok some_thread _ _ s ok at = ground arith

notify_token-Ok :
    (p : Pc) (q : StopPc) (s : Shared)
    → WorkerOk p q s
    → StopOk p q s
    → WorkerOk p q (notify_token s) × StopOk p q (notify_token s)
unfolding notify_token
notify_token-Ok check_stop request s ok at = ground arith
notify_token-Ok _ _ s ok at = ground arith

module _ (finds : ℕ → Bool) where
  pub step-Inv : (a : Agent) (s : State) → Inv s → Inv (step finds a s)
  unfolding step
  step-Inv worker s (ok, at) = work_at-Ok (finds s.tick) s.worker s.stopper s.shared ok at
  step-Inv stopper s (ok, at) = stop_at-Ok s.worker s.stopper s.shared ok at
  step-Inv counting s (ok, at) = count_wake-Ok (finds s.tick) s.worker s.stopper s.shared ok at
  step-Inv notifying s (ok, at) = notify_token-Ok s.worker s.stopper s.shared ok at

  -- The states that can be reached.
  abbrev pub after : List Agent → State
  after plan = run (step finds) plan start

  pub after-Inv : (plan : List Agent) → Inv (after plan)
  after-Inv plan = run-keeps (step finds) Inv step-Inv plan start (tt, refl)
