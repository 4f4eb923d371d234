-- ===== src/Suspend/Progress.antt =====
-- The end of a suspension that is notified, under fair schedules.
use concore2full.Base.{ℕ, ◌+◌, ◌<◌, ◌≡◌, refl, ◌⊎◌, inl, inr, Option, arith, List}
use concore2full.Schedule.{Fair, Fair-Done}
use concore2full.Suspend.{
  Cont, Shared, SuspendPc, check, register, inline_exchange, inline_enqueue, inline_enqueued, offer,
  wait_enqueued, extract, wait_after, leave, own_store, NotifyPc, request, enqueue, enqueued,
  finished, WorkerPc, idle, store_after, State, start, suspend_at, help_at, notify_at, execute_at,
  Agent, step,
}
use concore2full.Suspend.Invariant.{SuspendOk, NotifyOk, WorkerOk, Inv, after, step-Inv, start-Inv}

-- Upper bounds on the accesses that each thread has left.
abbrev suspender_left : SuspendPc → ℕ
suspender_left check = 11
suspender_left register = 10
suspender_left inline_exchange = 9
suspender_left inline_enqueue = 8
suspender_left inline_enqueued = 7
suspender_left offer = 6
suspender_left SuspendPc.exchange = 5
suspender_left wait_enqueued = 4
suspender_left extract = 3
suspender_left wait_after = 2
suspender_left (leave _) = 1
suspender_left own_store = 1
suspender_left (SuspendPc.jump _) = 0

abbrev notifier_left : NotifyPc → ℕ
notifier_left request = 4
notifier_left NotifyPc.exchange = 3
notifier_left enqueue = 2
notifier_left enqueued = 1
notifier_left finished = 0

abbrev worker_left : WorkerPc → ℕ
worker_left idle = 2
worker_left store_after = 1
worker_left (WorkerPc.jump _) = 0

abbrev left : State → ℕ
left s = suspender_left s.suspender + notifier_left s.notifier + worker_left s.worker

-- The suspending thread has left, and the notifier has returned.
pub record Done (s : State) : Type 0 where
  pub target : Option Cont
  pub left_by : s.suspender ≡ SuspendPc.jump target
  pub notified : s.notifier ≡ finished

suspend-move :
    (p : SuspendPc) (s : Shared)
    → (suspend_at p s ≡ (s, p)) ⊎ (suspender_left (suspend_at p s).1 < suspender_left p)
unfolding suspend_at
suspend-move check s = ground arith
suspend-move _ s = ground arith

help-move :
    (p : SuspendPc) (s : Shared)
    → (help_at p s ≡ (s, p)) ⊎ (suspender_left (help_at p s).1 < suspender_left p)
unfolding help_at
help-move offer s = ground arith
help-move _ s = ground arith

notify-move :
    (p : NotifyPc) (s : Shared)
    → (notify_at p s ≡ (s, p)) ⊎ (notifier_left (notify_at p s).1 < notifier_left p)
unfolding notify_at
notify-move request s = ground arith
notify-move _ s = ground arith

execute-move :
    (p : WorkerPc) (s : Shared)
    → (execute_at p s ≡ (s, p)) ⊎ (worker_left (execute_at p s).1 < worker_left p)
unfolding execute_at
execute-move idle s = ground arith
execute-move _ s = ground arith

move : (a : Agent) (s : State) → Inv s → (step a s ≡ s) ⊎ (left (step a s) < left s)
unfolding step
move Agent.suspender s i = elim (suspend-move s.suspender s.shared) [
  | inl e ↦ inl (rw e)
  | inr lt ↦ inr (omega arith)
]
move Agent.helper s i = elim (help-move s.suspender s.shared) [
  | inl e ↦ inl (rw e)
  | inr lt ↦ inr (omega arith)
]
move Agent.notifier s i = elim (notify-move s.notifier s.shared) [
  | inl e ↦ inl (rw e)
  | inr lt ↦ inr (omega arith)
]
move Agent.worker s i = elim (execute-move s.worker s.shared) [
  | inl e ↦ inl (rw e)
  | inr lt ↦ inr (omega arith)
]

-- Unless all is done, a thread that is not waiting makes its next access.
live-at :
    (p : SuspendPc) (w : WorkerPc) (n : NotifyPc) (s : Shared)
    → SuspendOk p s w
    → NotifyOk n s
    → WorkerOk w s
    → ((suspender_left p ≡ 0) × (n ≡ finished))
      ⊎ (suspender_left (suspend_at p s).1 < suspender_left p)
      ⊎ (notifier_left (notify_at n s).1 < notifier_left n)
      ⊎ (worker_left (execute_at w s).1 < worker_left w)
unfolding suspend_at notify_at execute_at
live-at check idle request s a b c = ground arith
live-at _ _ _ s a b c = ground arith

at_jump : (p : SuspendPc) → suspender_left p ≡ 0 → (c : Option Cont) × (p ≡ SuspendPc.jump c)
at_jump (SuspendPc.jump c) e = (c, refl)
at_jump _ e = absurd (omega arith)

live : (s : State) → Inv s → Done s ⊎ ((a : Agent) × (left (step a s) < left s))
unfolding step
live s i = elim (live-at s.suspender s.worker s.notifier s.shared i.suspender i.notifier i.worker) [
  | inl (z, e) ↦
      let (c, at) = at_jump s.suspender z in inl (record { target = c; left_by = at; notified = e })
  | inr (inl lt) ↦ inr (Agent.suspender, omega arith)
  | inr (inr (inl lt)) ↦ inr (Agent.notifier, omega arith)
  | inr (inr (inr lt)) ↦ inr (Agent.worker, omega arith)
]

stays : (a : Agent) (s : State) → Done s → Done (step a s)
unfolding step suspend_at help_at notify_at execute_at
stays Agent.suspender s d = record {
  target = d.target;
  left_by = rw (d.left_by, suspend_at);
  notified = d.notified;
}
stays Agent.helper s d = record {
  target = d.target;
  left_by = rw (d.left_by, help_at);
  notified = d.notified;
}
stays Agent.notifier s d = record {
  target = d.target;
  left_by = d.left_by;
  notified = rw (d.notified, notify_at);
}
stays Agent.worker s d = record { target = d.target; left_by = d.left_by; notified = d.notified }

-- Under every schedule with seventeen windows in which all threads have a turn, the notifier
-- returns and the suspending thread leaves the suspension.
pub suspend-Done : (plan : List Agent) → Fair 17 plan → Done (after plan)
suspend-Done plan fair =
    Fair-Done step Inv step-Inv left Done move live stays fair start start-Inv (omega arith)
