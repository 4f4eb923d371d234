-- ===== src/Suspend/Invariant.antt =====
-- What holds at each place where the threads of a suspension can stand.
use concore2full.Base.{◌≡◌, refl, ◌≢◌, ◌⊎◌, true, false, Option, none, some, arith, List}
use concore2full.Schedule.{run, run-keeps}
use concore2full.Suspend.{
  TaskState, initial_state, task_enqueuing, task_enqueued, task_not_needed, Place, absent, queued,
  popped, Cont, after_suspend, task_cont, Shared, SuspendPc, check, register, inline_exchange,
  inline_enqueue, inline_enqueued, offer, wait_enqueued, extract, wait_after, leave, own_store,
  NotifyPc, request, enqueue, enqueued, finished, WorkerPc, idle, store_after, State, start,
  suspend_at, help_at, notify_at, execute_at, Agent, step,
}

-- The task, as long as the suspending thread does not run it itself.
abbrev pub Queued : Place → WorkerPc → Type 0
Queued p w = ((p ≡ queued) × (w ≡ idle)) ⊎ ((p ≡ popped) × (w ≢ idle))

abbrev pub TaskOk : TaskState → Place → WorkerPc → Type 0
TaskOk initial_state p w = (p ≡ absent) × (w ≡ idle)
TaskOk task_not_needed p w = (p ≡ absent) × (w ≡ idle)
TaskOk task_enqueuing p w = ((p ≡ absent) × (w ≡ idle)) ⊎ Queued p w
TaskOk task_enqueued p w = Queued p w

-- Nobody has registered or run the callback.
abbrev pub Untouched : Shared → WorkerPc → Type 0
Untouched s w =
    (s.registered ≡ false)
    × (s.calling ≡ false)
    × (s.task_state ≡ initial_state)
    × (s.place ≡ absent)
    × (w ≡ idle)

-- The callback runs at its registration.
abbrev pub Inline : Shared → Type 0
Inline s = (s.stop_requested ≡ true) × (s.registered ≡ false) × (s.calling ≡ false)

abbrev pub Known : Shared → Type 0
Known s = (s.registered ≡ true) ⊎ (Inline s × (s.task_state ≡ task_enqueued))

-- Where a thread that leaves goes on, and what has become of the task.
abbrev pub Target : Option Cont → Shared → WorkerPc → Type 0
Target c s w =
    ((c ≡ some after_suspend)
      × (w ≡ idle)
      × (s.place ≢ queued)
      × (s.task_state ≢ initial_state)
      × (s.task_state ≢ task_enqueuing))
    ⊎ ((c ≡ some task_cont)
        × (w ≡ WorkerPc.jump (some after_suspend))
        × (s.task_state ≡ task_enqueued))

abbrev pub SuspendOk : SuspendPc → Shared → WorkerPc → Type 0
SuspendOk check s w = Untouched s w
SuspendOk register s w = Untouched s w
SuspendOk inline_exchange s w = Untouched s w × (s.stop_requested ≡ true)
SuspendOk inline_enqueue s w =
    Inline s × (s.task_state ≡ task_enqueuing) × (s.place ≡ absent) × (w ≡ idle)
SuspendOk inline_enqueued s w = Inline s × (s.task_state ≡ task_enqueuing) × Queued s.place w
SuspendOk offer s w = Known s × TaskOk s.task_state s.place w × (s.task_state ≢ task_not_needed)
SuspendOk SuspendPc.exchange s w =
    Known s
    × (s.stop_requested ≡ true)
    × TaskOk s.task_state s.place w
    × (s.task_state ≢ task_not_needed)
SuspendOk wait_enqueued s w =
    Known s
    × (s.stop_requested ≡ true)
    × TaskOk s.task_state s.place w
    × (s.task_state ≢ initial_state)
    × (s.task_state ≢ task_not_needed)
SuspendOk extract s w =
    (s.stop_requested ≡ true) × (s.task_state ≡ task_enqueued) × Queued s.place w
SuspendOk wait_after s w =
    (s.stop_requested ≡ true) × (s.task_state ≡ task_enqueued) × (s.place ≡ popped) × (w ≢ idle)
SuspendOk (leave c) s w = (s.stop_requested ≡ true) × Target c s w
SuspendOk own_store s w =
    (s.stop_requested ≡ true)
    × (s.place ≡ popped)
    × (w ≡ idle)
    × (s.task_state ≢ initial_state)
    × (s.task_state ≢ task_not_needed)
SuspendOk (SuspendPc.jump c) s w =
    (s.stop_requested ≡ true)
    × ((s.calling ≡ false) ⊎ ((s.place ≡ popped) × (w ≡ idle) × (s.after_execute ≡ some task_cont)))
    × ((c ≡ some after_suspend)
          × (w ≡ idle)
          × (s.place ≢ queued)
          × (s.place ≡ absent → s.task_state ≢ task_enqueuing)
          × (s.task_state ≡ initial_state → s.calling ≡ false)
        ⊎ (c ≡ some task_cont)
          × (w ≡ WorkerPc.jump (some after_suspend))
          × (s.task_state ≡ task_enqueued))

abbrev pub NotifyOk : NotifyPc → Shared → Type 0
NotifyOk request s =
    (s.stop_requested ≡ false) × (s.calling ≡ false) × (s.task_state ≡ initial_state)
NotifyOk NotifyPc.exchange s =
    (s.stop_requested ≡ true)
    × (s.calling ≡ true)
    × (s.registered ≡ true)
    × (s.task_state ≢ task_enqueuing)
    × (s.task_state ≢ task_enqueued)
NotifyOk enqueue s =
    (s.stop_requested ≡ true)
    × (s.calling ≡ true)
    × (s.registered ≡ true)
    × (s.task_state ≡ task_enqueuing)
    × (s.place ≡ absent)
NotifyOk enqueued s =
    (s.stop_requested ≡ true)
    × (s.calling ≡ true)
    × (s.registered ≡ true)
    × (s.task_state ≡ task_enqueuing)
    × (s.place ≢ absent)
NotifyOk finished s =
    (s.stop_requested ≡ true)
    × (s.calling ≡ false)
    × (s.registered ≡ true → (s.task_state ≢ initial_state) × (s.task_state ≢ task_enqueuing))

abbrev pub WorkerOk : WorkerPc → Shared → Type 0
WorkerOk idle s = Unit
WorkerOk store_after s = (s.place ≡ popped) × (s.after_execute ≡ none)
WorkerOk (WorkerPc.jump c) s =
    (s.place ≡ popped) × (s.after_execute ≡ some task_cont) × (c ≡ some after_suspend)

-- No continuation has been stored while the task waits.
abbrev Unset : WorkerPc → Shared → Type 0
Unset w s = w ≡ idle → s.place ≢ popped → s.after_execute ≡ none

pub record Inv (s : State) : Type 0 where
  pub suspender : SuspendOk s.suspender s.shared s.worker
  pub notifier : NotifyOk s.notifier s.shared
  pub worker : WorkerOk s.worker s.shared
  pub unset : s.worker ≡ idle → s.shared.place ≢ popped → s.shared.after_execute ≡ none

suspend_at-Ok :
    (p : SuspendPc) (w : WorkerPc) (n : NotifyPc) (s : Shared)
    → SuspendOk p s w
    → NotifyOk n s
    → WorkerOk w s
    → SuspendOk (suspend_at p s).1 (suspend_at p s).0 w
      × NotifyOk n (suspend_at p s).0
      × WorkerOk w (suspend_at p s).0
unfolding suspend_at
suspend_at-Ok check idle request s a b c = ground arith
suspend_at-Ok _ _ _ s a b c = ground arith

help_at-Ok :
    (p : SuspendPc) (w : WorkerPc) (n : NotifyPc) (s : Shared)
    → SuspendOk p s w
    → NotifyOk n s
    → WorkerOk w s
    → SuspendOk (help_at p s).1 (help_at p s).0 w
      × NotifyOk n (help_at p s).0
      × WorkerOk w (help_at p s).0
unfolding help_at
help_at-Ok offer idle request s a b c = ground arith
help_at-Ok _ _ _ s a b c = ground arith

notify_at-Ok :
    (n : NotifyPc) (w : WorkerPc) (p : SuspendPc) (s : Shared)
    → SuspendOk p s w
    → NotifyOk n s
    → WorkerOk w s
    → SuspendOk p (notify_at n s).0 w
      × NotifyOk (notify_at n s).1 (notify_at n s).0
      × WorkerOk w (notify_at n s).0
unfolding notify_at
notify_at-Ok request idle check s a b c = ground arith
notify_at-Ok _ _ _ s a b c = ground arith

-- `unset` is what a worker needs that takes the task off its line.
execute_at-Ok :
    (w : WorkerPc) (n : NotifyPc) (p : SuspendPc) (s : Shared)
    → SuspendOk p s w
    → NotifyOk n s
    → WorkerOk w s
    → Unset w s
    → SuspendOk p (execute_at w s).0 (execute_at w s).1
      × NotifyOk n (execute_at w s).0
      × WorkerOk (execute_at w s).1 (execute_at w s).0
unfolding execute_at
execute_at-Ok idle request check s a b c d = ground arith
execute_at-Ok _ _ _ s a b c d = ground arith

suspend_at-Unset :
    (p : SuspendPc) (w : WorkerPc) (s : Shared)
    → SuspendOk p s w
    → Unset w s
    → Unset w (suspend_at p s).0
unfolding suspend_at
suspend_at-Unset check w s a d e f = ground (arith, d)
suspend_at-Unset _ w s a d e f = ground (arith, d)

help_at-Unset : (p : SuspendPc) (w : WorkerPc) (s : Shared) → Unset w s → Unset w (help_at p s).0
unfolding help_at
help_at-Unset offer w s d e f = ground (arith, d)
help_at-Unset _ w s d e f = ground (arith, d)

notify_at-Unset :
    (n : NotifyPc) (w : WorkerPc) (s : Shared)
    → NotifyOk n s
    → Unset w s
    → Unset w (notify_at n s).0
unfolding notify_at
notify_at-Unset request w s b d e f = ground (arith, d)
notify_at-Unset _ w s b d e f = ground (arith, d)

execute_at-Unset :
    (w : WorkerPc) (s : Shared) → Unset w s → Unset (execute_at w s).1 (execute_at w s).0
unfolding execute_at
execute_at-Unset idle s d e f = ground (arith, d)
execute_at-Unset _ s d e f = ground arith

pub step-Inv : (a : Agent) (s : State) → Inv s → Inv (step a s)
unfolding step
step-Inv Agent.suspender s i =
    let (p, q, r) =
      suspend_at-Ok s.suspender s.worker s.notifier s.shared i.suspender i.notifier i.worker in
    record {
      suspender = p;
      notifier = q;
      worker = r;
      unset = suspend_at-Unset s.suspender s.worker s.shared i.suspender i.unset;
    }
step-Inv Agent.helper s i =
    let (p, q, r) =
      help_at-Ok s.suspender s.worker s.notifier s.shared i.suspender i.notifier i.worker in
    record {
      suspender = p;
      notifier = q;
      worker = r;
      unset = help_at-Unset s.suspender s.worker s.shared i.unset;
    }
step-Inv Agent.notifier s i =
    let (p, q, r) =
      notify_at-Ok s.notifier s.worker s.suspender s.shared i.suspender i.notifier i.worker in
    record {
      suspender = p;
      notifier = q;
      worker = r;
      unset = notify_at-Unset s.notifier s.worker s.shared i.notifier i.unset;
    }
step-Inv Agent.worker s i =
    let (p, q, r) =
      execute_at-Ok s.worker s.notifier s.suspender s.shared i.suspender i.notifier i.worker
        i.unset in
    record {
      suspender = p;
      notifier = q;
      worker = r;
      unset = execute_at-Unset s.worker s.shared i.unset;
    }

-- The states that the threads can reach.
abbrev pub after : List Agent → State
after plan = run step plan start

pub start-Inv : Inv start
start-Inv = record {
  suspender = (refl, refl, refl, refl, refl);
  notifier = (refl, refl, refl);
  worker = tt;
  unset = λ _ _. refl;
}

pub after-Inv : (plan : List Agent) → Inv (after plan)
after-Inv plan = run-keeps step Inv step-Inv plan start start-Inv
