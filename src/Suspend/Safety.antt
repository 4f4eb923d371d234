-- ===== src/Suspend/Safety.antt =====
-- What a suspension promises in every interleaving, and what it may leave behind.
use concore2full.Base.{
  ◌≡◌, refl, ◌∙◌, ap, ◌≢◌, ◌⊎◌, inl, inr, Bool, true, false, Option, some, arith, List, [], ◌∷◌,
  ◌++◌,
}
use concore2full.Schedule.{run, run-append, run-keeps}
use concore2full.Suspend.{
  TaskState, initial_state, Place, queued, popped, Cont, after_suspend, task_cont, Shared,
  SuspendPc, check, offer, NotifyPc, request, enqueue, finished, WorkerPc, idle, store_after, State,
  start, suspend_at, help_at, notify_at, execute_at, Agent, step,
}
use concore2full.Suspend.Invariant.{TaskOk, SuspendOk, NotifyOk, WorkerOk, Inv, after, after-Inv}

-- The suspending thread goes on behind the suspension, and no worker does, or it goes on where a
-- worker left that has gone on behind the suspension; and only after the stop was requested.
abbrev pub Resumed : Option Cont → State → Type 0
Resumed c s =
    (s.shared.stop_requested ≡ true)
    × (((c ≡ some after_suspend) × ((d : Option Cont) → s.worker ≢ WorkerPc.jump d))
        ⊎ ((c ≡ some task_cont) × (s.worker ≡ WorkerPc.jump (some after_suspend))))

jump-Resumed :
    (plan : List Agent) (c : Option Cont)
    → (after plan).suspender ≡ SuspendPc.jump c
    → Resumed c (after plan)
jump-Resumed plan c e =
    let i : SuspendOk (SuspendPc.jump c) (after plan).shared (after plan).worker =
      rw e at ((after-Inv plan).suspender) in
    (i.0, elim (i.2) [ inl q ↦ inl (q.0, λ d f. ground arith) | inr q ↦ inr (q.0, q.1) ])

worker-stop :
    (w : WorkerPc) (n : NotifyPc) (p : SuspendPc) (s : Shared)
    → SuspendOk p s w
    → NotifyOk n s
    → w ≢ idle
    → s.stop_requested ≡ true
worker-stop idle request check s a b ne = ground arith
worker-stop _ _ _ s a b ne = ground arith

-- The point behind the suspension is reached by one thread at most, and not before `notify`: a
-- worker that switches goes on there, and the suspending thread goes on there if no worker does,
-- and otherwise where that worker left.
pub resume_once :
    (plan : List Agent)
    → ((c : Option Cont) → (after plan).suspender ≡ SuspendPc.jump c → Resumed c (after plan))
      × ((c : Option Cont)
          → (after plan).worker ≡ WorkerPc.jump c
          → (c ≡ some after_suspend) × ((after plan).shared.stop_requested ≡ true))
resume_once plan =
    let i = after-Inv plan in
    (
      jump-Resumed plan,
      λ c e.
          let w : WorkerOk (WorkerPc.jump c) (after plan).shared = rw e at i.worker in
          (
            w.2,
            worker-stop (after plan).worker (after plan).notifier (after plan).suspender
                (after plan).shared i.suspender i.notifier (λ f. cc),
          ),
    )

-- The next access of the thread is to the task or to `task_state`, which lie on the stack of the
-- suspending thread.
abbrev pub notifier_uses : NotifyPc → Bool
notifier_uses request = false
notifier_uses finished = false
notifier_uses _ = true

abbrev pub worker_uses : WorkerPc → Bool
worker_uses store_after = true
worker_uses _ = false

off_stack :
    (n : NotifyPc) (w : WorkerPc) (s : Shared) (c : Option Cont)
    → SuspendOk (SuspendPc.jump c) s w
    → NotifyOk n s
    → (s.place ≢ popped) ⊎ (c ≡ some task_cont)
    → (notifier_uses n ≡ false) × (worker_uses w ≡ false)
off_stack request idle s c a b d = ground arith
off_stack _ _ s c a b d = ground arith

-- Once the suspending thread has left the frame of the suspension, by itself or for a worker that
-- has run the task, no other thread uses that frame.
pub leave-off_stack :
    (plan : List Agent) (c : Option Cont)
    → (after plan).suspender ≡ SuspendPc.jump c
    → ((after plan).shared.place ≢ popped) ⊎ (c ≡ some task_cont)
    → (notifier_uses (after plan).notifier ≡ false) × (worker_uses (after plan).worker ≡ false)
leave-off_stack plan c e d =
    let i = after-Inv plan in
    off_stack (after plan).notifier (after plan).worker (after plan).shared c (rw e at i.suspender)
      i.notifier d

-- The suspending thread has run the task itself.
record Stranded (s : State) : Type 0 where
  jumped : s.suspender ≡ SuspendPc.jump (some after_suspend)
  taken : s.shared.place ≡ popped
  stored : s.shared.after_execute ≡ some task_cont
  idle_worker : s.worker ≡ idle
  notifier_past : (s.notifier ≢ enqueue) × (s.shared.task_state ≢ initial_state)

notify-Stranded :
    (n : NotifyPc) (s : Shared)
    → n ≢ enqueue
    → s.task_state ≢ initial_state
    → ((notify_at n s).1 ≢ enqueue)
      × ((notify_at n s).0.task_state ≢ initial_state)
      × ((notify_at n s).0.place ≡ s.place)
      × ((notify_at n s).0.after_execute ≡ s.after_execute)
unfolding notify_at
notify-Stranded request s a b = ground arith
notify-Stranded _ s a b = ground arith

step-Stranded : (a : Agent) (s : State) → Stranded s → Stranded (step a s)
unfolding step suspend_at help_at execute_at
step-Stranded Agent.suspender s h = ground arith
step-Stranded Agent.helper s h = ground arith
step-Stranded Agent.notifier s h = ground (arith, notify-Stranded s.notifier s.shared)
step-Stranded Agent.worker s h = ground arith

abbrev pub steals : List Agent
steals = Agent.helper ∷ Agent.suspender ∷ []

queued-facts :
    (t : TaskState) (p : Place) (w : WorkerPc)
    → TaskOk t p w
    → p ≡ queued
    → (w ≡ idle) × (t ≢ initial_state)
queued-facts initial_state p w a e = ground arith
queued-facts _ p w a e = ground arith

not_enqueue : (n : NotifyPc) (s : Shared) → NotifyOk n s → s.place ≡ queued → n ≢ enqueue
not_enqueue request s b q e = ground arith
not_enqueue _ s b q e = ground arith

steals-Stranded :
    (s : State)
    → Inv s
    → s.suspender ≡ offer
    → s.shared.registered ≡ true
    → s.shared.place ≡ queued
    → Stranded (run step steals s)
unfolding run step suspend_at help_at
steals-Stranded s i at reg q =
    let b : SuspendOk offer s.shared s.worker = rw at at i.suspender in
    let f = queued-facts s.shared.task_state s.shared.place s.worker b.1 q in
    rw (at, reg, q)
      (record {
        jumped = refl;
        taken = refl;
        stored = refl;
        idle_worker = f.0;
        notifier_past = (λ e. not_enqueue s.notifier s.shared i.notifier q e, f.1);
      })

-- A thread that offers its help until it is notified may take the task itself, once the notifier
-- has enqueued it. It then goes on behind the suspension, and nothing that happens later resumes
-- the rest of its `offer_help_until`, which would give the sleep object back.
pub help-never_ends :
    (plan more : List Agent)
    → (after plan).suspender ≡ offer
    → (after plan).shared.registered ≡ true
    → (after plan).shared.place ≡ queued
    → let s = after ((plan ++ steals) ++ more) in
      (s.suspender ≡ SuspendPc.jump (some after_suspend))
      × (s.shared.after_execute ≡ some task_cont)
      × ((c : Option Cont) → s.worker ≢ WorkerPc.jump c)
help-never_ends plan more at reg q =
    let e =
      run-append step (plan ++ steals) more start
      ∙ ap (run step more) (run-append step plan steals start) in
    let h =
      run-keeps step Stranded step-Stranded more (run step steals (after plan))
        (steals-Stranded (after plan) (after-Inv plan) at reg q) in
    rw e (h.jumped, h.stored, λ c f. ground (arith, h.idle_worker))
