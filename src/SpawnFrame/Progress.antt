-- ===== src/SpawnFrame/Progress.antt =====
-- The end of both threads of a spawn frame, under fair schedules.
use concore2full.Base.{ℕ, ◌<◌, ◌+◌, ◌≡◌, ◌⊎◌, inl, inr, some, arith, List}
use concore2full.Schedule.{Fair, Fair-Done}
use concore2full.SpawnFrame.{
  Place, extracted, await_cc, thread_cont, Frame, MainPc, load_state, extract, run_inplace,
  wait_started, exchange, store_originator, store_finished, read_secondary, returned, WorkerPc,
  idle, store_secondary, store_started, run_task, complete, wait_main, read_originator, State,
  spawn, await_at, execute_at, step, Agent,
}
use concore2full.SpawnFrame.Invariant.{MainOk, WorkerOk, Inv, after, step-Inv, spawn-Inv}

-- An upper bound on the accesses that the awaiting thread has left.
abbrev main_left : MainPc → ℕ
main_left load_state = 7
main_left extract = 6
main_left wait_started = 5
main_left exchange = 4
main_left store_originator = 3
main_left store_finished = 2
main_left read_secondary = 1
main_left run_inplace = 1
main_left (MainPc.jump _) = 0
main_left returned = 0

-- The same for the worker, which has nothing to do for a task that was extracted.
abbrev worker_left : WorkerPc → Place → ℕ
worker_left idle extracted = 0
worker_left idle _ = 7
worker_left store_secondary _ = 6
worker_left store_started _ = 5
worker_left run_task _ = 4
worker_left complete _ = 3
worker_left wait_main _ = 2
worker_left read_originator _ = 1
worker_left (WorkerPc.jump _) _ = 0

abbrev left : State → ℕ
left s = main_left s.main + worker_left s.worker s.frame.task

-- How it ends: `await` has returned on its own thread, and the worker is back in the pool or never
-- had the task; or the two threads have changed places.
abbrev Ended : MainPc → WorkerPc → Place → Type 0
Ended m w p =
    ((m ≡ returned) × (((w ≡ idle) × (p ≡ extracted)) ⊎ (w ≡ WorkerPc.jump (some thread_cont))))
    ⊎ ((m ≡ MainPc.jump (some thread_cont)) × (w ≡ WorkerPc.jump (some await_cc)))

abbrev pub Done : State → Type 0
Done s = Ended s.main s.worker s.frame.task

abbrev at : Frame → MainPc → WorkerPc → State
at f m w = record { frame = f; main = m; worker = w }

module _ (v : ℕ) where
  main-move :
      (m : MainPc) (w : WorkerPc) (f : Frame)
      → MainOk v m f
      → (step v Agent.main (at f m w) ≡ at f m w)
        ⊎ (left (step v Agent.main (at f m w)) < left (at f m w))
  unfolding step await_at
  main-move load_state idle f p = ground arith
  main-move _ _ f p = ground arith

  worker-move :
      (w : WorkerPc) (m : MainPc) (f : Frame)
      → WorkerOk v w f
      → (step v Agent.worker (at f m w) ≡ at f m w)
        ⊎ (left (step v Agent.worker (at f m w)) < left (at f m w))
  unfolding step execute_at
  worker-move idle load_state f p = ground arith
  worker-move _ _ f p = ground arith

  move : (a : Agent) (s : State) → Inv v s → (step v a s ≡ s) ⊎ (left (step v a s) < left s)
  move Agent.main s inv = main-move s.main s.worker s.frame inv.main
  move Agent.worker s inv = worker-move s.worker s.main s.frame inv.worker

  main-live :
      (m : MainPc) (w : WorkerPc) (f : Frame)
      → MainOk v m f
      → WorkerOk v w f
      → Ended m w f.task
        ⊎ (left (step v Agent.main (at f m w)) < left (at f m w))
        ⊎ (left (step v Agent.worker (at f m w)) < left (at f m w))
  unfolding step await_at execute_at
  main-live load_state idle f p q = ground arith
  main-live _ _ f p q = ground arith

  live : (s : State) → Inv v s → Done s ⊎ ((a : Agent) × (left (step v a s) < left s))
  live s inv = elim (main-live s.main s.worker s.frame inv.main inv.worker) [
    | inl d ↦ inl d
    | inr (inl lt) ↦ inr (Agent.main, lt)
    | inr (inr lt) ↦ inr (Agent.worker, lt)
  ]

  stays : (a : Agent) (s : State) → Done s → Done (step v a s)
  unfolding step await_at execute_at
  stays Agent.main s d = ground arith
  stays Agent.worker s d = ground arith

  -- Under every schedule with fourteen windows in which both threads have a turn, both come to an
  -- end: `await` returns on its own thread and the worker goes back to the pool, or the two
  -- threads change places.
  pub spawn-Done : (plan : List Agent) → Fair 14 plan → Done (after v plan)
  spawn-Done plan fair =
      Fair-Done (step v) (Inv v) (step-Inv v) left Done move live stays fair spawn (spawn-Inv v)
        (omega arith)
