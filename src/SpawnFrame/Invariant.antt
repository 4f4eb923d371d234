-- ===== src/SpawnFrame/Invariant.antt =====
-- What holds at each place where the two threads of a spawn frame can stand.
use concore2full.Base.{ℕ, ◌≡◌, refl, ◌≢◌, ◌⊎◌, some, arith, List}
use concore2full.SpawnFrame.{
  SyncState, initial_state, async_started, async_finished, main_finishing, main_finished, queued,
  popped, extracted, await_cc, thread_cont, Frame, MainPc, load_state, extract, run_inplace,
  wait_started, exchange, store_originator, store_finished, read_secondary, returned, WorkerPc,
  idle, store_secondary, store_started, run_task, complete, wait_main, read_originator, State,
  spawn, await_at, execute_at, step, Agent,
}
use concore2full.Schedule.{run, run-keeps}

-- The task has run, once, and has left its value.
pub record Ran (v : ℕ) (f : Frame) : Type 0 where
  pub once : f.runs ≡ 1
  pub value : f.value ≡ some v

-- The awaiting thread has not touched the state.
abbrev Untouched : SyncState → Type 0
Untouched main_finishing = ⊥
Untouched main_finished = ⊥
Untouched _ = Unit

-- The worker has started, and has not finished first.
abbrev Going : SyncState → Type 0
Going initial_state = ⊥
Going async_finished = ⊥
Going _ = Unit

abbrev pub MainOk : ℕ → MainPc → Frame → Type 0
MainOk v load_state f = (f.task ≢ extracted) × Untouched f.sync_state
MainOk v extract f = (f.task ≢ extracted) × Untouched f.sync_state
MainOk v run_inplace f = (f.task ≡ extracted) × (f.runs ≡ 0)
MainOk v wait_started f = (f.task ≡ popped) × Untouched f.sync_state
MainOk v exchange f = (f.task ≡ popped) × Untouched f.sync_state × (f.sync_state ≢ initial_state)
MainOk v store_originator f = (f.task ≡ popped) × (f.sync_state ≡ main_finishing)
MainOk v store_finished f =
    (f.task ≡ popped) × (f.sync_state ≡ main_finishing) × (f.originator ≡ some await_cc)
MainOk v read_secondary f =
    (f.task ≡ popped) × (f.sync_state ≡ main_finished) × (f.originator ≡ some await_cc)
MainOk v (MainPc.jump c) f =
    (f.task ≡ popped)
    × (f.sync_state ≡ main_finished)
    × (f.originator ≡ some await_cc)
    × (c ≡ some thread_cont)
MainOk v returned f =
    ((f.task ≡ extracted) × Ran v f) ⊎ ((f.task ≡ popped) × (f.sync_state ≡ async_finished))

abbrev pub WorkerOk : ℕ → WorkerPc → Frame → Type 0
WorkerOk v idle f =
    (f.task ≢ popped) × (f.sync_state ≡ initial_state) × (f.task ≡ queued → f.runs ≡ 0)
WorkerOk v store_secondary f = (f.task ≡ popped) × (f.sync_state ≡ initial_state) × (f.runs ≡ 0)
WorkerOk v store_started f =
    (f.task ≡ popped)
    × (f.sync_state ≡ initial_state)
    × (f.runs ≡ 0)
    × (f.secondary_thread ≡ some thread_cont)
WorkerOk v run_task f =
    (f.task ≡ popped) × Going f.sync_state × (f.runs ≡ 0) × (f.secondary_thread ≡ some thread_cont)
WorkerOk v complete f =
    (f.task ≡ popped) × Going f.sync_state × Ran v f × (f.secondary_thread ≡ some thread_cont)
WorkerOk v wait_main f =
    (f.task ≡ popped)
    × Going f.sync_state
    × (f.sync_state ≢ async_started)
    × Ran v f
    × (f.secondary_thread ≡ some thread_cont)
WorkerOk v read_originator f =
    (f.task ≡ popped)
    × (f.sync_state ≡ main_finished)
    × Ran v f
    × (f.secondary_thread ≡ some thread_cont)
WorkerOk v (WorkerPc.jump c) f =
    (f.task ≡ popped)
    × Ran v f
    × (f.secondary_thread ≡ some thread_cont)
    × (((f.sync_state ≡ async_finished) × (c ≡ some thread_cont))
        ⊎ ((f.sync_state ≡ main_finished) × (c ≡ some await_cc)))

pub record Inv (v : ℕ) (s : State) : Type 0 where
  pub main : MainOk v s.main s.frame
  pub worker : WorkerOk v s.worker s.frame

await_at-Ok :
    (v : ℕ) (m : MainPc) (w : WorkerPc) (f : Frame)
    → MainOk v m f
    → WorkerOk v w f
    → MainOk v (await_at v m f).1 (await_at v m f).0 × WorkerOk v w (await_at v m f).0
unfolding await_at
await_at-Ok v load_state idle f p q = ground arith
await_at-Ok v _ _ f p q = ground arith

execute_at-Ok :
    (v : ℕ) (w : WorkerPc) (m : MainPc) (f : Frame)
    → MainOk v m f
    → WorkerOk v w f
    → MainOk v m (execute_at v w f).0 × WorkerOk v (execute_at v w f).1 (execute_at v w f).0
unfolding execute_at
execute_at-Ok v idle load_state f p q = ground arith
execute_at-Ok v _ _ f p q = ground arith

pub step-Inv : (v : ℕ) (a : Agent) (s : State) → Inv v s → Inv v (step v a s)
unfolding step
step-Inv v Agent.main s inv =
    let (p, q) = await_at-Ok v s.main s.worker s.frame inv.main inv.worker in
    record { main = p; worker = q }
step-Inv v Agent.worker s inv =
    let (p, q) = execute_at-Ok v s.worker s.main s.frame inv.main inv.worker in
    record { main = p; worker = q }

-- The states that `await` and the worker can reach after `spawn`.
abbrev pub after : ℕ → List Agent → State
after v plan = run (step v) plan spawn

pub spawn-Inv : (v : ℕ) → Inv v spawn
spawn-Inv v = record { main = (λ e. cc, tt); worker = (λ e. cc, refl, λ _. refl) }

pub after-Inv : (v : ℕ) (plan : List Agent) → Inv v (after v plan)
after-Inv v plan = run-keeps (step v) (Inv v) (step-Inv v) plan spawn (spawn-Inv v)
