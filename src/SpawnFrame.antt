-- ===== src/SpawnFrame.antt =====
-- `spawn_frame_base` (src/spawn_frame_base.cpp, include/concore2full/detail/spawn_frame_base.h) as
-- two threads that interleave at each access to the shared frame: the one that calls `await`, and
-- the worker of the pool that runs the task. The value that the user function stores in the frame
-- is that of include/concore2full/detail/frame_with_value.h.
pub mod Invariant
pub mod Safety
pub mod Progress
pub mod Lifetime
mod Tests
use concore2full.Base.{
  ℕ, ◌+◌, Bool, true, false, Option, none, some, List, [], ◌∷◌, leb, if◌then◌else◌, ◌==◌,
}

-- `enum sync_state_values`, in the source's order.
pub data SyncState : Type 0 where
  initial_state async_started async_finished main_finishing main_finished : SyncState

abbrev pub code : SyncState → ℕ
code initial_state = 0
code async_started = 1
code async_finished = 2
code main_finishing = 3
code main_finished = 4

-- Where the task is, for the thread pool: on a line, taken by a worker, or extracted.
pub data Place : Type 0 where
  queued popped extracted : Place

-- The continuations: that of the caller of `await`, and that of the worker that runs the task.
pub data Cont : Type 0 where
  await_cc thread_cont : Cont

-- `struct spawn_frame_base`, the value holder, and how often the user function has run.
pub record Frame : Type 0 where
  pub task : Place
  pub sync_state : SyncState
  pub originator : Option Cont
  pub secondary_thread : Option Cont
  pub value : Option ℕ
  pub runs : ℕ

-- Where the thread that calls `await` stands; `jump c` is the switch to the continuation `c`.
pub data MainPc : Type 0 where
  load_state extract run_inplace wait_started exchange : MainPc
  store_originator store_finished read_secondary : MainPc
  jump : Option Cont → MainPc
  returned : MainPc

-- Where the worker stands in `execute_spawn_task` and `on_async_complete`.
pub data WorkerPc : Type 0 where
  idle store_secondary store_started run_task complete wait_main read_originator : WorkerPc
  jump : Option Cont → WorkerPc

pub record State : Type 0 where
  pub frame : Frame
  pub main : MainPc
  pub worker : WorkerPc

-- `spawn`, up to the call of `await`.
abbrev pub spawn : State
spawn = record {
  frame = record {
    task = queued;
    sync_state = initial_state;
    originator = none;
    secondary_thread = none;
    value = none;
    runs = 0;
  };
  main = load_state;
  worker = idle;
}

-- The user function, which computes `v`: `to_execute` of `frame_with_value`.
abbrev pub to_execute : ℕ → Frame → Frame
to_execute v f = record f { value = some v; runs = f.runs + 1 }

-- `thread_pool::extract_task` on the task of the frame: it succeeds on a line only.
abbrev pub extract_from : Place → Bool
extract_from queued = true
extract_from _ = false

-- One access of `await`.
unfoldable pub await_at : ℕ → MainPc → Frame → Frame × MainPc
await_at v load_state f =
    if code f.sync_state == code initial_state then (f, extract) else (f, exchange)
await_at v extract f =
    if extract_from f.task then (record f { task = extracted }, run_inplace) else (f, wait_started)
await_at v run_inplace f = (to_execute v f, returned)
await_at v wait_started f =
    if leb (code async_started) (code f.sync_state) then (f, exchange) else (f, wait_started)
await_at v exchange f =
    if code f.sync_state == code async_started
    then (record f { sync_state = main_finishing }, store_originator)
    else (f, returned)
await_at v store_originator f = (record f { originator = some await_cc }, store_finished)
await_at v store_finished f = (record f { sync_state = main_finished }, read_secondary)
await_at v read_secondary f = (f, MainPc.jump f.secondary_thread)
await_at v (MainPc.jump c) f = (f, MainPc.jump c)
await_at v returned f = (f, returned)

-- One access of `execute_spawn_task`, with `on_async_complete` from `complete` on. From `idle` the
-- worker takes the task off its line.
unfoldable pub execute_at : ℕ → WorkerPc → Frame → Frame × WorkerPc
execute_at v idle f =
    if extract_from f.task then (record f { task = popped }, store_secondary) else (f, idle)
execute_at v store_secondary f = (record f { secondary_thread = some thread_cont }, store_started)
execute_at v store_started f = (record f { sync_state = async_started }, run_task)
execute_at v run_task f = (to_execute v f, complete)
execute_at v complete f =
    if code f.sync_state == code async_started
    then (record f { sync_state = async_finished }, WorkerPc.jump (some thread_cont))
    else (f, wait_main)
execute_at v wait_main f =
    if code f.sync_state == code main_finished then (f, read_originator) else (f, wait_main)
execute_at v read_originator f = (f, WorkerPc.jump f.originator)
execute_at v (WorkerPc.jump c) f = (f, WorkerPc.jump c)

pub data Agent : Type 0 where
  main worker : Agent

-- The thread that the schedule picks makes one access.
unfoldable pub step : ℕ → Agent → State → State
unfolding await_at execute_at
step v Agent.main s = let r = await_at v s.main s.frame in record s { frame = r.0; main = r.1 }
step v Agent.worker s =
    let r = execute_at v s.worker s.frame in record s { frame = r.0; worker = r.1 }
