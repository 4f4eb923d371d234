-- ===== src/CopyableFrame.antt =====
-- `copyable_spawn_frame_base` (src/copyable_spawn_frame_base.cpp,
-- include/concore2full/detail/copyable_spawn_frame_base.h): any number of threads that call `await`,
-- named by numbers, and the worker that runs the task, interleaved at each access to the shared
-- frame. `suspend_quick_resume` is a wait for the notification of the token. A place of `await` is one of
-- the call, on whatever thread it is: behind `suspend_quick_resume` that may be another one of the pool.
pub mod Invariant
pub mod Steps
pub mod Safety
pub mod Progress
pub mod Moves
pub mod Termination
mod Tests
use concore2full.Base.{
  ℕ, ◌+◌, ◌%◌, ◌^◌, Bool, true, false, Option, none, some, leb, if◌then◌else◌, ◌==◌, update,
}

-- `enum sync_state_values`, in the source's order.
pub data SyncState : Type 0 where
  initial_state async_started async_finishing main_finishing main_finished all_done : SyncState

abbrev pub code : SyncState → ℕ
code initial_state = 0
code async_started = 1
code async_finishing = 2
code main_finishing = 3
code main_finished = 4
code all_done = 5

-- Where the task is, for the thread pool: on a line, taken by a worker, or extracted.
pub data Place : Type 0 where
  queued popped extracted : Place

-- The continuations: that of a caller of `await`, and that of the worker that runs the task.
pub data Cont : Type 0 where
  caller : ℕ → Cont
  thread_cont : Cont

-- `struct copyable_spawn_frame_base`: `arrivals` counts the calls of `await`, `awaiters_count_` is
-- that number modulo 2^32; `notified` is the state of the suspend token. `first` is the last caller
-- that found the count 0; the code does not store it.
pub record Frame : Type 0 where
  pub task : Place
  pub sync_state : SyncState
  pub arrivals : ℕ
  pub first : Option ℕ
  pub first_await : Option Cont
  pub secondary_thread : Option Cont
  pub notified : Bool
  pub value : Option ℕ
  pub runs : ℕ

-- Where a call of `await` stands. `inplace_…` is the task run in place, `late_…` the path
-- of a caller that is not the first; `jump c` is the switch to the continuation `c`.
pub data AwaitPc : Type 0 where
  arrive load_state extract inplace_run inplace_done inplace_notify : AwaitPc
  wait_started exchange store_first read_secondary : AwaitPc
  store_finished : Option Cont → AwaitPc
  wait_done late_load late_suspend : AwaitPc
  jump : Option Cont → AwaitPc
  returned : AwaitPc

-- Where the worker stands in `execute_spawn_task` and `on_async_complete`.
pub data WorkerPc : Type 0 where
  idle store_secondary store_started run_task complete async_notify async_done : WorkerPc
  wait_main main_done main_notify read_first : WorkerPc
  jump : Option Cont → WorkerPc

pub record State : Type 0 where
  pub frame : Frame
  pub awaiter : ℕ → AwaitPc
  pub worker : WorkerPc

-- `spawn`, before the first call of `await`.
abbrev pub spawn : State
spawn = record {
  frame = record {
    task = queued;
    sync_state = initial_state;
    arrivals = 0;
    first = none;
    first_await = none;
    secondary_thread = none;
    notified = false;
    value = none;
    runs = 0;
  };
  awaiter = λ _. arrive;
  worker = idle;
}

-- The user function, which computes `v`.
abbrev pub user_function : ℕ → Frame → Frame
user_function v f = record f { value = some v; runs = f.runs + 1 }

-- `thread_pool::extract_task` on the task of the frame: it succeeds on a line only.
abbrev pub extract_from : Place → Bool
extract_from queued = true
extract_from _ = false

-- One access of `await`, called by `k`.
unfoldable pub await_at : (v k : ℕ) → AwaitPc → Frame → Frame × AwaitPc
await_at v k arrive f =
    if f.arrivals % 2 ^ 32 == 0
    then (record f { arrivals = f.arrivals + 1; first = some k }, load_state)
    else (record f { arrivals = f.arrivals + 1 }, late_load)
await_at v k load_state f =
    if code f.sync_state == code initial_state then (f, extract) else (f, exchange)
await_at v k extract f =
    if extract_from f.task then (record f { task = extracted }, inplace_run) else (f, wait_started)
await_at v k inplace_run f = (user_function v f, inplace_done)
await_at v k inplace_done f = (record f { sync_state = all_done }, inplace_notify)
await_at v k inplace_notify f = (record f { notified = true }, returned)
await_at v k wait_started f =
    if leb (code async_started) (code f.sync_state) then (f, exchange) else (f, wait_started)
await_at v k exchange f =
    if code f.sync_state == code async_started
    then (record f { sync_state = main_finishing }, store_first)
    else (f, wait_done)
await_at v k store_first f = (record f { first_await = some (caller k) }, read_secondary)
await_at v k read_secondary f = (f, store_finished f.secondary_thread)
await_at v k (store_finished c) f = (record f { sync_state = main_finished }, AwaitPc.jump c)
await_at v k wait_done f =
    if leb (code all_done) (code f.sync_state) then (f, returned) else (f, wait_done)
await_at v k late_load f =
    if code f.sync_state == code all_done then (f, returned) else (f, late_suspend)
await_at v k late_suspend f = if f.notified then (f, returned) else (f, late_suspend)
await_at v k (AwaitPc.jump c) f = (f, AwaitPc.jump c)
await_at v k returned f = (f, returned)

-- One access of `execute_spawn_task`, with `on_async_complete` from `complete` on. From `idle` the
-- worker takes the task off its line.
unfoldable pub execute_at : ℕ → WorkerPc → Frame → Frame × WorkerPc
execute_at v idle f =
    if extract_from f.task then (record f { task = popped }, store_secondary) else (f, idle)
execute_at v store_secondary f = (record f { secondary_thread = some thread_cont }, store_started)
execute_at v store_started f = (record f { sync_state = async_started }, run_task)
execute_at v run_task f = (user_function v f, complete)
execute_at v complete f =
    if code f.sync_state == code async_started
    then (record f { sync_state = async_finishing }, async_notify)
    else (f, wait_main)
execute_at v async_notify f = (record f { notified = true }, async_done)
execute_at v async_done f = (record f { sync_state = all_done }, WorkerPc.jump (some thread_cont))
execute_at v wait_main f =
    if code f.sync_state == code main_finished then (f, main_done) else (f, wait_main)
execute_at v main_done f = (record f { sync_state = all_done }, main_notify)
execute_at v main_notify f = (record f { notified = true }, read_first)
execute_at v read_first f = (f, WorkerPc.jump f.first_await)
execute_at v (WorkerPc.jump c) f = (f, WorkerPc.jump c)

pub data Agent : Type 0 where
  awaiter : ℕ → Agent
  worker : Agent

-- The thread that the schedule picks makes one access.
unfoldable pub step : ℕ → Agent → State → State
unfolding await_at execute_at
step v (Agent.awaiter k) s =
    let r = await_at v k (s.awaiter k) s.frame in
    record s { frame = r.0; awaiter = update s.awaiter k r.1 }
step v Agent.worker s =
    let r = execute_at v s.worker s.frame in record s { frame = r.0; worker = r.1 }
