-- ===== src/BulkFrame.antt =====
-- `bulk_spawn_frame_base` (src/bulk_spawn_frame_base.cpp,
-- include/concore2full/detail/bulk_spawn_frame_base.h): the workers that run the tasks and the
-- thread that calls `await`, interleaved at each access to what they share. The thread number `i` is
-- the worker that runs the task `i`; the one after the last is the thread that calls `await`.
pub mod Invariant
pub mod Layout
pub mod Steps
pub mod Safety
pub mod Early
pub mod Weights
pub mod Live
pub mod Count
pub mod Kept
pub mod Rest
pub mod Stuck
pub mod Outcome
pub mod Termination
mod Tests
use concore2full.Base.{
  ℕ, ◌+◌, ◌-◌, ◌*◌, ◌%◌, ◌^◌, Bool, true, false, Option, none, some, if◌then◌else◌, ◌==◌, ltb,
  update,
}

-- What a slot of `threads_` holds: null, the tombstone, or the continuation of a thread.
pub data Slot : Type 0 where
  null tombstone : Slot
  cont : ℕ → Slot

-- Where a task is, for the thread pool: on a line, taken by a worker, or extracted.
pub data Place : Type 0 where
  queued popped extracted : Place

-- `struct bulk_spawn_frame_base`. `completions` counts the increments of `completed_tasks_`, which
-- is that number modulo 2^32. The code does not store the last five: `owner` is the thread that
-- got an index from `completed_tasks_`, `settled` counts the increments of `finalized_tasks_` for
-- a task or for `await`, `ran` the calls of the user function for a task, and `skipped` and `found`
-- the times that a thread has read the tombstone in a slot, and a continuation.
pub record Frame : Type 0 where
  pub count : ℕ
  pub place : ℕ → Place
  pub started : ℕ
  pub completions : ℕ
  pub finalized : ℕ
  pub threads : ℕ → Slot
  pub owner : ℕ → Option ℕ
  pub settled : ℕ → ℕ
  pub ran : ℕ → ℕ
  pub skipped : ℕ → ℕ
  pub found : ℕ → ℕ

-- Where a thread stands. First `execute_bulk_spawn_task` up to the user function, then `await` up
-- to its continuation, with `in_…` for a task that it runs in place; then what both have from
-- `extract_continuation` on, where `own` is the slot of the thread.
pub data Pc : Type 0 where
  idle occupy : Pc
  store_cont run_task : (own : ℕ) → Pc
  check returned : Pc
  try_task in_occupy : (i : ℕ) → Pc
  in_store : (i slot : ℕ) → Pc
  in_run in_finalize : (i : ℕ) → Pc
  store_await : Pc
  extract : (own : ℕ) → Pc
  wait_slot read_slot : (own index : ℕ) → Pc
  finalize : (own index : ℕ) (next : Slot) → Pc
  wait_final : (next : Slot) → Pc
  jump : (next : Slot) → Pc

pub record State : Type 0 where
  pub frame : Frame
  pub thread : ℕ → Pc

-- `frame_size`, with the sizes of the frame, a task and a slot. `count + 1` is an `int32_t` there;
-- where it overflows, which is undefined, there is no result.
unfoldable pub frame_size : (size_struct size_task size_slot count : ℕ) → Option ℕ
frame_size size_struct size_task size_slot count =
    if ltb (count + 1) (2 ^ 31)
    then some ((size_struct + count * size_task + (count + 1) * size_slot) % 2 ^ 64)
    else none

-- The arrays that `spawn` lays out behind a frame at the address `p`.
unfoldable pub tasks_at : (size_struct p : ℕ) → ℕ
tasks_at size_struct p = p + size_struct

unfoldable pub threads_at : (size_struct size_task count p : ℕ) → ℕ
threads_at size_struct size_task count p = p + size_struct + count * size_task

-- `bulk_spawn_frame_full`, whose size and whose offset of `base_frame_` the compiler chooses: the
-- number of bytes that `allocate` asks for, the base frame of a frame, and the frame that
-- `to_execute` gets back from its base frame.
unfoldable pub allocate_size : (size_full size_struct base_size : ℕ) → ℕ
allocate_size size_full size_struct base_size = (size_full - size_struct + base_size) % 2 ^ 64

unfoldable pub base_frame : (offset self : ℕ) → ℕ
base_frame offset self = self + offset

unfoldable pub from_base_frame : (offset frame : ℕ) → ℕ
from_base_frame offset frame = frame - offset

-- `spawn`, once the tasks are enqueued; there are none from `count` on. The bound `count + 1` of the
-- loop over the slots is an `int`, so the model is the code for `count + 1 < 2 ^ 31`, for which
-- `frame_size` has a result.
unfoldable pub spawn : ℕ → State
spawn count = record {
  frame = record {
    count = count;
    place = λ i. if ltb i count then queued else extracted;
    started = 0;
    completions = 0;
    finalized = 0;
    threads = λ _. null;
    owner = λ _. none;
    settled = λ _. 0;
    ran = λ _. 0;
    skipped = λ _. 0;
    found = λ _. 0;
  };
  thread = λ k. if k == count then check else idle;
}

-- `thread_pool::extract_task` on a task: it succeeds on a line only.
abbrev pub extract_from : Place → Bool
extract_from queued = true
extract_from _ = false

abbrev pub is_null : Slot → Bool
is_null null = true
is_null _ = false

abbrev pub is_tombstone : Slot → Bool
is_tombstone tombstone = true
is_tombstone _ = false

-- The user function, called for the task `i`.
abbrev pub user_function : ℕ → Frame → Frame
user_function i f = record f { ran = update f.ran i (f.ran i + 1) }

-- `atomic_fetch_add(&started_tasks_, 1)`.
abbrev pub start_one : Frame → Frame
start_one f = record f { started = (f.started + 1) % 2 ^ 32 }

-- `atomic_fetch_add(&finalized_tasks_, 1)`, for `k`.
abbrev pub finalize_one : ℕ → Frame → Frame
finalize_one k f = record f {
  finalized = (f.finalized + 1) % 2 ^ 32;
  settled = update f.settled k (f.settled k + 1);
}

-- One access of the thread `k`. A slot is written once, so that `read_slot` stands for all loads
-- behind the wait. Only `await` has the slot `count`, where its own continuation counts as the last.
unfoldable pub access : (k : ℕ) → Pc → Frame → Frame × Pc
access k idle f =
    if extract_from (f.place k)
    then (record f { place = update f.place k popped }, occupy)
    else (f, idle)
access k occupy f = (start_one f, store_cont f.started)
access k (store_cont own) f = (record f { threads = update f.threads own (cont k) }, run_task own)
access k (run_task own) f = (user_function k f, extract own)
access k check f = if f.completions % 2 ^ 32 == f.count then (f, returned) else (f, try_task 0)
access k returned f = (f, returned)
access k (try_task i) f =
    if i == f.count
    then (f, store_await)
    else (if extract_from (f.place i)
        then (record f { place = update f.place i extracted }, in_occupy i)
        else (f, try_task (i + 1)))
access k (in_occupy i) f = (start_one f, in_store i f.started)
access k (in_store i slot) f = (record f { threads = update f.threads slot tombstone }, in_run i)
access k (in_run i) f = (user_function i f, in_finalize i)
access k (in_finalize i) f = (finalize_one i f, try_task (i + 1))
access k store_await f = (record f { threads = update f.threads f.count (cont k) }, extract f.count)
access k (extract own) f = (
  record f {
    completions = f.completions + 1;
    owner = update f.owner (f.completions % 2 ^ 32) (some k);
  },
  wait_slot own (f.completions % 2 ^ 32),
)
access k (wait_slot own index) f =
    if is_null (f.threads index) then (f, wait_slot own index) else (f, read_slot own index)
access k (read_slot own index) f =
    if is_tombstone (f.threads index)
    then (record f { skipped = update f.skipped index (f.skipped index + 1) }, extract own)
    else (
      record f { found = update f.found index (f.found index + 1) },
      finalize own index (if index == own then cont k else f.threads index),
    )
access k (finalize own index next) f =
    (finalize_one k f, if index == f.count then wait_final next else Pc.jump next)
access k (wait_final next) f =
    if f.finalized == f.count + 1 then (f, Pc.jump next) else (f, wait_final next)
access k (Pc.jump next) f = (f, Pc.jump next)

-- The thread `k` makes one access.
unfoldable pub step : ℕ → State → State
unfolding access
step k s =
    let r = access k (s.thread k) s.frame in
    record s { frame = r.0; thread = update s.thread k r.1 }
