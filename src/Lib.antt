-- ===== src/Lib.antt =====
-- concore2full, a C++ library of concurrency abstractions over stackful coroutines.
--
-- Work is spawned as tasks on a global pool of threads. Whoever awaits the work runs it in place if
-- it has not started, and otherwise, if it arrives first, leaves its thread to the one that does the
-- work: the two exchange their threads, so that no thread ever blocks. The parts:
--
-- - WorkLine: `thread_pool::work_line` (include/concore2full/thread_pool.h, src/thread_pool.cpp) and
--   `concore2full_task`. A line is a stack of tasks, linked in both directions through the tasks
--   themselves. Memory is a function from addresses, null is 0; one memory holds all lines of a
--   pool, and the operations on one line are compared with a family of lists.
-- - ThreadPool: the pool over its lines: the constructor, also where a thread cannot be started, the
--   destructor, `enqueue`, `enqueue_bulk`, `extract_task`, the sleep objects and their notification,
--   the slots of `offer_help_until`, `join`, and a round of `execute_work`. It calls WorkLine the way
--   the code does. `int` and `uint32_t` counters are kept modulo 2^32. The loops over the lines take
--   the number of rounds that the code gives them.
-- - SpawnFrame: `spawn_frame_base` (src/spawn_frame_base.cpp): the awaiting thread and the worker
--   as program counters, interleaved at each access to the frame that they share. That
--   `extract_task` or a worker gets the task is one step here; Handover is about its details.
-- - CopyableFrame: `copyable_spawn_frame_base` (src/copyable_spawn_frame_base.cpp): any number of
--   callers of `await`, a family over their numbers, and the worker. `awaiters_count_` is the number
--   of calls modulo 2^32. `suspend_quick_resume` enters as a wait for the notification; Suspend is
--   about its details. On which thread a call comes out of it is not modelled there.
-- - SharedFrame: the futures of `copyable_spawn` and their copies, which own a copyable frame together
--   (include/concore2full/future.h, include/concore2full/detail/shared_frame.h), over CopyableFrame. A
--   future may be dropped with or without a call of its `await`, but not during one.
-- - BulkFrame: `bulk_spawn_frame_base` (src/bulk_spawn_frame_base.cpp): the workers and the thread
--   that awaits, as one family of threads. The counters are kept modulo 2^32.
--   `count + 1` is an `int` in the code: where it overflows, `frame_size` has no result.
-- - Suspend: `suspend_quick_resume` (src/suspend.cpp) with the notifier and a worker, in the same
--   style. The stop source is the one of the standard library, and enters by its documented
--   behaviour, which Suspend.antt states.
-- - ThreadInfo: the registry of threads, the flags of a thread switch and the sleep counter
--   (src/thread_info.cpp, src/sleep_helper.cpp), and the flow that sleeps on it with the calls that
--   wake it up (ThreadInfo.Sleep). `wait` and `notify_one` of the standard library enter by their
--   documented behaviour.
-- - Switch: the exchange of control flows between two threads (`switch_to`, `check_for_thread_switch`
--   and what they call in src/thread_info.cpp, `thread_snapshot::revert`, `inversion_checkpoint`), as
--   program counters of both threads. Each may ask the other one at any time, as often as it likes; a
--   third thread is kept out by the flags that `try_start_switch` sets.
-- - Pinpoint: work that must end on the thread on which it began (include/concore2full/sync_execute.h,
--   `thread_main` in src/thread_pool.cpp, include/concore2full/global_thread_pool.h), around the flows of
--   Switch and nested as deep as one likes. The model adds to Switch which flow is in which scope; a
--   scope's end takes one access more for each of the two flows, so the bound of Switch grows by 2.
-- - Handover: `enqueue`, `extract_task` and the search of `execute_work` by any number of threads, which
--   interleave at each critical section of a line and each access to a counter, over the memory of
--   WorkLine. A mutex keeps a critical section whole; a step of a thread says whether the lock that it
--   needs is taken. A task is enqueued once, as the frames do. It is about what SpawnFrame,
--   CopyableFrame and BulkFrame take as one step, that a worker or `extract_task` gets the task.
-- - Wakeup: sleeping and waking in `thread_pool`, by any number of threads, with the lines of the pool
--   counted only. No stop is requested there, and a thread keeps its control flow.
-- - Shutdown: how `join`, or the stop of `offer_help_until`, ends a thread in `execute_work` that may be
--   about to sleep, with any number of other threads that notify it.
-- - Coroutine: `callcc`, `resume` and the entry and exit of a coroutine
--   (include/concore2full/detail/callcc.h, include/concore2full/detail/create_stackfull_coroutine.h), as
--   code that passes on what comes next. The context library is a parameter with its documented
--   behaviour (Coroutine.Context).
-- - AtomicWait: the back-off loop (include/concore2full/detail/atomic_wait.h).
-- - ProfilingAtomic: the atomic that emits traces (include/concore2full/profiling_atomic.h).
-- - Stack: where the control structure and the stack of a coroutine lie
--   (include/concore2full/stack, include/concore2full/detail/stack_control_structure.h,
--   include/concore2full/detail/create_stackfull_coroutine.h).
-- - Schedule: runs of a step function over a list of agents, and what holds at the end of a fair
--   one. A fair schedule has a given number of windows, in each of which every agent has a turn;
--   the number bounds the accesses that change the state on the way to the end.
-- - Sum: sums over families, by which threads are counted.
-- - Base: what the others share.
--
-- Memory orders are not modelled: accesses are sequentially consistent, as the release and acquire
-- pairs of the code make them for what they publish.
-- In the models of the frames a continuation is a value that is stored, read and resumed, and only
-- where it is resumed counts: Coroutine is about how `callcc` makes it so.
--
-- Not modelled: the zones of profiling (include/concore2full/profiling.h), which forward to a tracing
-- library outside of the repository; the wrappers that own a frame and forward each call to it
-- (include/concore2full/spawn.h, include/concore2full/c/spawn.h, src/spawn.cpp,
-- include/concore2full/detail/unique_frame.h), which have no state or branch of their own; and how the
-- number of threads is read from the environment, which the constructor takes as an argument.
pub mod AtomicWait
mod Base
mod Schedule
pub mod BulkFrame
pub mod CopyableFrame
pub mod Coroutine
pub mod Handover
pub mod Pinpoint
pub mod ProfilingAtomic
pub mod SharedFrame
pub mod Shutdown
pub mod SpawnFrame
pub mod Stack
mod Sum
pub mod Suspend
pub mod Switch
pub mod ThreadInfo
pub mod ThreadPool
pub mod WorkLine
pub mod Wakeup
