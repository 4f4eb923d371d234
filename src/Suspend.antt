-- ===== src/Suspend.antt =====
-- `suspend_quick_resume` (src/suspend.cpp, include/concore2full/suspend.h): the thread that
-- suspends, the one that calls `suspend_token::notify`, and a worker of the pool, interleaved at
-- each access to what they share. A stop source runs a registered callback once, on the thread that
-- requests the stop, or at its registration if the stop came before; its destructor waits for a
-- callback that runs.
pub mod Invariant
pub mod Progress
pub mod Safety
mod Tests
use concore2full.Base.{Bool, true, false, ◌&&◌, Option, none, some, if◌then◌else◌}

-- The states of `task_state`.
pub data TaskState : Type 0 where
  initial_state task_enqueuing task_enqueued task_not_needed : TaskState

-- Where the `quick_resume_task` is: not in the pool, on a line, taken, or extracted.
pub data Place : Type 0 where
  absent queued popped extracted : Place

-- The point behind the suspension, and that at which the task leaves the thread that ran it.
pub data Cont : Type 0 where
  after_suspend task_cont : Cont

-- What the threads share: the stop state, whether the callback is registered, whether it is
-- running on the notifier's thread, and the task.
pub record Shared : Type 0 where
  pub stop_requested : Bool
  pub registered : Bool
  pub calling : Bool
  pub task_state : TaskState
  pub place : Place
  pub after_execute : Option Cont

-- Where the suspending thread stands. `inline_…` is the callback run at its registration; `own_…`
-- is the task run by the suspending thread itself, from within `offer_help_until`.
pub data SuspendPc : Type 0 where
  check register inline_exchange inline_enqueue inline_enqueued : SuspendPc
  offer exchange wait_enqueued extract wait_after : SuspendPc
  leave : Option Cont → SuspendPc
  own_store : SuspendPc
  jump : Option Cont → SuspendPc

pub data NotifyPc : Type 0 where
  request exchange enqueue enqueued finished : NotifyPc

pub data WorkerPc : Type 0 where
  idle store_after : WorkerPc
  jump : Option Cont → WorkerPc

pub record State : Type 0 where
  pub shared : Shared
  pub suspender : SuspendPc
  pub notifier : NotifyPc
  pub worker : WorkerPc

abbrev pub start : State
start = record {
  shared = record {
    stop_requested = false;
    registered = false;
    calling = false;
    task_state = initial_state;
    place = absent;
    after_execute = none;
  };
  suspender = check;
  notifier = request;
  worker = idle;
}

abbrev pub is_initial : TaskState → Bool
is_initial initial_state = true
is_initial _ = false

abbrev pub is_enqueued : TaskState → Bool
is_enqueued task_enqueued = true
is_enqueued _ = false

abbrev pub is_queued : Place → Bool
is_queued queued = true
is_queued _ = false

abbrev pub is_set : Option Cont → Bool
is_set none = false
is_set (some _) = true

-- One access of `suspend_quick_resume`.
unfoldable pub suspend_at : SuspendPc → Shared → Shared × SuspendPc
suspend_at check s =
    if s.stop_requested then (s, SuspendPc.jump (some after_suspend)) else (s, register)
suspend_at register s =
    if s.stop_requested then (s, inline_exchange) else (record s { registered = true }, offer)
suspend_at inline_exchange s =
    if is_initial s.task_state
    then (record s { task_state = task_enqueuing }, inline_enqueue)
    else (s, offer)
suspend_at inline_enqueue s = (record s { place = queued }, inline_enqueued)
suspend_at inline_enqueued s = (record s { task_state = task_enqueued }, offer)
suspend_at offer s = if s.stop_requested then (s, SuspendPc.exchange) else (s, offer)
suspend_at SuspendPc.exchange s =
    if is_initial s.task_state
    then (record s { task_state = task_not_needed }, leave (some after_suspend))
    else (s, wait_enqueued)
suspend_at wait_enqueued s = if is_enqueued s.task_state then (s, extract) else (s, wait_enqueued)
suspend_at extract s =
    if is_queued s.place
    then (record s { place = extracted }, leave (some after_suspend))
    else (s, wait_after)
suspend_at wait_after s =
    if is_set s.after_execute then (s, leave s.after_execute) else (s, wait_after)
suspend_at (leave c) s =
    if s.calling then (s, leave c) else (record s { registered = false }, SuspendPc.jump c)
suspend_at own_store s =
    (record s { after_execute = some task_cont }, SuspendPc.jump (some after_suspend))
suspend_at (SuspendPc.jump c) s = (s, SuspendPc.jump c)

-- In `offer_help_until` the suspending thread takes the task off its line: it has passed the test
-- of the stop request before the stop came.
unfoldable pub help_at : SuspendPc → Shared → Shared × SuspendPc
help_at offer s =
    if s.registered && is_queued s.place
    then (record s { place = popped }, own_store)
    else (s, offer)
help_at pc s = (s, pc)

-- One access of `suspend_token::notify` and of the callback.
unfoldable pub notify_at : NotifyPc → Shared → Shared × NotifyPc
notify_at request s = (
  record s { stop_requested = true; calling = s.registered },
  if s.registered then NotifyPc.exchange else finished,
)
notify_at NotifyPc.exchange s =
    if is_initial s.task_state
    then (record s { task_state = task_enqueuing }, enqueue)
    else (record s { calling = false }, finished)
notify_at enqueue s = (record s { place = queued }, enqueued)
notify_at enqueued s = (record s { task_state = task_enqueued; calling = false }, finished)
notify_at finished s = (s, finished)

-- One access of a worker, with `quick_resume_task::execute` behind `store_after`.
unfoldable pub execute_at : WorkerPc → Shared → Shared × WorkerPc
execute_at idle s =
    if is_queued s.place then (record s { place = popped }, store_after) else (s, idle)
execute_at store_after s =
    (record s { after_execute = some task_cont }, WorkerPc.jump (some after_suspend))
execute_at (WorkerPc.jump c) s = (s, WorkerPc.jump c)

pub data Agent : Type 0 where
  suspender helper notifier worker : Agent

unfoldable pub step : Agent → State → State
unfolding suspend_at help_at notify_at execute_at
step Agent.suspender s =
    let r = suspend_at s.suspender s.shared in record s { shared = r.0; suspender = r.1 }
step Agent.helper s =
    let r = help_at s.suspender s.shared in record s { shared = r.0; suspender = r.1 }
step Agent.notifier s =
    let r = notify_at s.notifier s.shared in record s { shared = r.0; notifier = r.1 }
step Agent.worker s =
    let r = execute_at s.worker s.shared in record s { shared = r.0; worker = r.1 }
