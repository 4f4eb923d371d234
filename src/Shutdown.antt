-- ===== src/Shutdown.antt =====
-- The end of a thread in `thread_pool::execute_work` (src/thread_pool.cpp): a thread of the pool,
-- or one that offers its help, sleeps and wakes up; another thread requests a stop, notifies the
-- sleep object and waits for the first one (`join`, or the `stop_callback` of `offer_help_until`);
-- and any number of threads notify the same sleep object from `notify_one`. They interleave at each
-- access to what they share. What the lines of the pool hold, and when other threads notify, is up to
-- `finds`.
pub mod Invariant
pub mod Progress
mod Tests
use concore2full.Base.{ℕ, ◌+◌, ◌-◌, Bool, true, false, if◌then◌else◌, ◌==◌}
use concore2full.ThreadPool.{u32, dec32}

-- The stop state and the sleep object. `woken` says that the token was notified since it was made;
-- `pending` is the number of threads in `notify_one` that are about to notify the token.
pub record Shared : Type 0 where
  pub stop_requested : Bool
  pub wake_requests : ℕ
  pub woken : Bool
  pub pending : ℕ

-- Where the thread stands, in `execute_work` and `sleep`.
pub data Pc : Type 0 where
  check_stop load_num prepare dec_wake check_sleep wait reset check_again pop dec_num : Pc
  running ended : Pc

-- Where the thread that requests the stop stands.
pub data StopPc : Type 0 where
  request notify token wait_end joined : StopPc

pub record State : Type 0 where
  pub shared : Shared
  pub worker : Pc
  pub stopper : StopPc
  pub tick : ℕ

-- One access of the thread in `execute_work`; `finds` says whether there are tasks for it.
unfoldable pub work_at : (finds : Bool) → Pc → Shared → Shared × Pc
work_at finds check_stop s = (s, if s.stop_requested then ended else load_num)
work_at finds load_num s = (s, if finds then check_again else prepare)
work_at finds prepare s = (record s { woken = false }, dec_wake)
work_at finds dec_wake s = (
  record s { wake_requests = dec32 s.wake_requests },
  if s.wake_requests == 1 then check_sleep else reset,
)
work_at finds check_sleep s = (s, if s.stop_requested then reset else wait)
work_at finds wait s = (s, if s.woken then reset else wait)
work_at finds reset s = (record s { wake_requests = 1 }, check_again)
work_at finds check_again s = (s, if s.stop_requested then ended else pop)
work_at finds pop s = (s, if finds then dec_num else check_stop)
work_at finds dec_num s = (s, running)
work_at finds running s = (s, check_stop)
work_at finds ended s = (s, ended)

-- One access of the thread that requests the stop, to what the thread `p` uses.
unfoldable pub stop_at : Pc → StopPc → Shared → Shared × StopPc
stop_at p request s = (record s { stop_requested = true }, notify)
stop_at p notify s = (
  record s { wake_requests = u32 (s.wake_requests + 1) },
  if s.wake_requests == 0 then token else wait_end,
)
stop_at p token s = (record s { woken = true }, wait_end)
stop_at ended wait_end s = (s, joined)
stop_at p wait_end s = (s, wait_end)
stop_at p joined s = (s, joined)

-- A thread in `notify_one`, if there is one, makes the first access of `try_notify`.
unfoldable pub count_wake : (some_thread : Bool) → Shared → Shared
count_wake some_thread s =
    if some_thread
    then (record s {
      wake_requests = u32 (s.wake_requests + 1);
      pending = if s.wake_requests == 0 then s.pending + 1 else s.pending;
    })
    else s

-- One of the threads that found no request notifies the token.
unfoldable pub notify_token : Shared → Shared
notify_token s = if s.pending == 0 then s else record s { woken = true; pending = s.pending - 1 }

pub data Agent : Type 0 where
  worker stopper counting notifying : Agent

module _ (finds : ℕ → Bool) where
  -- The next access; `finds` says at each what the thread finds, or whether another thread notifies.
  unfoldable pub step : Agent → State → State
  unfolding work_at stop_at count_wake notify_token
  step Agent.worker s =
      let r = work_at (finds s.tick) s.worker s.shared in
      record s { shared = r.0; worker = r.1; tick = s.tick + 1 }
  step Agent.stopper s =
      let r = stop_at s.worker s.stopper s.shared in
      record s { shared = r.0; stopper = r.1; tick = s.tick + 1 }
  step counting s = record s { shared = count_wake (finds s.tick) s.shared; tick = s.tick + 1 }
  step notifying s = record s { shared = notify_token s.shared; tick = s.tick + 1 }

-- The thread is awake, and nobody has asked it to stop.
abbrev pub start : State
start = record {
  shared = record { stop_requested = false; wake_requests = 1; woken = false; pending = 0 };
  worker = check_stop;
  stopper = request;
  tick = 0;
}
