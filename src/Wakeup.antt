-- ===== src/Wakeup.antt =====
-- Sleeping and waking in `thread_pool` (src/thread_pool.cpp): `enqueue`, `notify_one`, `extract_task`,
-- `execute_work` and `thread_sleep_data`, by any number of threads that interleave at each access
-- to the counters, while no stop is requested. The lines of the pool are those of ThreadPool; here
-- they are the number of their tasks. A thread's own sleep object has the thread's number; it
-- waits until its token is notified, which ThreadInfo.Sleep is about.
pub mod Invariant
pub mod Steps
pub mod Safety
mod Tests
use concore2full.Base.{ℕ, ◌+◌, ◌-◌, ◌%◌, ◌^◌, Bool, true, false, if◌then◌else◌, ◌==◌, ltb, update}
use concore2full.ThreadPool.{u32, dec32, le_int}

-- The size of `sleep_objects_`, and how many of the threads are the pool's own.
pub record Config : Type 0 where
  pub size : ℕ
  pub workers : ℕ
  pub threads : ℕ

-- `queued` is the number of tasks on the lines, `num_tasks` a 32-bit pattern, `wake_requests` and
-- `woken` belong to the sleep objects: `woken` says that the token was notified since it was made.
-- The code does not store `pushed`, which counts the tasks that were ever pushed.
pub record Pool : Type 0 where
  pub queued : ℕ
  pub num_tasks : ℕ
  pub wake_requests : ℕ → ℕ
  pub woken : ℕ → Bool
  pub pushed : ℕ

-- Where a thread stands: in `execute_work` and `sleep`; in a task, or outside of the pool
-- (`running`); and in `enqueue`, where `notify i` and `token i` are the loop of `notify_one`.
pub data Pc : Type 0 where
  load_num prepare dec_wake wait reset pop dec_num running count : Pc
  notify token : (i : ℕ) → Pc

-- What a thread does next: at `running`, it enqueues a task, extracts one, or ends the task; at
-- `pop`, it takes a task if there is one, or finds all locks taken (`miss`).
pub data Choice : Type 0 where
  go miss enqueue extract : Choice

pub record State : Type 0 where
  pub pool : Pool
  pub pc : ℕ → Pc

module _ (config : Config) where
  open config use {size, workers, threads}

  -- One access of the thread `k`.
  unfoldable pub access : (k : ℕ) → Choice → Pc → Pool → Pool × Pc
  access k _ load_num p = (p, if p.num_tasks == 0 then prepare else pop)
  access k _ prepare p = (record p { woken = update p.woken k false }, dec_wake)
  access k _ dec_wake p = (
    record p { wake_requests = update p.wake_requests k (dec32 (p.wake_requests k)) },
    if p.wake_requests k == 1 then wait else reset,
  )
  access k _ wait p = (p, if p.woken k then reset else wait)
  access k _ reset p = (record p { wake_requests = update p.wake_requests k 1 }, pop)
  access k miss pop p = (p, load_num)
  access k _ pop p =
      if p.queued == 0 then (p, load_num) else (record p { queued = p.queued - 1 }, dec_num)
  access k _ dec_num p = (record p { num_tasks = dec32 p.num_tasks }, running)
  access k enqueue running p = (record p { queued = p.queued + 1; pushed = p.pushed + 1 }, count)
  access k extract running p =
      if p.queued == 0 then (p, running) else (record p { queued = p.queued - 1 }, dec_num)
  access k _ running p = (p, if ltb k workers then load_num else running)
  access k _ count p = (
    record p { num_tasks = u32 (p.num_tasks + 1) },
    if le_int p.num_tasks size then notify 0 else running,
  )
  access k _ (notify i) p = if i == size then (p, running) else (
    record p { wake_requests = update p.wake_requests i (u32 (p.wake_requests i + 1)) },
    if p.wake_requests i == 0 then token i else notify (i + 1),
  )
  access k _ (token i) p = (record p { woken = update p.woken i true }, running)

  -- The thread `k` makes an access, if there is such a thread.
  unfoldable pub step : ℕ × Choice → State → State
  unfolding access
  step (k, c) s =
      let r = access k c (s.pc k) s.pool in
      if ltb k threads then record s { pool = r.0; pc = update s.pc k r.1 } else s

  -- All threads of the pool are about to look for work.
  abbrev pub start : State
  start = record {
    pool = record {
      queued = 0;
      num_tasks = 0;
      wake_requests = λ _. 1;
      woken = λ _. false;
      pushed = 0;
    };
    pc = λ k. if ltb k workers then load_num else running;
  }
