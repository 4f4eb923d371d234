-- ===== src/Handover.antt =====
-- How the threads hand over tasks through the lines of `thread_pool` (src/thread_pool.cpp): `enqueue`,
-- `extract_task` and the search of `execute_work`, by any number of threads that interleave at each
-- critical section of a line and at each access to a counter. The lines are those of WorkLine, in
-- one memory; an operation under the lock of a line is one step. Sleeping and waking is in Wakeup.
pub mod Memory
pub mod Invariant
pub mod Effect
pub mod Access
pub mod Steps
pub mod Safety
pub mod Progress
mod Tests
use concore2full.Base.{
  ℕ, ◌+◌, ◌*◌, ◌%◌, Bool, true, false, ◌&&◌, ◌||◌, none, some, if◌then◌else◌, ◌==◌, ltb, update,
}
use concore2full.WorkLine
use concore2full.WorkLine.{Ptr, null, Mem, load, push_unprotected, try_push, try_pop}
use concore2full.ThreadPool.{u32, dec32, clear_links}

-- How far a task has come: no thread has called `enqueue` on it; a thread is in the call; it is on a
-- line; or a thread has popped or extracted it.
pub data Place : Type 0 where
  fresh : Place
  coming : (thread : ℕ) → Place
  on_line : (line : ℕ) → Place
  given_to : (thread : ℕ) → Place

-- `num_tasks` and `line_to_push_to` are 32-bit patterns. The code does not store `place`, nor `given`,
-- which counts how often a task was popped or extracted.
pub record Pool : Type 0 where
  pub mem : Mem
  pub num_tasks : ℕ
  pub line_to_push_to : ℕ
  pub place : Ptr → Place
  pub given : Ptr → ℕ

-- What a thread has come back with: nothing, a task to run, or the result of `extract_task`. The
-- thread has `refused t enqueued` if the result is false, where `enqueued` says that `t` had been
-- pushed when it made the call.
pub data Result : Type 0 where
  nothing : Result
  runs got : (task : Ptr) → Result
  refused : (task : Ptr) (enqueued : Bool) → Result

-- Where a thread stands: outside of these operations; in `enqueue`, up to `count_up` in `notify_one`;
-- in `extract_task`; or in the search of `execute_work`. A `fault` is an assertion that fails, or a
-- write through a null pointer.
pub data Pc : Type 0 where
  user : Result → Pc
  clear pick : (task : Ptr) → Pc
  try_line : (task : Ptr) (index i : ℕ) → Pc
  force_push : (task : Ptr) (index : ℕ) → Pc
  count_up : Pc
  read_line : (task : Ptr) (enqueued : Bool) → Pc
  lock_line : (task : Ptr) (line : ℕ) (enqueued : Bool) → Pc
  pop_line : (hint i : ℕ) → Pc
  down_got down_runs : (task : Ptr) → Pc
  fault : Pc

-- What a thread calls next, outside; and whether the lock that it needs is taken (`busy`).
pub data Choice : Type 0 where
  go busy : Choice
  enqueue extract : (task : Ptr) → Choice
  work : (hint : ℕ) → Choice

pub record State : Type 0 where
  pub pool : Pool
  pub pc : ℕ → Pc

abbrev pub is_fresh : Place → Bool
is_fresh fresh = true
is_fresh _ = false

-- The task has been pushed.
abbrev pub is_enqueued : Place → Bool
is_enqueued fresh = false
is_enqueued (coming _) = false
is_enqueued _ = true

abbrev pub is_busy : Choice → Bool
is_busy busy = true
is_busy _ = false

abbrev pub move : Ptr → Place → Mem → Pool → Pool
move t place m p = record p { mem = m; place = update p.place t place }

-- The thread `k` has taken the task off its line.
abbrev pub give : (k : ℕ) → Ptr → Mem → Pool → Pool
give k t m p = record p {
  mem = m;
  place = update p.place t (given_to k);
  given = update p.given t (p.given t + 1);
}

-- The assertions of `work_line::extract_task` on a task whose `worker_data_` is the line `v`.
abbrev pub asserted : (t : Ptr) (line v : ℕ) → Mem → Bool
asserted t line v m = (v == line) && (load m (m.task t).prev_link == t)

-- A call outside. A task is enqueued once, and is not null.
unfoldable pub begin : (k : ℕ) → Choice → Result → Pool → Pool × Pc
begin k (enqueue t) r p =
    if is_fresh (p.place t) && (if t == null then false else true)
    then (record p { place = update p.place t (coming k) }, clear t)
    else (p, user r)
begin k (extract t) r p = (p, read_line t (is_enqueued (p.place t)))
begin k (work hint) r p = (p, pop_line hint 0)
begin k _ r p = (p, user r)

-- `work_line::extract_task`, by the thread `k`, which has the lock of the line.
unfoldable pub extract_locked : (k : ℕ) → Ptr → (line : ℕ) → Bool → Pool → Pool × Pc
unfolding WorkLine.extract_task
extract_locked k t line enqueued p = elim ((p.mem.task t).worker_data) [
  | none ↦ (p, user (refused t enqueued))
  | some v ↦
      if asserted t line v p.mem
      then (elim (WorkLine.extract_task t p.mem) [
        | none ↦ (p, fault)
        | some (res, m) ↦ if res then (give k t m p, down_got t) else (p, user (refused t enqueued))
      ])
      else (p, fault)
]

-- A round of the loop of `enqueue` over the lines.
abbrev pub try_one : (count : ℕ) → Choice → Ptr → (index i : ℕ) → Pool → Pool × Pc
try_one count c t index i p =
    let w = (index + i) % count in
    let r = try_push (is_busy c) w t p.mem in
    if i == count
    then (p, force_push t index)
    else (if r.0 then (move t (on_line w) r.1 p, count_up) else (p, try_line t index (i + 1)))

-- A round of the loop of `execute_work` over the lines, by the thread `k`.
abbrev pub pop_one : (count k : ℕ) → Choice → (hint i : ℕ) → Pool → Pool × Pc
pop_one count k c hint i p =
    let w = (i + hint) % count in
    let r = try_pop (is_busy c) w p.mem in
    if i == 2 * count
    then (p, user nothing)
    else (if r.0 == null then (p, pop_line hint (i + 1)) else (give k r.0 r.1 p, down_runs r.0))

-- One step of the thread `k`, in a pool with `count` lines.
unfoldable pub access : (count k : ℕ) → Choice → Pc → Pool → Pool × Pc
unfolding begin extract_locked try_push push_unprotected try_pop
access count k c (user r) p = begin k c r p
access count k c (clear t) p = (record p { mem = clear_links t p.mem }, pick t)
access count k c (pick t) p = (
  record p { line_to_push_to = u32 (p.line_to_push_to + 1) },
  try_line t (p.line_to_push_to % count) 0,
)
access count k c (try_line t index i) p = try_one count c t index i p
access count k c (force_push t index) p =
    let w = index % count in
    if is_busy c
    then (p, force_push t index)
    else (move t (on_line w) (push_unprotected w t p.mem) p, count_up)
access count k c count_up p = (record p { num_tasks = u32 (p.num_tasks + 1) }, user nothing)
access count k c (read_line t enqueued) p = elim ((p.mem.task t).worker_data) [
  | none ↦ (p, user (refused t enqueued))
  | some w ↦ (p, lock_line t w enqueued)
]
access count k c (lock_line t w enqueued) p =
    if is_busy c then (p, lock_line t w enqueued) else extract_locked k t w enqueued p
access count k c (pop_line hint i) p = pop_one count k c hint i p
access count k c (down_got t) p = (record p { num_tasks = dec32 p.num_tasks }, user (got t))
access count k c (down_runs t) p = (record p { num_tasks = dec32 p.num_tasks }, user (runs t))
access count k c fault p = (p, fault)

-- The thread `k` makes a step, if there is such a thread.
unfoldable pub step : (count threads : ℕ) → ℕ × Choice → State → State
unfolding access
step count threads (k, c) s =
    let r = access count k c (s.pc k) s.pool in
    if ltb k threads then record s { pool = r.0; pc = update s.pc k r.1 } else s

-- The pool over memory in which no line holds a task; all threads are outside.
abbrev pub start : Mem → State
start m = record {
  pool = record { mem = m; num_tasks = 0; line_to_push_to = 0; place = λ _. fresh; given = λ _. 0 };
  pc = λ _. user nothing;
}
