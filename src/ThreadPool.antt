-- ===== src/ThreadPool.antt =====
-- `class thread_pool` (include/concore2full/thread_pool.h, src/thread_pool.cpp) over its work
-- lines. What other threads do meanwhile enters as arguments: which locks are taken, and which
-- stop requests have been made. `int` counters are 32-bit patterns.
pub mod Count
pub mod Enqueue
pub mod Bulk
pub mod Notify
pub mod Slots
pub mod Work
pub mod Lifecycle
mod Tests
use concore2full.Base.{
  ℕ, zero, suc, ◌+◌, ◌-◌, ◌*◌, ◌%◌, ◌^◌, max, Bool, true, false, ◌||◌, Option, none, some, List, [],
  ◌∷◌, ◌==◌, leb, ltb, if◌then◌else◌, length,
}
use concore2full.WorkLine.{
  Ptr, null, Link, nowhere, Mem, set_next, set_prev_link, push_unprotected, try_push, try_pop,
}
use concore2full.WorkLine

abbrev pub u32 : ℕ → ℕ
u32 n = n % 2 ^ 32

-- `fetch_sub(1)` on a 32-bit pattern.
abbrev pub dec32 : ℕ → ℕ
dec32 n = (n + 2 ^ 32 - 1) % 2 ^ 32

-- `a <= int(n)` for a 32-bit pattern `a`, which is negative from `2 ^ 31` on.
abbrev pub le_int : ℕ → ℕ → Bool
le_int a n = leb (2 ^ 31) a || leb a n

-- `thread_sleep_data`; the token names the thread that it wakes up.
pub record SleepData : Type 0 where
  pub wakeup_token : Option ℕ
  pub wake_requests : ℕ
  pub work_line_start_index : ℕ

abbrev pub fresh_sleep_data : SleepData
fresh_sleep_data = record { wakeup_token = none; wake_requests = 1; work_line_start_index = 0 }

-- `free_sleep_objects` has the back of the vector first. `woken` lists the wake-ups of threads
-- that were made, the last one first; `none` is a notification that had no thread to wake.
pub record ThreadPool : Type 0 where
  pub mem : Mem
  pub work_line_count : ℕ
  pub num_tasks : ℕ
  pub line_to_push_to : ℕ
  pub global_shutdown : Bool
  pub sleep_objects : List SleepData
  pub free_sleep_objects : List ℕ
  pub threads : ℕ
  pub woken : List (Option ℕ)

abbrev pub replicate {ℓ} : {A : Type ℓ} → ℕ → A → List A
replicate zero x = []
replicate (suc n) x = x ∷ replicate n x

-- The loop that frees the sleep objects `thread_count + i`, after `n` rounds.
unfoldable pub free_slots : ℕ → ℕ → List ℕ
free_slots thread_count zero = []
free_slots thread_count (suc n) = (thread_count + n) ∷ free_slots thread_count n

-- The constructor, over given memory in which no line holds a task.
unfoldable pub make : Mem → ℕ → ThreadPool
unfolding free_slots
make m thread_count = record {
  mem = m;
  work_line_count = thread_count + 1;
  num_tasks = 0;
  line_to_push_to = 0;
  global_shutdown = false;
  sleep_objects = replicate (thread_count + max 4 thread_count) fresh_sleep_data;
  free_sleep_objects = free_slots thread_count thread_count;
  threads = thread_count;
  woken = [];
}

-- `thread_sleep_data::try_notify`: the object, and whether it called `wakeup_token_.notify()`.
unfoldable pub try_notify : ℕ → SleepData → SleepData × Bool
try_notify hint d =
    let d' = record d { wake_requests = u32 (d.wake_requests + 1) } in
    if d.wake_requests == 0 then (record d' { work_line_start_index = hint }, true) else (d', false)

-- `thread_sleep_data::sleep` up to the wait: `thread` is the caller; the result says whether it
-- goes to sleep.
unfoldable pub sleep_begin : (thread : ℕ) → (stop_requested : Bool) → SleepData → SleepData × Bool
sleep_begin thread stop_requested d = (
  record d { wakeup_token = some thread; wake_requests = dec32 d.wake_requests },
  if d.wake_requests == 1 then (if stop_requested then false else true) else false,
)

-- The rest of `sleep`, which returns the line to start from.
unfoldable pub sleep_end : SleepData → SleepData × ℕ
sleep_end d = (record d { wake_requests = 1 }, d.work_line_start_index)

-- The loop of `notify_one`: the objects, and the token of the one that was notified, if any.
unfoldable pub notify_first : ℕ → List SleepData → List SleepData × Option (Option ℕ)
unfolding try_notify
notify_first hint [] = ([], none)
notify_first hint (d ∷ ds) =
    let rest = notify_first hint ds in
    let r = try_notify hint d in
    if r.1 then (r.0 ∷ ds, some d.wakeup_token) else (r.0 ∷ rest.0, rest.1)

abbrev pub note : Option (Option ℕ) → List (Option ℕ) → List (Option ℕ)
note none log = log
note (some token) log = token ∷ log

unfoldable pub notify_one : ℕ → ThreadPool → ThreadPool
unfolding notify_first
notify_one work_line_hint p =
    let p' = record p { num_tasks = u32 (p.num_tasks + 1) } in
    if le_int p.num_tasks (length p.sleep_objects)
    then (let r = notify_first work_line_hint p.sleep_objects in
        record p' { sleep_objects = r.0; woken = note r.1 p.woken })
    else p'

-- The loop of `enqueue` over the lines, with `left` rounds left: the line that took the task.
-- `busy i` says whether the lock is taken in round `i`.
unfoldable pub push_loop :
    (busy : ℕ → Bool) (index count : ℕ) (task : Ptr) (left i : ℕ) → Mem → Option (ℕ × Mem)
unfolding try_push
push_loop busy index count task zero i m = none
push_loop busy index count task (suc left) i m =
    let current_index = (index + i) % count in
    let r = try_push (busy i) current_index task m in
    let rest = push_loop busy index count task left (i + 1) r.1 in
    if r.0 then some (current_index, r.1) else rest

abbrev pub clear_links : Ptr → Mem → Mem
clear_links t m = set_prev_link t nowhere (set_next t null m)

unfoldable pub enqueue : (busy : ℕ → Bool) → Ptr → ThreadPool → ThreadPool
unfolding push_loop notify_one push_unprotected
enqueue busy task p =
    let m = clear_links task p.mem in
    let count = p.work_line_count in
    let index = p.line_to_push_to % count in
    let p' = record p { line_to_push_to = u32 (p.line_to_push_to + 1) } in
    elim (push_loop busy index count task count 0 m) [
      | some (w, m') ↦ notify_one w (record p' { mem = m' })
      | none ↦
          notify_one (index % count) (record p' { mem = push_unprotected (index % count) task m })
    ]

-- `enqueue_bulk` on the tasks of an array, in order; `busy k` says which locks are taken when it
-- comes to the task `k`.
unfoldable pub enqueue_bulk : (busy : ℕ → ℕ → Bool) → List Ptr → ThreadPool → ThreadPool
unfolding enqueue
enqueue_bulk busy [] p = p
enqueue_bulk busy (task ∷ rest) p = enqueue_bulk (λ k. busy (k + 1)) rest (enqueue (busy 0) task p)

-- `thread_pool::extract_task`; `none` is a fault.
unfoldable pub extract_task : Ptr → ThreadPool → Option (Bool × ThreadPool)
unfolding WorkLine.extract_task
extract_task task p = elim ((p.mem.task task).worker_data) [
  | none ↦ some (false, p)
  | some _ ↦ elim (WorkLine.extract_task task p.mem) [
    | none ↦ none
    | some (res, m) ↦ some (
      res,
      if res then record p { mem = m; num_tasks = dec32 p.num_tasks } else record p { mem = m },
    )
  ]
]

-- Where `offer_help_until` takes a sleep object, and where it gives it back.
unfoldable pub take_slot : ThreadPool → Option ℕ × ThreadPool
take_slot p = elim (p.free_sleep_objects) [
  | [] ↦ (none, p)
  | i ∷ rest ↦ (some i, record p { free_sleep_objects = rest })
]

unfoldable pub give_slot : ℕ → ThreadPool → ThreadPool
give_slot i p = record p { free_sleep_objects = i ∷ p.free_sleep_objects }

notify_all : List SleepData → List SleepData
unfolding try_notify
notify_all [] = []
notify_all (d ∷ ds) = (try_notify 0 d).0 ∷ notify_all ds

tokens : List SleepData → List (Option ℕ) → List (Option ℕ)
unfolding try_notify
tokens [] log = log
tokens (d ∷ ds) log = tokens ds (if (try_notify 0 d).1 then d.wakeup_token ∷ log else log)

-- `join`, once the threads have ended.
unfoldable pub join : ThreadPool → ThreadPool
unfolding notify_all tokens
join p = record p {
  global_shutdown = true;
  sleep_objects = notify_all p.sleep_objects;
  woken = tokens p.sleep_objects p.woken;
  threads = 0;
}

-- The loop of `execute_work` over the lines, with `left` rounds left: the task, null if there is
-- none, its line, and the memory.
unfoldable pub pop_loop : (busy : ℕ → Bool) (hint count left i line_index : ℕ) → Mem → Ptr × ℕ × Mem
unfolding try_pop
pop_loop busy hint count zero i line_index m = (null, line_index, m)
pop_loop busy hint count (suc left) i line_index m =
    let w = (i + hint) % count in
    let r = try_pop (busy i) w m in
    let rest = pop_loop busy hint count left (i + 1) w r.1 in
    if r.0 == null then rest else (r.0, w, r.1)

-- Lines 335 to 349 of `execute_work`.
unfoldable pub pop_task : (busy : ℕ → Bool) (hint : ℕ) → ThreadPool → Ptr × ℕ × ThreadPool
unfolding pop_loop
pop_task busy hint p =
    let r = pop_loop busy hint p.work_line_count (2 * p.work_line_count) 0 0 p.mem in
    let p' = record p { mem = r.2 } in
    (r.0, r.1, if r.0 == null then p' else record p' { num_tasks = dec32 p.num_tasks })

-- What a round of `execute_work` comes to; each names the line to start from next.
pub data Round : Type 0 where
  stopped : Round
  again : (hint : ℕ) → Round
  ran : (task : Ptr) (line_index : ℕ) (hint : ℕ) → Round

-- A round of `execute_work`. `sleep` is what happens to the pool until the thread wakes up, with
-- the line that it is told to start from; `stop` and `stop_later` are the two tests of the stop
-- request.
unfoldable pub work_round :
    (stop stop_later : Bool) (sleep : ThreadPool → ℕ × ThreadPool) (busy : ℕ → Bool) (hint : ℕ)
    → ThreadPool
    → Round × ThreadPool
work_round stop stop_later sleep busy hint p =
    if stop
    then (stopped, p)
    else (let (hint', p') = if p.num_tasks == 0 then sleep p else (hint, p) in
        if stop_later
        then (stopped, p')
        else (let r = pop_task busy hint' p' in
            (if r.0 == null then again hint' else ran r.0 r.1 hint', r.2)))
