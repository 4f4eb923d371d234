-- ===== src/Handover/Invariant.antt =====
-- The invariant of the hand-over of tasks, and what one step may change.
use concore2full.Base.{
  ℕ, ◌+◌, ◌%◌, ◌^◌, ◌<◌, ◌≡◌, ◌≢◌, ◌⊎◌, Bool, true, false, Option, none, some, List, update,
}
use concore2full.Sum.{sum}
use concore2full.WorkLine.{Ptr, null}
use concore2full.WorkLine.Lines.{IsPool}
use concore2full.ThreadPool.{u32, dec32}
use concore2full.ThreadPool.Count.{total}
use concore2full.Handover.{
  Place, fresh, coming, on_line, given_to, Pool, Result, nothing, runs, got, refused, Pc, user,
  clear, pick, try_line, force_push, count_up, read_line, lock_line, pop_line, down_got, down_runs,
  fault, State, is_enqueued,
}
use concore2full.Handover.Memory.{worker_data}

abbrev pub line_of : Place → Option ℕ
line_of (on_line w) = some w
line_of _ = none

abbrev pub is_given : Place → Bool
is_given (given_to _) = true
is_given _ = false

abbrev pub times : Place → ℕ
times (given_to _) = 1
times _ = 0

abbrev pub ResultOk : (k : ℕ) → Result → Pool → Type 0
ResultOk k nothing p = Unit
ResultOk k (runs t) p = p.place t ≡ given_to k
ResultOk k (got t) p = p.place t ≡ given_to k
ResultOk k (refused t enqueued) p = enqueued ≡ true → is_given (p.place t) ≡ true

abbrev pub PcOk : (count k : ℕ) → Pc → Pool → Type 0
PcOk count k (user r) p = ResultOk k r p
PcOk count k (clear t) p = (p.place t ≡ coming k) × (t ≢ null)
PcOk count k (pick t) p = (p.place t ≡ coming k) × (t ≢ null)
PcOk count k (try_line t index i) p = (p.place t ≡ coming k) × (t ≢ null)
PcOk count k (force_push t index) p = (p.place t ≡ coming k) × (t ≢ null)
PcOk count k count_up p = Unit
PcOk count k (read_line t enqueued) p = enqueued ≡ true → is_enqueued (p.place t) ≡ true
PcOk count k (lock_line t w enqueued) p =
    (w < count) × ((p.place t ≡ on_line w) ⊎ (is_given (p.place t) ≡ true))
PcOk count k (pop_line hint i) p = Unit
PcOk count k (down_got t) p = p.place t ≡ given_to k
PcOk count k (down_runs t) p = p.place t ≡ given_to k
PcOk count k fault p = ⊥

-- The task that a thread is about to put on a line.
abbrev pub brings : Pc → Option Ptr
brings (clear t) = some t
brings (pick t) = some t
brings (try_line t index i) = some t
brings (force_push t index) = some t
brings _ = none

-- The thread has pushed a task that is not counted yet, or has taken one that still is.
abbrev pub uncounted : Pc → ℕ
uncounted count_up = 1
uncounted _ = 0

abbrev pub overcounted : Pc → ℕ
overcounted (down_got _) = 1
overcounted (down_runs _) = 1
overcounted _ = 0

-- The lines hold the tasks `lines`; `worker_data_` says of each task the line on which it is.
pub record Lines (count : ℕ) (p : Pool) (lines : ℕ → List Ptr) : Type 0 where
  pub is_pool : IsPool p.mem lines
  pub placed : (t : Ptr) → worker_data p.mem t ≡ line_of (p.place t)
  pub in_range : (t : Ptr) (w : ℕ) → p.place t ≡ on_line w → w < count
  pub given : (t : Ptr) → p.given t ≡ times (p.place t)

-- What the thread `k` changes in one step: nothing that counts; it begins to enqueue a task; it puts
-- that on a line; or it takes a task off a line.
abbrev pub Change : (count k : ℕ) (p q : Pool) (before after : ℕ) → Type 0
Change count k p q before after =
    ((q.place ≡ p.place) × (q.given ≡ p.given) × (after ≡ before))
    ⊎ ((t : Ptr) × (p.place t ≡ fresh)
        × (q.place ≡ update p.place t (coming k))
        × (q.given ≡ p.given)
        × (after ≡ before))
    ⊎ ((t : Ptr) × (w : ℕ) × (p.place t ≡ coming k)
        × (w < count)
        × (q.place ≡ update p.place t (on_line w))
        × (q.given ≡ p.given)
        × (after ≡ before + 1))
    ⊎ ((t : Ptr) × (w : ℕ) × (p.place t ≡ on_line w)
        × (q.place ≡ update p.place t (given_to k))
        × (q.given ≡ update p.given t (p.given t + 1))
        × (after + 1 ≡ before))

-- How `num_tasks_` goes along with it.
abbrev pub Balance : (x y : Pc) (p q : Pool) (before after : ℕ) → Type 0
Balance x y p q before after =
    ((q.num_tasks ≡ p.num_tasks)
      × (uncounted y + before + overcounted x ≡ uncounted x + after + overcounted y))
    ⊎ ((q.num_tasks ≡ u32 (p.num_tasks + 1))
        × (uncounted x ≡ uncounted y + 1)
        × (before ≡ after)
        × (overcounted x ≡ overcounted y))
    ⊎ ((q.num_tasks ≡ dec32 p.num_tasks)
        × (overcounted x ≡ overcounted y + 1)
        × (before ≡ after)
        × (uncounted x ≡ uncounted y))

pub record Inv (count threads : ℕ) (s : State) : Type 0 where
  pub lines : ℕ → List Ptr
  pub in_order : Lines count s.pool lines
  pub threads_ok : (k : ℕ) → PcOk count k (s.pc k) s.pool
  pub brought : (t : Ptr) (k : ℕ) → s.pool.place t ≡ coming k → brings (s.pc k) ≡ some t
  pub counted :
      (s.pool.num_tasks + sum threads (λ k. uncounted (s.pc k))) % 2 ^ 32
      ≡ (total count lines + sum threads (λ k. overcounted (s.pc k))) % 2 ^ 32
