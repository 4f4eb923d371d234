-- ===== src/BulkFrame/Invariant.antt =====
-- What holds at each place where the threads of a bulk frame can stand.
use concore2full.Base.{ℕ, ◌+◌, ◌<◌, ◌≤◌, ◌^◌, ◌≡◌, ◌≢◌, some}
use concore2full.BulkFrame.{
  cont, queued, popped, extracted, Frame, Pc, idle, occupy, store_cont, run_task, check, returned,
  try_task, in_occupy, in_store, in_run, in_finalize, store_await, extract, wait_slot, read_slot,
  finalize, wait_final, State,
}
use concore2full.Sum.{sum}

-- What holds of a task, or of `await`.
abbrev pub TaskOk : ℕ → Frame → Type 0
TaskOk i f =
    (f.settled i ≤ 1)
    × (f.settled i ≡ 1 → i < f.count → f.ran i ≡ 1)
    × (f.place i ≡ queued → (i < f.count) × (f.settled i ≡ 0) × (f.ran i ≡ 0))

-- A slot other than the last does not hold the continuation of `await`.
abbrev pub SlotOk : ℕ → Frame → Type 0
SlotOk x f = f.threads x ≡ cont f.count → x ≡ f.count

-- A thread that has run its task and has not yet left the frame.
abbrev pub Ready : ℕ → Frame → Type 0
Ready k f = (k ≤ f.count) × (f.settled k ≡ 0) × (k < f.count → (f.place k ≡ popped) × (f.ran k ≡ 1))

abbrev pub PcOk : ℕ → Pc → Frame → Type 0
PcOk k idle f = (f.place k ≢ popped) × (k ≢ f.count)
PcOk k occupy f = (k < f.count) × (f.place k ≡ popped) × (f.settled k ≡ 0) × (f.ran k ≡ 0)
PcOk k (store_cont own) f = (k < f.count) × (f.place k ≡ popped) × (f.settled k ≡ 0) × (f.ran k ≡ 0)
PcOk k (run_task own) f = (k < f.count) × (f.place k ≡ popped) × (f.settled k ≡ 0) × (f.ran k ≡ 0)
PcOk k check f = (k ≡ f.count) × (f.settled k ≡ 0)
PcOk k returned f = (k ≡ f.count) × (f.settled k ≡ 0)
PcOk k (try_task i) f = (k ≡ f.count) × (f.settled k ≡ 0) × (i ≤ f.count)
PcOk k (in_occupy i) f =
    (k ≡ f.count)
    × (f.settled k ≡ 0)
    × (i < f.count)
    × (f.place i ≡ extracted)
    × (f.settled i ≡ 0)
    × (f.ran i ≡ 0)
PcOk k (in_store i slot) f =
    (k ≡ f.count)
    × (f.settled k ≡ 0)
    × (i < f.count)
    × (f.place i ≡ extracted)
    × (f.settled i ≡ 0)
    × (f.ran i ≡ 0)
PcOk k (in_run i) f =
    (k ≡ f.count)
    × (f.settled k ≡ 0)
    × (i < f.count)
    × (f.place i ≡ extracted)
    × (f.settled i ≡ 0)
    × (f.ran i ≡ 0)
PcOk k (in_finalize i) f =
    (k ≡ f.count)
    × (f.settled k ≡ 0)
    × (i < f.count)
    × (f.place i ≡ extracted)
    × (f.settled i ≡ 0)
    × (f.ran i ≡ 1)
PcOk k store_await f = (k ≡ f.count) × (f.settled k ≡ 0)
PcOk k (extract own) f = Ready k f × (k ≡ f.count → own ≡ f.count)
PcOk k (wait_slot own index) f =
    Ready k f × (k ≡ f.count → own ≡ f.count) × (f.owner index ≡ some k) × (index < f.completions)
PcOk k (read_slot own index) f =
    Ready k f × (k ≡ f.count → own ≡ f.count) × (f.owner index ≡ some k) × (index < f.completions)
PcOk k (finalize own index next) f =
    Ready k f
    × (f.owner index ≡ some k)
    × (index < f.completions)
    × (next ≡ cont f.count → index ≡ f.count)
PcOk k (wait_final next) f =
    (k ≤ f.count)
    × (f.settled k ≡ 1)
    × (k < f.count → f.place k ≡ popped)
    × (f.owner f.count ≡ some k)
    × (f.count < f.completions)
PcOk k (Pc.jump next) f =
    (k ≤ f.count)
    × (f.settled k ≡ 1)
    × (k < f.count → f.place k ≡ popped)
    × (next ≡ cont f.count
        → (f.finalized ≡ f.count + 1) × (f.owner f.count ≡ some k) × (f.count < f.completions))

-- The last two say that the frame is that of `spawn` for `count` tasks, which are fewer than 2^31.
pub record Inv (count : ℕ) (s : State) : Type 0 where
  pub thread : (k : ℕ) → PcOk k (s.thread k) s.frame
  pub task : (i : ℕ) → TaskOk i s.frame
  pub slot : (x : ℕ) → SlotOk x s.frame
  pub finalized : s.frame.finalized ≡ sum (s.frame.count + 1) s.frame.settled
  pub same : s.frame.count ≡ count
  pub small : s.frame.count < 2 ^ 31
