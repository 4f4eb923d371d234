-- ===== src/CopyableFrame/Invariant.antt =====
-- What holds at each place where the threads of a copyable frame can stand.
use concore2full.Base.{ℕ, ◌≡◌, ◌≢◌, ◌⊎◌, some, none, Option, Bool, true, false}
use concore2full.CopyableFrame.{
  SyncState, initial_state, async_started, async_finishing, main_finishing, main_finished, all_done,
  queued, popped, extracted, caller, thread_cont, Frame, AwaitPc, arrive, load_state, extract,
  inplace_run, inplace_done, inplace_notify, wait_started, exchange, store_first, read_secondary,
  store_finished, wait_done, late_load, late_suspend, returned, WorkerPc, idle, store_secondary,
  store_started, run_task, complete, async_notify, async_done, wait_main, main_done, main_notify,
  read_first, State, Cont,
}

-- The task has run, once, and has left its value.
pub record Ran (v : ℕ) (f : Frame) : Type 0 where
  pub once : f.runs ≡ 1
  pub value : f.value ≡ some v

-- The first awaiter has not touched the state.
abbrev pub Untouched : SyncState → Type 0
Untouched main_finishing = ⊥
Untouched main_finished = ⊥
Untouched _ = Unit

-- The worker has started, and has not finished first.
abbrev pub Going : SyncState → Type 0
Going async_started = Unit
Going main_finishing = Unit
Going main_finished = Unit
Going _ = ⊥

abbrev pub Finished : SyncState → Type 0
Finished main_finished = Unit
Finished all_done = Unit
Finished _ = ⊥

-- The worker has finished first.
abbrev pub First : SyncState → Type 0
First async_finishing = Unit
First all_done = Unit
First _ = ⊥

abbrev pub is_set : Option Cont → Bool
is_set none = false
is_set (some _) = true

-- What holds of the frame alone.
abbrev pub FrameOk : ℕ → Frame → Type 0
FrameOk v f =
    (f.sync_state ≡ all_done → Ran v f)
    × (f.notified ≡ true → Ran v f)
    × (f.sync_state ≡ main_finished → is_set f.first_await ≡ true)
    × (f.arrivals ≡ 0 → f.first ≡ none)
    × (f.first ≡ none
        → (f.arrivals ≡ 0) × (f.task ≢ extracted) × Untouched f.sync_state × (f.first_await ≡ none))

abbrev pub AwaitOk : (v k : ℕ) → AwaitPc → Frame → Type 0
AwaitOk v k arrive f = (f.first_await ≢ some (caller k)) × (f.first ≢ some k)
AwaitOk v k load_state f =
    (f.first ≡ some k) × (f.task ≢ extracted) × Untouched f.sync_state × (f.first_await ≡ none)
AwaitOk v k extract f =
    (f.first ≡ some k) × (f.task ≢ extracted) × Untouched f.sync_state × (f.first_await ≡ none)
AwaitOk v k inplace_run f =
    (f.first ≡ some k)
    × (f.task ≡ extracted)
    × (f.sync_state ≡ initial_state)
    × (f.first_await ≡ none)
    × (f.runs ≡ 0)
AwaitOk v k inplace_done f =
    (f.first ≡ some k)
    × (f.task ≡ extracted)
    × (f.sync_state ≡ initial_state)
    × (f.first_await ≡ none)
    × Ran v f
AwaitOk v k inplace_notify f =
    (f.first ≡ some k)
    × (f.task ≡ extracted)
    × (f.sync_state ≡ all_done)
    × (f.first_await ≡ none)
    × Ran v f
AwaitOk v k wait_started f =
    (f.first ≡ some k) × (f.task ≡ popped) × Untouched f.sync_state × (f.first_await ≡ none)
AwaitOk v k exchange f =
    (f.first ≡ some k)
    × (f.task ≡ popped)
    × Untouched f.sync_state
    × (f.first_await ≡ none)
    × (f.sync_state ≢ initial_state)
AwaitOk v k store_first f =
    (f.first ≡ some k)
    × (f.task ≡ popped)
    × (f.sync_state ≡ main_finishing)
    × (f.first_await ≡ none)
AwaitOk v k read_secondary f =
    (f.first ≡ some k)
    × (f.task ≡ popped)
    × (f.sync_state ≡ main_finishing)
    × (f.first_await ≡ some (caller k))
AwaitOk v k (store_finished c) f =
    (f.first ≡ some k)
    × (f.task ≡ popped)
    × (f.sync_state ≡ main_finishing)
    × (f.first_await ≡ some (caller k))
    × (c ≡ some thread_cont)
AwaitOk v k wait_done f =
    (f.first ≡ some k) × (f.task ≡ popped) × First f.sync_state × (f.first_await ≡ none)
AwaitOk v k late_load f = (f.first_await ≢ some (caller k)) × (f.first ≢ some k) × (f.first ≢ none)
AwaitOk v k late_suspend f =
    (f.first_await ≢ some (caller k)) × (f.first ≢ some k) × (f.first ≢ none)
AwaitOk v k (AwaitPc.jump c) f =
    (f.first ≡ some k)
    × (f.task ≡ popped)
    × Finished f.sync_state
    × (f.first_await ≡ some (caller k))
    × (c ≡ some thread_cont)
AwaitOk v k returned f =
    Ran v f
    × (f.first_await ≢ some (caller k))
    × (f.first ≢ none)
    × (f.first ≡ some k
        → (f.task ≢ queued)
          × (f.sync_state ≡ all_done)
          × (f.first_await ≡ none)
          × (f.notified ≡ true))

abbrev pub WorkerOk : ℕ → WorkerPc → Frame → Type 0
WorkerOk v idle f =
    (f.task ≢ popped)
    × (f.first_await ≡ none)
    × (f.task ≡ queued → (f.runs ≡ 0) × (f.sync_state ≡ initial_state))
WorkerOk v store_secondary f =
    (f.task ≡ popped) × (f.sync_state ≡ initial_state) × (f.runs ≡ 0) × (f.first_await ≡ none)
WorkerOk v store_started f =
    (f.task ≡ popped)
    × (f.sync_state ≡ initial_state)
    × (f.runs ≡ 0)
    × (f.first_await ≡ none)
    × (f.secondary_thread ≡ some thread_cont)
WorkerOk v run_task f =
    (f.task ≡ popped)
    × Going f.sync_state
    × (f.runs ≡ 0)
    × (f.secondary_thread ≡ some thread_cont)
    × (f.sync_state ≡ async_started → f.first_await ≡ none)
WorkerOk v complete f =
    (f.task ≡ popped)
    × Going f.sync_state
    × Ran v f
    × (f.secondary_thread ≡ some thread_cont)
    × (f.sync_state ≡ async_started → f.first_await ≡ none)
WorkerOk v async_notify f =
    (f.task ≡ popped) × (f.sync_state ≡ async_finishing) × Ran v f × (f.first_await ≡ none)
WorkerOk v async_done f =
    (f.task ≡ popped)
    × (f.sync_state ≡ async_finishing)
    × Ran v f
    × (f.first_await ≡ none)
    × (f.notified ≡ true)
WorkerOk v wait_main f =
    (f.task ≡ popped)
    × Going f.sync_state
    × (f.sync_state ≢ async_started)
    × Ran v f
    × (f.secondary_thread ≡ some thread_cont)
WorkerOk v main_done f =
    (f.task ≡ popped) × (f.sync_state ≡ main_finished) × Ran v f × (is_set f.first_await ≡ true)
WorkerOk v main_notify f =
    (f.task ≡ popped) × (f.sync_state ≡ all_done) × Ran v f × (is_set f.first_await ≡ true)
WorkerOk v read_first f =
    (f.task ≡ popped)
    × (f.sync_state ≡ all_done)
    × Ran v f
    × (f.notified ≡ true)
    × (is_set f.first_await ≡ true)
WorkerOk v (WorkerPc.jump c) f =
    (f.task ≡ popped)
    × (f.sync_state ≡ all_done)
    × Ran v f
    × (f.notified ≡ true)
    × (((c ≡ some thread_cont) × (f.first_await ≡ none))
        ⊎ ((c ≡ f.first_await) × (is_set f.first_await ≡ true)))

pub record Inv (v : ℕ) (s : State) : Type 0 where
  pub frame : FrameOk v s.frame
  pub awaiter : (k : ℕ) → AwaitOk v k (s.awaiter k) s.frame
  pub worker : WorkerOk v s.worker s.frame
