-- ===== src/CopyableFrame/Moves.antt =====
-- The agents of a copyable frame with a number of callers: what an access changes, and who can go on.
use concore2full.Base.{
  ℕ, ◌+◌, ◌<◌, ◌≤◌, ◌≡◌, refl, ap, ◌⊎◌, Bool, true, none, some, arith, ltb, if◌then◌else◌,
  update_same,
}
use concore2full.Sum.{sum}
use concore2full.CopyableFrame.{
  extracted, caller, Frame, AwaitPc, arrive, returned, WorkerPc, idle, State, await_at, execute_at,
  Agent, step,
}
use concore2full.CopyableFrame.Invariant.{FrameOk, AwaitOk, WorkerOk, Inv}
use concore2full.CopyableFrame.Progress.{await_left, worker_left}

-- The agents when there are `n` callers.
abbrev pub takes_part : ℕ → Agent → Bool
takes_part n (Agent.awaiter k) = ltb k n
takes_part n Agent.worker = true

abbrev pub Turn : ℕ → Agent → Type 0
Turn n a = takes_part n a ≡ true

-- A step of one of them.
unfoldable pub step_of : (n v : ℕ) → Agent → State → State
step_of n v a s = if takes_part n a then step v a s else s

abbrev pub arrived : AwaitPc → ℕ
arrived arrive = 0
arrived _ = 1

-- The invariant of the frame; `awaiters_count_` counts the callers that have arrived, and no others
-- have.
pub record Called (n v : ℕ) (s : State) : Type 0 where
  pub inv : Inv v s
  pub count : s.frame.arrivals ≡ sum n (λ k. arrived (s.awaiter k))
  pub outside : (k : ℕ) → n ≤ k → s.awaiter k ≡ arrive

pub await_at-arrived :
    (v k : ℕ) (p : AwaitPc) (f : Frame)
    → (await_at v k p f).0.arrivals + arrived p ≡ f.arrivals + arrived (await_at v k p f).1
unfolding await_at
await_at-arrived v k arrive f = ground arith
await_at-arrived v k _ f = ground arith

-- An access leaves all as it is, or brings the thread nearer to its end.
pub await_moves :
    (v k : ℕ) (p : AwaitPc) (f : Frame)
    → (await_at v k p f ≡ (f, p)) ⊎ (await_left (await_at v k p f).1 < await_left p)
unfolding await_at
await_moves v k arrive f = ground arith
await_moves v k _ f = ground arith

pub worker_moves :
    (v : ℕ) (w : WorkerPc) (f : Frame)
    → (execute_at v w f ≡ (f, w)) ⊎ (worker_left (execute_at v w f).1 < worker_left w)
unfolding execute_at
worker_moves v idle f = ground arith
worker_moves v _ f = ground arith

-- When no caller has anything left to do, the worker goes on, or has nothing to do either.
abbrev pub WorkerDone : WorkerPc → Frame → Type 0
WorkerDone w f = (worker_left w ≡ 0) ⊎ ((w ≡ idle) × (f.task ≡ extracted))

pub none_left :
    (v : ℕ) (w : WorkerPc) (f : Frame)
    → FrameOk v f
    → WorkerOk v w f
    → f.first ≡ none
    → WorkerDone w f ⊎ (worker_left (execute_at v w f).1 < worker_left w)
unfolding execute_at
none_left v idle f o q e = ground arith
none_left v _ f o q e = ground arith

pub first_left :
    (v k : ℕ) (p : AwaitPc) (w : WorkerPc) (f : Frame)
    → FrameOk v f
    → AwaitOk v k p f
    → WorkerOk v w f
    → f.first ≡ some k
    → await_left p ≡ 0
    → WorkerDone w f ⊎ (worker_left (execute_at v w f).1 < worker_left w)
unfolding execute_at
first_left v k arrive idle f o p q e d = ground arith
first_left v k _ _ f o p q e d = ground arith

-- A caller that has nothing left to do has returned, when the worker has nothing left either.
pub ends-Returned :
    (v k : ℕ) (p : AwaitPc) (w : WorkerPc) (f : Frame)
    → AwaitOk v k p f
    → WorkerOk v w f
    → await_left p ≡ 0
    → WorkerDone w f
    → (p ≡ returned) ⊎ (w ≡ WorkerPc.jump (some (caller k)))
ends-Returned v k arrive idle f p q d e = ground arith
ends-Returned v k _ _ f p q d e = ground arith

pub await_done : (v k : ℕ) (p : AwaitPc) (f : Frame) → await_left p ≡ 0 → await_at v k p f ≡ (f, p)
unfolding await_at
await_done v k arrive f d = cc
await_done v k _ f d = ground arith

pub worker_done : (v : ℕ) (w : WorkerPc) (f : Frame) → WorkerDone w f → execute_at v w f ≡ (f, w)
unfolding execute_at
worker_done v idle f d = ground arith
worker_done v _ f d = ground arith

pub arrived_le : (p : AwaitPc) → arrived p ≤ 1
arrived_le arrive = ground arith
arrived_le _ = ground arith

pub await_left_le : (p : AwaitPc) → await_left p ≤ 9
await_left_le arrive = ground arith
await_left_le _ = ground arith

pub worker_left_le : (w : WorkerPc) → worker_left w ≤ 9
worker_left_le idle = ground arith
worker_left_le _ = ground arith

-- A step that changes neither the frame nor the place of the thread changes nothing.
pub await_same :
    (v k : ℕ) (s : State)
    → await_at v k (s.awaiter k) s.frame ≡ (s.frame, s.awaiter k)
    → step v (Agent.awaiter k) s ≡ s
unfolding step
await_same v k s e = rw e (ap (λ g. record s { awaiter = g }) (update_same s.awaiter k))

pub worker_same :
    (v : ℕ) (s : State)
    → execute_at v s.worker s.frame ≡ (s.frame, s.worker)
    → step v Agent.worker s ≡ s
unfolding step
worker_same v s e = rw e refl
