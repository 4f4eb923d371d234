-- ===== src/CopyableFrame/Progress.antt =====
-- How far the callers of `await` on a copyable frame, and the worker, are from their ends.
use concore2full.Base.{ℕ, ◌<◌, ◌≡◌, ◌≢◌, ◌⊎◌, inl, inr, Option, none, some, arith, ◌==◌, Bool-cases}
use concore2full.CopyableFrame.{
  Frame, AwaitPc, arrive, load_state, extract, inplace_run, inplace_done, inplace_notify,
  wait_started, exchange, store_first, read_secondary, store_finished, wait_done, late_load,
  late_suspend, returned, WorkerPc, idle, store_secondary, store_started, run_task, complete,
  async_notify, async_done, wait_main, main_done, main_notify, read_first, State, await_at,
  execute_at, Agent,
}
use concore2full.CopyableFrame.Invariant.{FrameOk, AwaitOk, WorkerOk, Inv}

-- An upper bound on the changing accesses that a caller of `await` has left.
abbrev pub await_left : AwaitPc → ℕ
await_left arrive = 9
await_left load_state = 8
await_left extract = 7
await_left wait_started = 6
await_left exchange = 5
await_left store_first = 4
await_left read_secondary = 3
await_left (store_finished _) = 2
await_left wait_done = 1
await_left inplace_run = 3
await_left inplace_done = 2
await_left inplace_notify = 1
await_left late_load = 2
await_left late_suspend = 1
await_left (AwaitPc.jump _) = 0
await_left returned = 0

-- The same for the worker.
abbrev pub worker_left : WorkerPc → ℕ
worker_left idle = 9
worker_left store_secondary = 8
worker_left store_started = 7
worker_left run_task = 6
worker_left complete = 5
worker_left async_notify = 2
worker_left async_done = 1
worker_left wait_main = 4
worker_left main_done = 3
worker_left main_notify = 2
worker_left read_first = 1
worker_left (WorkerPc.jump _) = 0

-- The next access of a thread brings it nearer to its end.
abbrev pub Advances : ℕ → Agent → State → Type 0
Advances v (Agent.awaiter k) s =
    await_left (await_at v k (s.awaiter k) s.frame).1 < await_left (s.awaiter k)
Advances v Agent.worker s = worker_left (execute_at v s.worker s.frame).1 < worker_left s.worker

first_moves :
    (v k : ℕ) (p : AwaitPc) (w : WorkerPc) (f : Frame)
    → FrameOk v f
    → AwaitOk v k p f
    → WorkerOk v w f
    → f.first ≡ some k
    → (await_left p ≡ 0)
      ⊎ (await_left (await_at v k p f).1 < await_left p)
      ⊎ (worker_left (execute_at v w f).1 < worker_left w)
unfolding await_at execute_at
first_moves v k arrive idle f o p q e = ground arith
first_moves v k _ _ f o p q e = ground arith

late_moves :
    (v k j : ℕ) (p q : AwaitPc) (w : WorkerPc) (f : Frame)
    → FrameOk v f
    → AwaitOk v k p f
    → AwaitOk v j q f
    → WorkerOk v w f
    → f.first ≡ some j
    → f.first ≢ some k
    → (await_left p ≡ 0)
      ⊎ (await_left (await_at v k p f).1 < await_left p)
      ⊎ (await_left (await_at v j q f).1 < await_left q)
      ⊎ (worker_left (execute_at v w f).1 < worker_left w)
unfolding await_at execute_at
late_moves v k j arrive arrive idle f o p q r e ne = ground arith
late_moves v k j _ _ _ f o p q r e ne = ground arith

early_moves :
    (v k : ℕ) (p : AwaitPc) (f : Frame)
    → AwaitOk v k p f
    → f.first ≡ none
    → await_left (await_at v k p f).1 < await_left p
unfolding await_at
early_moves v k arrive f p e = ground arith
early_moves v k _ f p e = ground arith

-- The agents that matter to the caller `k` have the property `P`.
module _ (v k : ℕ) (s : State) (inv : Inv v s) (P : Agent → Type 0) (own : P (Agent.awaiter k))
    (first_one : (j : ℕ) → s.frame.first ≡ some j → P (Agent.awaiter j))
    (the_worker : P Agent.worker) where
  pub goes_on :
      (first : Option ℕ)
      → s.frame.first ≡ first
      → (await_left (s.awaiter k) ≡ 0) ⊎ ((a : Agent) × P a × Advances v a s)
  goes_on none e =
      inr (Agent.awaiter k, own, early_moves v k (s.awaiter k) s.frame (inv.awaiter k) e)
  goes_on (some j) e = elim (Bool-cases (j == k)) [
    | inl same ↦
        let is : s.frame.first ≡ some k = ground arith in
        elim (first_moves v k (s.awaiter k) s.worker s.frame inv.frame (inv.awaiter k) inv.worker
          is) [
            | inl d ↦ inl d
            | inr (inl lt) ↦ inr (Agent.awaiter k, own, lt)
            | inr (inr lt) ↦ inr (Agent.worker, the_worker, lt)
          ]
    | inr other ↦
        let ne : s.frame.first ≢ some k = ground arith in
        elim (late_moves v k j (s.awaiter k) (s.awaiter j) s.worker s.frame inv.frame
          (inv.awaiter k) (inv.awaiter j) inv.worker e ne) [
            | inl d ↦ inl d
            | inr (inl lt) ↦ inr (Agent.awaiter k, own, lt)
            | inr (inr (inl lt)) ↦ inr (Agent.awaiter j, first_one j e, lt)
            | inr (inr (inr lt)) ↦ inr (Agent.worker, the_worker, lt)
          ]
  ]
