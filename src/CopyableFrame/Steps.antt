-- ===== src/CopyableFrame/Steps.antt =====
-- Every step keeps the invariant, while `await` is called at most 2^32 times.
use concore2full.Base.{ℕ, ◌≤◌, ◌^◌, ◌≡◌, refl, ◌≢◌, arith, inl, inr, Bool-cases, ◌==◌, List}
use concore2full.Schedule.{run, run-keeps}
use concore2full.CopyableFrame.{
  arrive, idle, Frame, AwaitPc, WorkerPc, State, spawn, await_at, execute_at, Agent, step,
}
use concore2full.CopyableFrame.Invariant.{FrameOk, AwaitOk, WorkerOk, Inv}

-- The step of an awaiter, for itself and the worker.
await_at-Ok :
    (v k : ℕ) (p : AwaitPc) (w : WorkerPc) (f : Frame)
    → (await_at v k p f).0.arrivals ≤ 2 ^ 32
    → FrameOk v f
    → AwaitOk v k p f
    → WorkerOk v w f
    → FrameOk v (await_at v k p f).0
      × AwaitOk v k (await_at v k p f).1 (await_at v k p f).0
      × WorkerOk v w (await_at v k p f).0
unfolding await_at
await_at-Ok v k arrive idle f b o p q = ground arith
await_at-Ok v k _ _ f b o p q = ground arith

-- The step of an awaiter, for another awaiter.
await_at-others :
    (v k j : ℕ) (p q : AwaitPc) (f : Frame)
    → j ≢ k
    → (await_at v k p f).0.arrivals ≤ 2 ^ 32
    → FrameOk v f
    → AwaitOk v k p f
    → AwaitOk v j q f
    → AwaitOk v j q (await_at v k p f).0
unfolding await_at
await_at-others v k j arrive arrive f ne b o p q = ground arith
await_at-others v k j _ _ f ne b o p q = ground arith

-- The step of the worker, for itself and an awaiter.
execute_at-Ok :
    (v k : ℕ) (w : WorkerPc) (p : AwaitPc) (f : Frame)
    → FrameOk v f
    → AwaitOk v k p f
    → WorkerOk v w f
    → FrameOk v (execute_at v w f).0
      × AwaitOk v k p (execute_at v w f).0
      × WorkerOk v (execute_at v w f).1 (execute_at v w f).0
unfolding execute_at
execute_at-Ok v k idle arrive f o p q = ground arith
execute_at-Ok v k _ _ f o p q = ground arith

await_at-arrivals : (v k : ℕ) (p : AwaitPc) (f : Frame) → f.arrivals ≤ (await_at v k p f).0.arrivals
unfolding await_at
await_at-arrivals v k arrive f = ground arith
await_at-arrivals v k _ f = ground arith

pub execute_at-arrivals :
    (v : ℕ) (w : WorkerPc) (f : Frame) → (execute_at v w f).0.arrivals ≡ f.arrivals
unfolding execute_at
execute_at-arrivals v idle f = ground arith
execute_at-arrivals v _ f = ground arith

-- `await` has been called at most 2^32 times, so that its counter has not come back to 0.
abbrev pub Bounded : State → Type 0
Bounded s = s.frame.arrivals ≤ 2 ^ 32

awaiter_step-Inv :
    (v k : ℕ) (s : State)
    → (Bounded s → Inv v s)
    → Bounded (step v (Agent.awaiter k) s)
    → Inv v (step v (Agent.awaiter k) s)
unfolding step
awaiter_step-Inv v k s at b =
    let inv = at (omega (arith, await_at-arrivals v k (s.awaiter k) s.frame)) in
    let own =
      await_at-Ok v k (s.awaiter k) s.worker s.frame b inv.frame (inv.awaiter k) inv.worker in
    record {
      frame = own.0;
      worker = own.2;
      awaiter = λ j. elim (Bool-cases (j == k)) [
        | inl e ↦ let same : j ≡ k = ground arith in rw same (ground (arith, own.1))
        | inr e ↦ rw e (
            await_at-others v k j (s.awaiter k) (s.awaiter j) s.frame (ground arith) b inv.frame
              (inv.awaiter k) (inv.awaiter j))
      ];
    }

worker_step-Inv :
    (v : ℕ) (s : State)
    → (Bounded s → Inv v s)
    → Bounded (step v Agent.worker s)
    → Inv v (step v Agent.worker s)
unfolding step
worker_step-Inv v s at b =
    let inv = at (omega (arith, execute_at-arrivals v s.worker s.frame)) in
    let all = λ (k : ℕ).
      execute_at-Ok v k s.worker (s.awaiter k) s.frame inv.frame (inv.awaiter k) inv.worker in
    record { frame = (all 0).0; awaiter = λ k. (all k).1; worker = (all 0).2 }

pub step-Inv :
    (v : ℕ) (a : Agent) (s : State)
    → (Bounded s → Inv v s)
    → Bounded (step v a s)
    → Inv v (step v a s)
step-Inv v (Agent.awaiter k) s at = awaiter_step-Inv v k s at
step-Inv v Agent.worker s at = worker_step-Inv v s at

pub spawn-Inv : (v : ℕ) → Inv v spawn
spawn-Inv v = record {
  frame = (λ e. cc, λ e. cc, λ e. cc, λ e. refl, λ e. (refl, λ e. cc, tt, refl));
  awaiter = λ k. (λ e. cc, λ e. cc);
  worker = (λ e. cc, refl, λ e. (refl, refl));
}

-- The states that the callers of `await` and the worker can reach after `spawn`.
abbrev pub after : ℕ → List Agent → State
after v plan = run (step v) plan spawn

pub after-Inv : (v : ℕ) (plan : List Agent) → Bounded (after v plan) → Inv v (after v plan)
after-Inv v plan =
    run-keeps (step v) (λ s. Bounded s → Inv v s) (step-Inv v) plan spawn (λ b. spawn-Inv v)
