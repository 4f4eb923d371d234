-- ===== src/SpawnFrame/Lifetime.antt =====
-- Which accesses to a spawn frame may come after `await` has returned, when its owner is free to
-- destroy it.
use concore2full.Base.{ℕ, ◌≡◌, ◌⊎◌, inr, some, arith, List, [], ◌∷◌, ◌++◌, Bool, true, false}
use concore2full.Schedule.{run, run-append}
use concore2full.SpawnFrame.{
  await_cc, Frame, MainPc, read_secondary, returned, WorkerPc, idle, spawn, execute_at, step, Agent,
}
use concore2full.SpawnFrame.Invariant.{MainOk, WorkerOk, after, after-Inv}
use concore2full.SpawnFrame.Safety.{Returned}

-- The next access of the worker is to the frame; from `idle` it is to a line of the pool.
abbrev pub uses_frame : WorkerPc → Bool
uses_frame idle = false
uses_frame (WorkerPc.jump _) = false
uses_frame _ = true

worker_is_off :
    (v : ℕ) (m : MainPc) (w : WorkerPc) (f : Frame)
    → MainOk v m f
    → WorkerOk v w f
    → (m ≡ returned) ⊎ (w ≡ WorkerPc.jump (some await_cc))
    → uses_frame w ≡ false
worker_is_off v returned idle f p q r = ground arith
worker_is_off v _ _ f p q r = ground arith

-- The worker does not use the frame once `await` has returned.
pub worker-off_frame :
    (v : ℕ) (plan : List Agent) → Returned (after v plan) → uses_frame (after v plan).worker ≡ false
worker-off_frame v plan r =
    let inv = after-Inv v plan in
    worker_is_off v (after v plan).main (after v plan).worker (after v plan).frame inv.main
      inv.worker r

abbrev worker_turns : List Agent
worker_turns = Agent.worker ∷ Agent.worker ∷ Agent.worker ∷ Agent.worker ∷ []

overtake :
    (v : ℕ) (m : MainPc) (w : WorkerPc) (f : Frame)
    → m ≡ read_secondary
    → MainOk v m f
    → WorkerOk v w f
    → let s = run (step v) worker_turns (record { frame = f; main = m; worker = w }) in
      (s.main ≡ read_secondary) × (s.worker ≡ WorkerPc.jump (some await_cc))
unfolding run step execute_at
overtake v m idle f e p q = ground arith
overtake v m _ f e p q = ground arith

-- The awaiting thread publishes `ss_main_finished` before it reads `secondary_thread_`: from each
-- state in which it is about to read, the worker alone can make `await` return first, so that the
-- read comes after the return.
pub read-after-return :
    (v : ℕ) (plan : List Agent)
    → (after v plan).main ≡ read_secondary
    → (more : List Agent) × Returned (after v (plan ++ more))
      × ((after v (plan ++ more)).main ≡ read_secondary)
read-after-return v plan at =
    let inv = after-Inv v plan in
    let (still, out) =
      overtake v (after v plan).main (after v plan).worker (after v plan).frame at inv.main
        inv.worker in
    let e = run-append (step v) plan worker_turns spawn in
    (worker_turns, rw e (inr out), rw e still)
