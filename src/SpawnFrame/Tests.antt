-- ===== src/SpawnFrame/Tests.antt =====
-- Runs of a spawn frame, and the theorems there.
use concore2full.Base.{ℕ, zero, suc, ◌≡◌, refl, inl, inr, Option, some, List, [], ◌∷◌, ◌++◌, false}
use concore2full.Schedule.{run, In, Fair, stop, window}
use concore2full.SpawnFrame.{
  main_finished, await_cc, Cont, MainPc, read_secondary, returned, WorkerPc, step, Agent,
}
use concore2full.SpawnFrame.Invariant.{Ran, after}
use concore2full.SpawnFrame.Safety.{Returned, MainTarget, WorkerTarget, await-Ran, jump-targets}
use concore2full.SpawnFrame.Lifetime.{uses_frame, worker-off_frame, read-after-return}
use concore2full.SpawnFrame.Progress.{Done, spawn-Done}

-- The worker takes the task, `await` overtakes it while the task runs, and then the worker ends.
abbrev inversion : List Agent
inversion =
    Agent.worker ∷ Agent.worker ∷ Agent.worker ∷ Agent.main ∷ Agent.main ∷ Agent.main ∷ Agent.main
    ∷ Agent.worker ∷ Agent.worker ∷ Agent.worker ∷ Agent.worker ∷ []

inversion_run :
    ((after 42 inversion).worker ≡ WorkerPc.jump (some await_cc))
    × ((after 42 inversion).main ≡ read_secondary)
    × ((after 42 inversion).frame.sync_state ≡ main_finished)
unfolding run step
inversion_run = (refl, refl, refl)

-- `await` takes the task off its line and runs it in place.
inplace_run :
    ((after 42 (Agent.main ∷ Agent.main ∷ Agent.main ∷ [])).main ≡ returned)
    × ((after 42 (Agent.main ∷ Agent.main ∷ Agent.main ∷ [])).frame.value ≡ some 42)
unfolding run step
inplace_run = (refl, refl)

await-Ran_example : Ran 42 (after 42 inversion).frame
unfolding run step
await-Ran_example = await-Ran 42 inversion (inr refl)

jump-targets_example :
    ((c : Option Cont)
      → (after 42 inversion).main ≡ MainPc.jump c
      → MainTarget c (after 42 inversion).worker)
    × ((c : Option Cont)
        → (after 42 inversion).worker ≡ WorkerPc.jump c
        → WorkerTarget c (after 42 inversion).main)
jump-targets_example = jump-targets 42 inversion

worker-off_frame_example : uses_frame (after 42 inversion).worker ≡ false
unfolding run step
worker-off_frame_example = worker-off_frame 42 inversion (inr refl)

-- Up to the point where the awaiting thread is about to read `secondary_thread_`.
abbrev published : List Agent
published =
    Agent.worker ∷ Agent.worker ∷ Agent.worker ∷ Agent.main ∷ Agent.main ∷ Agent.main ∷ Agent.main
    ∷ []

read-after-return_example :
    (more : List Agent) × Returned (after 42 (published ++ more))
    × ((after 42 (published ++ more)).main ≡ read_secondary)
unfolding run step
read-after-return_example = read-after-return 42 published refl

both : (a : Agent) → In a (Agent.main ∷ Agent.worker ∷ [])
both Agent.main = inl refl
both Agent.worker = inr (inl refl)

abbrev rounds : ℕ → List Agent
rounds zero = []
rounds (suc n) = (Agent.main ∷ Agent.worker ∷ []) ++ rounds n

rounds-Fair : (n : ℕ) → Fair n (rounds n)
rounds-Fair zero = stop
rounds-Fair (suc n) = window (Agent.main ∷ Agent.worker ∷ []) both (rounds-Fair n)

spawn-Done_example : Done (after 42 (rounds 14))
spawn-Done_example = spawn-Done 42 (rounds 14) (rounds-Fair 14)
