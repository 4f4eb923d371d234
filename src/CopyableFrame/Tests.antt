-- ===== src/CopyableFrame/Tests.antt =====
-- Runs of a copyable frame with the callers 1 and 2, and the theorems there.
use concore2full.Base.{ℕ, zero, suc, ◌<◌, ◌≡◌, refl, inl, inr, some, List, [], ◌∷◌, arith, ◌++◌}
use concore2full.Schedule.{run, In, FairTo, stop_to, window_to}
use concore2full.CopyableFrame.{
  caller, thread_cont, AwaitPc, returned, WorkerPc, await_at, execute_at, step, spawn, Agent,
}
use concore2full.CopyableFrame.Invariant.{Ran}
use concore2full.CopyableFrame.Steps.{after}
use concore2full.CopyableFrame.Safety.{Returned, await_copy-Ran}
use concore2full.CopyableFrame.Moves.{Turn, step_of, WorkerDone}
use concore2full.CopyableFrame.Termination.{copy-Done}

abbrev worker_turns : List Agent
worker_turns = Agent.worker ∷ Agent.worker ∷ Agent.worker ∷ Agent.worker ∷ []

abbrev awaiter_turns : List Agent
awaiter_turns =
    Agent.awaiter 1
    ∷ Agent.awaiter 1
    ∷ Agent.awaiter 1
    ∷ Agent.awaiter 1
    ∷ Agent.awaiter 1
    ∷ Agent.awaiter 1
    ∷ []

-- The worker starts, the caller 1 arrives first and leaves its continuation, and the worker runs
-- the task and goes on as the caller 1; the caller 2 suspends and comes back.
abbrev swapped : List Agent
swapped =
    (worker_turns ++ awaiter_turns)
    ++ (Agent.awaiter 2 ∷ Agent.awaiter 2 ∷ worker_turns)
    ++ (Agent.worker ∷ Agent.worker ∷ Agent.awaiter 2 ∷ [])

abbrev swapped_late : List Agent
swapped_late = (worker_turns ++ awaiter_turns) ++ (Agent.awaiter 2 ∷ Agent.awaiter 2 ∷ [])

swapped_run :
    ((after 42 swapped).worker ≡ WorkerPc.jump (some (caller 1)))
    × ((after 42 swapped).awaiter 1 ≡ AwaitPc.jump (some thread_cont))
    × ((after 42 swapped).awaiter 2 ≡ returned)
unfolding run step await_at execute_at
swapped_run = (refl, refl, refl)

await_copy-Ran_example : Ran 42 (after 42 swapped).frame
unfolding run step await_at execute_at
await_copy-Ran_example = await_copy-Ran 42 2 swapped (omega arith) (inl refl)

abbrev two_callers : List Agent
two_callers = Agent.awaiter 0 ∷ Agent.awaiter 1 ∷ Agent.worker ∷ []

two_callers_all : (a : Agent) → Turn 2 a → In a two_callers
two_callers_all (Agent.awaiter zero) turn = inl refl
two_callers_all (Agent.awaiter (suc zero)) turn = inr (inl refl)
two_callers_all (Agent.awaiter (suc (suc k))) turn = absurd (ground arith)
two_callers_all Agent.worker turn = inr (inr (inl refl))

abbrev rounds : ℕ → List Agent
rounds zero = []
rounds (suc n) = two_callers ++ rounds n

rounds-FairTo : (n : ℕ) → FairTo (Turn 2) n (rounds n)
rounds-FairTo zero = stop_to
rounds-FairTo (suc n) = window_to two_callers two_callers_all (rounds-FairTo n)

copy-Done_example :
    let s = run (step_of 2 42) (rounds 27) (run (step_of 2 42) worker_turns spawn) in
    ((k : ℕ) → k < 2 → Returned k s) × WorkerDone s.worker s.frame
copy-Done_example = copy-Done 2 42 (omega arith) worker_turns (rounds 27) (rounds-FairTo 27)
