-- ===== src/Suspend/Tests.antt =====
-- Runs of a suspension, and the theorems there.
use concore2full.Base.{
  ℕ, zero, suc, ◌≡◌, refl, ◌≢◌, inl, inr, true, false, Option, some, List, [], ◌∷◌, ◌++◌,
}
use concore2full.Schedule.{run, In, Fair, stop, window}
use concore2full.Suspend.{
  extracted, Cont, after_suspend, task_cont, SuspendPc, WorkerPc, Agent, step,
}
use concore2full.Suspend.Invariant.{after}
use concore2full.Suspend.Safety.{
  Resumed, steals, resume_once, notifier_uses, worker_uses, leave-off_stack, help-never_ends,
}
use concore2full.Suspend.Progress.{Done, suspend-Done}

-- The thread helps, the notifier enqueues the task, and the thread extracts it.
abbrev extracting : List Agent
extracting =
    Agent.suspender ∷ Agent.suspender ∷ Agent.notifier ∷ Agent.notifier ∷ Agent.notifier
    ∷ Agent.notifier ∷ Agent.suspender ∷ Agent.suspender ∷ Agent.suspender ∷ Agent.suspender
    ∷ Agent.suspender ∷ []

extracting_run :
    ((after extracting).suspender ≡ SuspendPc.jump (some after_suspend))
    × ((after extracting).shared.place ≡ extracted)
unfolding run step
extracting_run = (refl, refl)

-- A worker runs the task before the thread wakes up.
abbrev overtaken : List Agent
overtaken =
    Agent.suspender ∷ Agent.suspender ∷ Agent.notifier ∷ Agent.notifier ∷ Agent.notifier
    ∷ Agent.notifier ∷ Agent.worker ∷ Agent.worker ∷ Agent.suspender ∷ Agent.suspender
    ∷ Agent.suspender ∷ Agent.suspender ∷ Agent.suspender ∷ Agent.suspender ∷ []

overtaken_run :
    ((after overtaken).suspender ≡ SuspendPc.jump (some task_cont))
    × ((after overtaken).worker ≡ WorkerPc.jump (some after_suspend))
unfolding run step
overtaken_run = (refl, refl)

resume_once_example :
    ((c : Option Cont)
      → (after overtaken).suspender ≡ SuspendPc.jump c
      → Resumed c (after overtaken))
    × ((c : Option Cont)
        → (after overtaken).worker ≡ WorkerPc.jump c
        → (c ≡ some after_suspend) × ((after overtaken).shared.stop_requested ≡ true))
resume_once_example = resume_once overtaken

leave-off_stack_example :
    (notifier_uses (after overtaken).notifier ≡ false)
    × (worker_uses (after overtaken).worker ≡ false)
unfolding run step
leave-off_stack_example = leave-off_stack overtaken (some task_cont) refl (inr refl)

-- The task is on a line while the thread still helps.
abbrev helping : List Agent
helping = Agent.suspender ∷ Agent.suspender ∷ Agent.notifier ∷ Agent.notifier ∷ Agent.notifier ∷ []

help-never_ends_example :
    let s = after ((helping ++ steals) ++ Agent.notifier ∷ []) in
    (s.suspender ≡ SuspendPc.jump (some after_suspend))
    × (s.shared.after_execute ≡ some task_cont)
    × ((c : Option Cont) → s.worker ≢ WorkerPc.jump c)
unfolding run step
help-never_ends_example = help-never_ends helping (Agent.notifier ∷ []) refl refl refl

abbrev turns : List Agent
turns = Agent.suspender ∷ Agent.helper ∷ Agent.notifier ∷ Agent.worker ∷ []

all_turn : (a : Agent) → In a turns
all_turn Agent.suspender = inl refl
all_turn Agent.helper = inr (inl refl)
all_turn Agent.notifier = inr (inr (inl refl))
all_turn Agent.worker = inr (inr (inr (inl refl)))

abbrev rounds : ℕ → List Agent
rounds zero = []
rounds (suc n) = turns ++ rounds n

rounds-Fair : (n : ℕ) → Fair n (rounds n)
rounds-Fair zero = stop
rounds-Fair (suc n) = window turns all_turn (rounds-Fair n)

suspend-Done_example : Done (after (rounds 17))
suspend-Done_example = suspend-Done (rounds 17) (rounds-Fair 17)
