-- ===== src/SharedFrame/Tests.antt =====
-- Runs of two futures that share a frame, and the theorems there.
use concore2full.Base.{ℕ, zero, suc, ◌<◌, ◌≡◌, ◌≢◌, refl, true, false, List, [], ◌∷◌, ◌++◌, arith}
use concore2full.Schedule.{run}
use concore2full.CopyableFrame.{queued, await_at, execute_at, step, Agent}
use concore2full.CopyableFrame.Safety.{uses_frame}
use concore2full.SharedFrame.{Action, access, copy, drop, act, copy_future, drop_future}
use concore2full.SharedFrame.Owners.{after}
use concore2full.SharedFrame.Safety.{freed-unused}

abbrev turns : ℕ → Agent → List Action
turns zero a = []
turns (suc n) a = access a ∷ turns n a

-- The future 0 is copied, the worker takes the task, `await` on the future 0 leaves its continuation,
-- and the worker says that all is done; `await` on the copy returns at once, and the copy goes.
abbrev copy_gone : List Action
copy_gone =
    (copy 0 ∷ turns 4 Agent.worker)
    ++ turns 6 (Agent.awaiter 0)
    ++ turns 3 Agent.worker
    ++ turns 2 (Agent.awaiter 1)
    ++ (drop 1 ∷ [])

-- The worker goes on as the caller that waited, and the future 0 goes.
abbrev all_gone : List Action
all_gone = copy_gone ++ turns 2 Agent.worker ++ (drop 0 ∷ [])

copy_gone-run :
    ((after 42 copy_gone).freed ≡ false)
    × ((after 42 copy_gone).use_count ≡ 1)
    × (uses_frame (after 42 copy_gone).frame.worker ≡ true)
unfolding run act copy_future drop_future step await_at execute_at
copy_gone-run = (refl, refl, refl)

freed-unused_example :
    ((k : ℕ) → k < (after 42 all_gone).made → (after 42 all_gone).alive k ≡ false)
    × ((after 42 all_gone).frame.frame.task ≢ queued)
    × (uses_frame (after 42 all_gone).frame.worker ≡ false)
unfolding run act copy_future drop_future step await_at execute_at
freed-unused_example = freed-unused 42 0 all_gone (omega arith) (λ e. cc) refl

-- A future on which `await` is never called may go first.
abbrev copy_unused : List Action
copy_unused = copy 0 ∷ drop 1 ∷ turns 6 (Agent.awaiter 0) ++ (drop 0 ∷ [])

copy_unused-run :
    ((after 42 copy_unused).freed ≡ true) × ((after 42 copy_unused).frame.frame.runs ≡ 1)
unfolding run act copy_future drop_future step await_at execute_at
copy_unused-run = (refl, refl)

-- If `await` is called on none, the frame goes while its task is on a line.
abandoned_run :
    ((after 42 (drop 0 ∷ [])).freed ≡ true) × ((after 42 (drop 0 ∷ [])).frame.frame.task ≡ queued)
unfolding run act drop_future
abandoned_run = (refl, refl)
