-- ===== src/Wakeup/Tests.antt =====
-- Runs of a pool with one thread of its own and one other, and the theorems there.
use concore2full.Base.{ℕ, ◌<◌, ◌≡◌, ◌≢◌, refl, false, List, [], ◌∷◌, ◌++◌, arith}
use concore2full.Schedule.{run}
use concore2full.Wakeup.{Config, wait, dec_num, Choice, go, enqueue, step, access}
use concore2full.Wakeup.Steps.{after}
use concore2full.Wakeup.Safety.{enqueues, sleep-no_task}

abbrev small : Config
small = record { size = 5; workers = 1; threads = 2 }

-- The pool's thread finds no task and goes to sleep.
abbrev asleep : List (ℕ × Choice)
asleep = (0, go) ∷ (0, go) ∷ (0, go) ∷ []

-- The other one enqueues a task and wakes it up, and it runs the task and sleeps again.
abbrev served : List (ℕ × Choice)
served =
    asleep
    ++ ((1, enqueue) ∷ (1, go) ∷ (1, go) ∷ (1, go) ∷ [])
    ++ ((0, go) ∷ (0, go) ∷ (0, go) ∷ (0, go) ∷ (0, go) ∷ [])
    ++ ((0, go) ∷ (0, go) ∷ (0, go) ∷ [])

served_run : ((after small served).pc 0 ≡ wait) × ((after small served).pool.pushed ≡ 1)
unfolding run step access
served_run = (refl, refl)

calm : (j : ℕ) → j < 2 → enqueues ((after small served).pc j) ≡ false
unfolding run step access
calm j lt = ground arith

sleep-no_task_example :
    ((after small served).pool.queued ≡ 0) × ((j : ℕ) → j < 2 → (after small served).pc j ≢ dec_num)
unfolding run step access
sleep-no_task_example =
    sleep-no_task small (omega arith) (omega arith) served (omega arith) refl refl calm
