-- ===== src/Shutdown/Tests.antt =====
-- A thread that sleeps when the stop is requested, and the theorem there.
use concore2full.Base.{ℕ, zero, suc, ◌≡◌, inl, inr, refl, Bool, false, List, [], ◌∷◌, ◌++◌}
use concore2full.Schedule.{run, In, Fair, stop, window}
use concore2full.Shutdown.{
  wait, ended, joined, request, Agent, worker, stopper, counting, notifying, work_at, stop_at,
  count_wake, notify_token, step,
}
use concore2full.Shutdown.Invariant.{after}
use concore2full.Shutdown.Progress.{join-Ended}

abbrev no_tasks : ℕ → Bool
no_tasks _ = false

-- The thread finds no task and goes to sleep.
abbrev asleep : List Agent
asleep = worker ∷ worker ∷ worker ∷ worker ∷ worker ∷ []

asleep-run :
    ((after no_tasks asleep).worker ≡ wait)
    × ((after no_tasks asleep).shared.wake_requests ≡ 0)
    × ((after no_tasks asleep).stopper ≡ request)
unfolding run step work_at stop_at count_wake notify_token
asleep-run = (refl, refl, refl)

abbrev all : List Agent
all = worker ∷ stopper ∷ counting ∷ notifying ∷ []

every : (a : Agent) → In a all
every worker = inl refl
every stopper = inr (inl refl)
every counting = inr (inr (inl refl))
every notifying = inr (inr (inr (inl refl)))

abbrev rounds : ℕ → List Agent
rounds zero = []
rounds (suc n) = all ++ rounds n

rounds-Fair : (n : ℕ) → Fair n (rounds n)
rounds-Fair zero = stop
rounds-Fair (suc n) = window all every (rounds-Fair n)

join-Ended_example :
    let s = run (step no_tasks) (rounds 49) (after no_tasks asleep) in
    (s.worker ≡ ended) × (s.stopper ≡ joined)
join-Ended_example = join-Ended no_tasks asleep (rounds 49) (rounds-Fair 49)
