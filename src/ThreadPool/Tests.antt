-- ===== src/ThreadPool/Tests.antt =====
-- Runs of a thread pool, and the theorems there.
use concore2full.Base.{
  ℕ, ◌<◌, ◌==◌, ◌≡◌, refl, ◌⊎◌, Bool, true, false, List, [], ◌∷◌, arith, update, length,
}
use concore2full.WorkLine.{Ptr}
use concore2full.WorkLine.Lines.{no_tasks, no_tasks-IsPool}
use concore2full.ThreadPool.{ThreadPool, make, enqueue, take_slot}
use concore2full.ThreadPool.Count.{Holds}
use concore2full.ThreadPool.Lifecycle.{construct, Serves, construct-cases}
use concore2full.ThreadPool.Enqueue.{make-Holds, enqueue-turn}
use concore2full.ThreadPool.Slots.{Slots}

abbrev free_locks : ℕ → Bool
free_locks _ = false

-- A pool of two threads, with three lines.
abbrev idle_pool : ThreadPool
idle_pool = make no_tasks 2

idle_pool-Holds : Holds idle_pool (λ _. [])
idle_pool-Holds = make-Holds no_tasks 2 no_tasks-IsPool

abbrev one_task : ThreadPool
one_task = enqueue free_locks 7 idle_pool

abbrev one_line : ℕ → List Ptr
one_line = update (λ _. []) 0 (7 ∷ [])

one_task-Holds : Holds one_task one_line
unfolding make
one_task-Holds =
    (enqueue-turn idle_pool (λ _. []) idle_pool-Holds 7
      (record { ne_null = omega arith; off = refl })).0

-- The slots of two threads are 2 and 3; the sleep objects 4 and 5 are never handed out.
slots_run : (idle_pool.free_sleep_objects ≡ 3 ∷ 2 ∷ []) × (length idle_pool.sleep_objects ≡ 6)
unfolding make
slots_run = (refl, refl)

-- Two threads help: the first to leave gives its slot back.
abbrev helped : ThreadPool
helped = (take_slot (take_slot idle_pool).1).1

helped-Slots : Slots helped (2 ∷ 3 ∷ [])
unfolding make take_slot
helped-Slots = record { each_once = λ i. ground arith; exist = omega arith }

enqueue_run : (one_task.mem.tasks_stack 0 ≡ 7) × (one_task.num_tasks ≡ 1)
unfolding make enqueue
enqueue_run = (refl, refl)

-- The second thread cannot be started.
abbrev one_starts : ℕ → Bool
one_starts i = i == 0

construct-cases_example :
    Serves (construct one_starts no_tasks 2) free_locks 7
    × ((((j : ℕ) → j < 2 → one_starts j ≡ true)
          × (construct one_starts no_tasks 2 ≡ make no_tasks 2))
        ⊎ ((j : ℕ) × (j < 2)
            × (one_starts j ≡ false)
            × ((construct one_starts no_tasks 2).threads ≡ 0)
            × ((construct one_starts no_tasks 2).global_shutdown ≡ true)))
construct-cases_example =
    construct-cases one_starts no_tasks 2 free_locks 7 no_tasks-IsPool
      (record { ne_null = omega arith; off = refl })
