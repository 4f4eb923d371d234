-- ===== src/Handover/Tests.antt =====
-- Runs of two threads on a pool with two lines, and the theorems there.
use concore2full.Base.{
  ℕ, ◌+◌, ◌%◌, ◌^◌, ◌<◌, ◌≡◌, ◌≢◌, refl, true, false, some, List, [], ◌∷◌, ◌++◌, arith, ◌==◌, zero,
  suc,
}
use concore2full.Schedule.{run}
use concore2full.WorkLine.{Ptr, push_unprotected, pop_unprotected, try_push, try_pop}
use concore2full.WorkLine
use concore2full.WorkLine.Lines.{IsPool, no_tasks, no_tasks-IsPool}
use concore2full.ThreadPool.Count.{total}
use concore2full.Handover.{
  Result, runs, got, refused, user, fault, Choice, go, busy, enqueue, extract, work, begin,
  extract_locked, access, step,
}
use concore2full.Handover.Invariant.{uncounted, overcounted}
use concore2full.Handover.Steps.{after}
use concore2full.Handover.Safety.{holds, Somewhere, task-once, extract-exact, num_tasks-total}
use concore2full.Handover.Progress.{Patient, call-Done}

-- The thread 0 enqueues the task 7.
abbrev enqueued : List (ℕ × Choice)
enqueued = (0, enqueue 7) ∷ (0, go) ∷ (0, go) ∷ (0, go) ∷ (0, go) ∷ []

-- The thread 0 has read the line of the task when the thread 1 pops it.
abbrev raced : List (ℕ × Choice)
raced = enqueued ++ ((0, extract 7) ∷ (0, go) ∷ (1, work 0) ∷ (1, go) ∷ (0, go) ∷ (1, go) ∷ [])

raced_run :
    ((after 2 2 no_tasks raced).pc 0 ≡ user (refused 7 true))
    × ((after 2 2 no_tasks raced).pc 1 ≡ user (runs 7))
    × ((after 2 2 no_tasks raced).pool.num_tasks ≡ 0)
unfolding run step access begin extract_locked try_push try_pop push_unprotected pop_unprotected
    WorkLine.extract_task
raced_run = (refl, refl, refl)

-- No thread comes between.
abbrev extracted : List (ℕ × Choice)
extracted = enqueued ++ ((0, extract 7) ∷ (0, go) ∷ (0, go) ∷ (0, go) ∷ [])

extracted_run : (after 2 2 no_tasks extracted).pc 0 ≡ user (got 7)
unfolding run step access begin extract_locked try_push push_unprotected WorkLine.extract_task
extracted_run = refl

task-once_example :
    let s = after 2 2 no_tasks raced in
    ((lines : ℕ → List Ptr) × IsPool s.pool.mem lines × ((t : Ptr) → Somewhere 2 lines s t))
    × ((k : ℕ) → s.pc k ≢ fault)
    × ((j k : ℕ) (t : Ptr)
        → holds (s.pc j) ≡ some t
        → holds (s.pc k) ≡ some t
        → (j ≡ k) × (s.pool.given t ≡ 1))
task-once_example = task-once 2 2 no_tasks raced (omega arith) no_tasks-IsPool

extract-exact_example :
    ((after 2 2 no_tasks raced).pool.given 7 ≡ 1)
    × ((j : ℕ) → holds ((after 2 2 no_tasks raced).pc j) ≡ some 7 → (j == 0) ≡ false)
extract-exact_example =
    extract-exact 2 2 no_tasks raced 0 7 false (omega arith) no_tasks-IsPool (raced_run.0)

quiet :
    (k : ℕ)
    → k < 2
    → uncounted ((after 2 2 no_tasks raced).pc k) + overcounted ((after 2 2 no_tasks raced).pc k)
      ≡ 0
unfolding run step access begin extract_locked try_push try_pop push_unprotected pop_unprotected
    WorkLine.extract_task
quiet zero lt = refl
quiet (suc zero) lt = refl
quiet (suc (suc k)) lt = absurd (omega arith)

num_tasks-total_example :
    let s = after 2 2 no_tasks raced in
    (lines : ℕ → List Ptr) × IsPool s.pool.mem lines
    × (s.pool.num_tasks % 2 ^ 32 ≡ total 2 lines % 2 ^ 32)
num_tasks-total_example = num_tasks-total 2 2 no_tasks raced (omega arith) no_tasks-IsPool quiet

-- Turns of both threads, the lock of the thread 1 always taken.
abbrev rounds : ℕ → List (ℕ × Choice)
rounds zero = []
rounds (suc n) = (1, busy) ∷ (0, go) ∷ rounds n

rounds-Patient : (n : ℕ) → Patient 0 (rounds n)
rounds-Patient zero = tt
rounds-Patient (suc n) = (λ _. refl, (λ _. refl, rounds-Patient n))

call-Done_example :
    (r : Result) × ((run
          (step 2 2)
          (rounds 9)
          (after 2 2 no_tasks (enqueued ++ ((0, work 1) ∷ [])))).pc
        0
      ≡ user r)
call-Done_example =
    call-Done 2 2 no_tasks (enqueued ++ ((0, work 1) ∷ [])) (rounds 9) 0 (omega arith)
      no_tasks-IsPool (omega arith) (rounds-Patient 9) (omega arith)
