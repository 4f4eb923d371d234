-- ===== src/WorkLine/Tests.antt =====
-- Runs of the operations of `work_line` on a small pool, and the theorems there.
use concore2full.Base.{
  ℕ, ◌≡◌, refl, ◌≢◌, Bool, true, false, none, some, List, [], ◌∷◌, arith, has, erase, update,
}
use concore2full.WorkLine.{
  Ptr, null, stack_of, Mem, extract_task, push_unprotected, pop_unprotected,
}
use concore2full.WorkLine.Chain.{IsFree}
use concore2full.WorkLine.Lines.{
  no_tasks, no_tasks-IsPool, IsPool, push_unprotected-IsPool, pop_unprotected-IsPool,
  extract_task-IsPool,
}

-- Task 7 on line 0.
abbrev one_task : Mem
one_task = push_unprotected 0 7 no_tasks

abbrev one_line : ℕ → List Ptr
one_line = update (λ _. []) 0 (7 ∷ [])

one_task-IsPool : IsPool one_task one_line
one_task-IsPool =
    push_unprotected-IsPool no_tasks (λ _. []) no_tasks-IsPool 0 7
      (record { ne_null = omega arith; off = refl })

-- Tasks 5 and 7 on line 0.
abbrev two_tasks : Mem
two_tasks = push_unprotected 0 5 one_task

abbrev two_line : ℕ → List Ptr
two_line = update one_line 0 (5 ∷ 7 ∷ [])

push_unprotected-IsPool_example : IsPool two_tasks two_line
unfolding push_unprotected
push_unprotected-IsPool_example =
    push_unprotected-IsPool one_task one_line one_task-IsPool 0 5
      (record { ne_null = omega arith; off = refl })

two_tasks-IsPool : IsPool two_tasks two_line
unfolding push_unprotected
two_tasks-IsPool =
    push_unprotected-IsPool one_task one_line one_task-IsPool 0 5
      (record { ne_null = omega arith; off = refl })

pop_unprotected-IsPool_example :
    ((pop_unprotected 0 two_tasks).0 ≡ 5)
    × IsPool (pop_unprotected 0 two_tasks).1 (update two_line 0 (7 ∷ []))
    × (◌≢◌ {A = ℕ} 5 null → IsFree (pop_unprotected 0 two_tasks).1 5)
pop_unprotected-IsPool_example = pop_unprotected-IsPool two_tasks two_line two_tasks-IsPool 0

extract_task-IsPool_example :
    (found : Bool) × (n : Mem) × (extract_task 7 two_tasks ≡ some (found, n))
    × ((v : ℕ) → has 7 (two_line v) ≡ true → found ≡ true)
    × (found ≡ true → (v : ℕ) × (has 7 (two_line v) ≡ true))
    × IsPool n (λ v. erase 7 (two_line v))
    × ((n.task 7).worker_data ≡ none)
extract_task-IsPool_example = extract_task-IsPool two_tasks two_line two_tasks-IsPool 7

-- The first task is taken, and its successor is linked to the stack.
pop_run :
    ((pop_unprotected 0 two_tasks).0 ≡ 5)
    × (((pop_unprotected 0 two_tasks).1.task 7).prev_link ≡ stack_of 0)
unfolding pop_unprotected push_unprotected
pop_run = (refl, refl)

extract_run : extract_task 9 two_tasks ≡ some (false, two_tasks)
unfolding extract_task push_unprotected
extract_run = refl
