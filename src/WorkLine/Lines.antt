-- ===== src/WorkLine/Lines.antt =====
-- All lines of a pool at once: each operation of `work_line` against a family of lists.
use concore2full.Base.{
  ℕ, zero, suc, ◌<◌, ◌≡◌, refl, ◌≢◌, ◌⊎◌, inl, inr, Bool, true, false, Option, none, some, List, [],
  ◌∷◌, not, arith, ◌==◌, if◌then◌else◌, has, Bool-cases, erase, erase-eq_of_not_has, update, length,
}
use concore2full.WorkLine.{
  Ptr, null, Link, nowhere, stack_of, next_of, Mem, load, extract_task, push_unprotected,
  pop_unprotected, try_push, try_pop, check_list,
}
use concore2full.WorkLine.Chain.{Chain, IsLine, IsFree, IsLine-worker_data, IsLine-not_has}
use concore2full.WorkLine.Push.{push_unprotected-IsLine}
use concore2full.WorkLine.Pop.{pop_unprotected-IsLine, pop_unprotected-empty}
use concore2full.WorkLine.Extract.{extract_task-IsLine}

-- Each line `w` holds the tasks `lines w`.
abbrev pub IsPool : Mem → (ℕ → List Ptr) → Type 0
IsPool m lines = (w : ℕ) → IsLine m w (lines w)

abbrev pub first : List Ptr → Ptr
first [] = null
first (x ∷ xs) = x

abbrev pub rest : List Ptr → List Ptr
rest [] = []
rest (x ∷ xs) = xs

-- A changed line and the others, as a family.
at_line :
    (n : Mem) (w : ℕ) (lines : ℕ → List Ptr) (xs : List Ptr)
    → IsLine n w xs
    → ((v : ℕ) → v ≢ w → IsLine n v (lines v))
    → IsPool n (update lines w xs)
at_line n w lines xs here others v = elim (Bool-cases (v == w)) [
  | inl same ↦ rw same (let e : v ≡ w = ground arith in rw e here)
  | inr other ↦ rw other (others v (ground arith))
]

module _ (m : Mem) (lines : ℕ → List Ptr) (is : IsPool m lines) where
  -- A task that is on no line is put in front of the line; no other line changes.
  pub push_unprotected-IsPool :
      (w : ℕ) (t : Ptr)
      → IsFree m t
      → IsPool (push_unprotected w t m) (update lines w (t ∷ lines w))
  push_unprotected-IsPool w t free =
      let (here, others) = push_unprotected-IsLine m w t (lines w) (is w) free in
      at_line (push_unprotected w t m) w lines (t ∷ lines w) here
        (λ v ne. others v (lines v) ne (is v))

  -- The first task of the line, null if there is none, is returned and taken off the line, and is
  -- then on no line; no other line changes.
  pop-at :
      (w : ℕ) (xs : List Ptr)
      → IsLine m w xs
      → ((pop_unprotected w m).0 ≡ first xs)
        × IsPool (pop_unprotected w m).1 (update lines w (rest xs))
        × (first xs ≢ null → IsFree (pop_unprotected w m).1 (first xs))
  pop-at w [] here =
      rw (pop_unprotected-empty m w here)
        (refl, at_line m w lines [] here (λ v _. is v), λ ne. absurd (ne refl))
  pop-at w (x ∷ xs) here =
      let (e, here', free, others) = pop_unprotected-IsLine m w x xs here in
      (
        e,
        at_line (pop_unprotected w m).1 w lines xs here' (λ v ne. others v (lines v) ne (is v)),
        λ _. free,
      )

  pub pop_unprotected-IsPool :
      (w : ℕ)
      → ((pop_unprotected w m).0 ≡ first (lines w))
        × IsPool (pop_unprotected w m).1 (update lines w (rest (lines w)))
        × (first (lines w) ≢ null → IsFree (pop_unprotected w m).1 (first (lines w)))
  pop_unprotected-IsPool w = pop-at w (lines w) (is w)

  extract-at :
      (t : Ptr) (d : Option ℕ)
      → (m.task t).worker_data ≡ d
      → (found : Bool) × (n : Mem) × (extract_task t m ≡ some (found, n))
        × ((v : ℕ) → has t (lines v) ≡ true → found ≡ true)
        × (found ≡ true → (v : ℕ) × (has t (lines v) ≡ true))
        × IsPool n (λ v. erase t (lines v))
        × ((n.task t).worker_data ≡ none)
  unfolding extract_task
  extract-at t none e = (
    false,
    m,
    rw (e, extract_task),
    λ v i. ground (arith, IsLine-worker_data m v t (is v)),
    λ f. cc,
    λ v. rw (erase-eq_of_not_has t (lines v) (IsLine-not_has m v t (is v) (ground arith))) (is v),
    e,
  )
  extract-at t (some w) e =
      let i : has t (lines w) ≡ true = (is w).complete t e in
      let (n, runs, here, free, others) = extract_task-IsLine m w t (lines w) (is w) i in
      (
        true,
        n,
        runs,
        λ v _. refl,
        λ _. (w, i),
        λ v. elim (Bool-cases (v == w)) [
          | inl same ↦ let q : v ≡ w = ground arith in rw q here
          | inr other ↦
              let ne : v ≢ w = ground arith in
              rw (erase-eq_of_not_has t (lines v) (IsLine-not_has m v t (is v) (λ q. ground arith)))
                (others v (lines v) ne (is v))
        ],
        free.off,
      )

  -- A task is extracted exactly when it is on a line: it is then on no line, and the lines
  -- keep their other tasks in order.
  pub extract_task-IsPool :
      (t : Ptr)
      → (found : Bool) × (n : Mem) × (extract_task t m ≡ some (found, n))
        × ((v : ℕ) → has t (lines v) ≡ true → found ≡ true)
        × (found ≡ true → (v : ℕ) × (has t (lines v) ≡ true))
        × IsPool n (λ v. erase t (lines v))
        × ((n.task t).worker_data ≡ none)
  extract_task-IsPool t = extract-at t (m.task t).worker_data refl

  -- `try_push` pushes unless the lock is taken, and then leaves the lines as they are.
  pub try_push-IsPool :
      (locked : Bool) (w : ℕ) (t : Ptr)
      → IsFree m t
      → ((try_push locked w t m).0 ≡ not locked)
        × IsPool (try_push locked w t m).1 (if locked then lines else update lines w (t ∷ lines w))
  unfolding try_push
  try_push-IsPool true w t free = (refl, is)
  try_push-IsPool false w t free = (refl, push_unprotected-IsPool w t free)

  -- `try_pop` takes the first task, if there is one and the lock is free; otherwise it returns
  -- null and leaves the lines as they are.
  try_pop-eq : (w : ℕ) → try_pop false w m ≡ pop_unprotected w m
  unfolding try_pop
  try_pop-eq w = ground arith

  pub try_pop-IsPool :
      (locked : Bool) (w : ℕ)
      → ((try_pop locked w m).0 ≡ (if locked then null else first (lines w)))
        × IsPool (try_pop locked w m).1 (if locked then lines else update lines w (rest (lines w)))
  try_pop-IsPool true w = unfold try_pop in (refl, is)
  try_pop-IsPool false w = rw (try_pop-eq w) (let (e, p, _) = pop_unprotected-IsPool w in (e, p))

  first-cases :
      (w : ℕ) (xs : List Ptr)
      → IsLine m w xs
      → (xs ≡ [] × (pop_unprotected w m ≡ (null, m))) ⊎ (first xs ≢ null)
  first-cases w [] here = inl (refl, pop_unprotected-empty m w here)
  first-cases w (x ∷ xs) here = inr (here.chain.1)

  -- `try_pop` changes nothing and returns null, for a reason, or it takes the first task.
  pub try_pop-cases :
      (locked : Bool) (w : ℕ)
      → ((try_pop locked w m ≡ (null, m)) × (locked ≡ false → lines w ≡ []))
        ⊎ (((try_pop locked w m).0 ≢ null)
            × ((try_pop locked w m).0 ≡ first (lines w))
            × IsPool (try_pop locked w m).1 (update lines w (rest (lines w))))
  try_pop-cases true w = unfold try_pop in inl (refl, λ e. cc)
  try_pop-cases false w = rw (try_pop-eq w) (elim (first-cases w (lines w) (is w)) [
    | inl (none_left, e) ↦ inl (e, λ _. none_left)
    | inr ne ↦ let (e, p, _) = pop_unprotected-IsPool w in inr (ground arith, e, p)
  ])

  -- The assertions of `check_list` hold along a chain.
  check-Chain :
      (w : ℕ) (l : Link) (xs : List Ptr) (fuel : ℕ)
      → Chain m w l xs
      → length xs < fuel
      → check_list fuel m (load m l) w ≡ some true
  unfolding check_list
  check-Chain w l xs zero c enough = absurd (omega arith)
  check-Chain w l [] (suc fuel) c enough = ground arith
  check-Chain w l (x ∷ xs) (suc fuel) c enough =
      ground (arith, check-Chain w (next_of x) xs fuel c.4)

  -- The assertions of `check_list` hold on every line, and its loop ends after at most as many
  -- rounds as the line has tasks.
  check_list-IsPool :
      (w fuel : ℕ) → length (lines w) < fuel → check_list fuel m (m.tasks_stack w) w ≡ some true
  check_list-IsPool w fuel enough = check-Chain w (stack_of w) (lines w) fuel (is w).chain enough

-- Memory in which no line holds a task.
abbrev pub no_tasks : Mem
no_tasks = record {
  task = λ _. record { task_function = 0; next = null; prev_link = nowhere; worker_data = none };
  tasks_stack = λ _. null;
}

pub no_tasks-IsPool : IsPool no_tasks (λ _. [])
no_tasks-IsPool w = record { chain = refl; distinct = tt; complete = λ t e. cc }
