-- ===== src/Handover/Safety.antt =====
-- What the lines promise to threads that hand over tasks.
use concore2full.Base.{
  ℕ, ◌+◌, ◌%◌, ◌^◌, ◌<◌, ◌≡◌, refl, sym, ap, ◌∙◌, ◌≢◌, ◌⊎◌, inl, inr, Bool, true, false, Bool-cases,
  Option, none, some, List, [], arith, has, ◌==◌,
}
use concore2full.Sum.{sum_none}
use concore2full.WorkLine.{Ptr, Mem}
use concore2full.WorkLine.Chain.{IsLine-worker_data, IsLine-not_has}
use concore2full.WorkLine.Lines.{IsPool}
use concore2full.ThreadPool.Count.{total}
use concore2full.Handover.{
  Place, fresh, coming, on_line, given_to, Pool, Result, nothing, runs, got, refused, Pc, user,
  count_up, down_got, down_runs, fault, State, Choice,
}
use concore2full.Handover.Invariant.{
  line_of, is_given, times, PcOk, brings, uncounted, overcounted, Inv,
}
use concore2full.Handover.Steps.{after, after-Inv}

-- The task that a thread has taken.
abbrev pub holds : Pc → Option Ptr
holds (user (runs t)) = some t
holds (user (got t)) = some t
holds (down_got t) = some t
holds (down_runs t) = some t
holds _ = none

abbrev pub Absent : (ℕ → List Ptr) → Ptr → Type 0
Absent lines t = (w : ℕ) → has t (lines w) ≡ false

-- Where a task is: no thread has enqueued it; one thread is about to push it; it is on one line; or it
-- has been taken.
abbrev pub Somewhere : (count : ℕ) → (ℕ → List Ptr) → State → Ptr → Type 0
Somewhere count lines s t =
    ((s.pool.place t ≡ fresh) × (s.pool.given t ≡ 0) × Absent lines t)
    ⊎ ((k : ℕ) × (brings (s.pc k) ≡ some t)
        × ((j : ℕ) → brings (s.pc j) ≡ some t → j ≡ k)
        × (s.pool.given t ≡ 0)
        × Absent lines t)
    ⊎ ((w : ℕ) × (w < count)
        × (has t (lines w) ≡ true)
        × ((v : ℕ) → has t (lines v) ≡ true → v ≡ w)
        × (s.pool.given t ≡ 0))
    ⊎ ((s.pool.given t ≡ 1) × Absent lines t)

brings-coming :
    (count k : ℕ) (x : Pc) (p : Pool) (t : Ptr)
    → PcOk count k x p
    → brings x ≡ some t
    → p.place t ≡ coming k
brings-coming count k (user r) p t o e = cc
brings-coming count k count_up p t o e = cc
brings-coming count k _ p t o e = ground (arith, o, e)

holds-given :
    (count k : ℕ) (x : Pc) (p : Pool) (t : Ptr)
    → PcOk count k x p
    → holds x ≡ some t
    → p.place t ≡ given_to k
holds-given count k (user nothing) p t o e = cc
holds-given count k (user (runs u)) p t o e = ground (arith, o, e)
holds-given count k count_up p t o e = cc
holds-given count k _ p t o e = ground (arith, o, e)

module _ (count threads : ℕ) (s : State) (inv : Inv count threads s) where
  absent : (t : Ptr) → line_of (s.pool.place t) ≡ none → Absent inv.lines t
  absent t e w =
      IsLine-not_has s.pool.mem w t (inv.in_order.is_pool w)
        (λ d. ground (arith, e, inv.in_order.placed t))

  only : (t : Ptr) (w v : ℕ) → s.pool.place t ≡ on_line w → has t (inv.lines v) ≡ true → v ≡ w
  only t w v at i =
      ground
        (arith, inv.in_order.placed t, IsLine-worker_data s.pool.mem v t (inv.in_order.is_pool v) i)

  coming_same : (i j : ℕ) (t : Ptr) → s.pool.place t ≡ coming i → s.pool.place t ≡ coming j → j ≡ i
  coming_same i j t e f = ground arith

  somewhere : (t : Ptr) (q : Place) → s.pool.place t ≡ q → Somewhere count inv.lines s t
  somewhere t fresh e = inl (e, ground (arith, inv.in_order.given t), absent t (ground arith))
  somewhere t (coming k) e = inr (
      inl (
        k,
        inv.brought t k e,
        λ j b. coming_same k j t e (brings-coming count j (s.pc j) s.pool t (inv.threads_ok j) b),
        ground (arith, inv.in_order.given t),
        absent t (ground arith),
      ))
  somewhere t (on_line w) e = inr (
      inr (
        inl (
          w,
          inv.in_order.in_range t w e,
          (inv.in_order.is_pool w).complete t (ground (arith, inv.in_order.placed t)),
          λ v i. only t w v e i,
          ground (arith, inv.in_order.given t),
        )))
  somewhere t (given_to k) e =
      inr (inr (inr (ground (arith, inv.in_order.given t), absent t (ground arith))))

  given_same :
      (i j : ℕ) (t : Ptr) → s.pool.place t ≡ given_to i → s.pool.place t ≡ given_to j → i ≡ j
  given_same i j t e f = ground arith

  pub no_fault : (k : ℕ) (x : Pc) → s.pc k ≡ x → x ≢ fault
  no_fault k x e is =
      let o : PcOk count k fault s.pool = rw (e ∙ is) at (inv.threads_ok k) in absurd o

  one_holder : (j k : ℕ) (t : Ptr) → holds (s.pc j) ≡ some t → holds (s.pc k) ≡ some t → j ≡ k
  one_holder j k t a b =
      given_same j k t (holds-given count j (s.pc j) s.pool t (inv.threads_ok j) a)
        (holds-given count k (s.pc k) s.pool t (inv.threads_ok k) b)

  held : (k : ℕ) (t : Ptr) → holds (s.pc k) ≡ some t → s.pool.given t ≡ 1
  held k t a =
      ground
        (arith, inv.in_order.given t, holds-given count k (s.pc k) s.pool t (inv.threads_ok k) a)

  refused_given : (k : ℕ) (t : Ptr) → s.pc k ≡ user (refused t true) → s.pool.given t ≡ 1
  refused_given k t e =
      let o : PcOk count k (user (refused t true)) s.pool = rw e at (inv.threads_ok k) in
      let g = given_times (s.pool.place t) (o refl) in inv.in_order.given t ∙ g
    where
      given_times : (q : Place) → is_given q ≡ true → times q ≡ 1
      given_times fresh e = cc
      given_times _ e = ground arith

  -- With no thread between the lines and the counter, that counts the tasks.
  exact :
      ((k : ℕ) → k < threads → uncounted (s.pc k) + overcounted (s.pc k) ≡ 0)
      → s.pool.num_tasks % 2 ^ 32 ≡ total count inv.lines % 2 ^ 32
  exact quiet = omega (
    arith,
    inv.counted,
    sum_none threads (λ k. uncounted (s.pc k)) (λ k lt. omega (arith, quiet k lt)),
    sum_none threads (λ k. overcounted (s.pc k)) (λ k lt. omega (arith, quiet k lt)),
  )

-- No task is lost or given twice. The memory holds lines of different tasks, and each task is on one of
-- them and was taken by no thread, or was taken once and is on none, or one thread is about to push
-- it, or no thread has called `enqueue` on it. No assertion fails and no null pointer is written
-- through. A task that a thread has taken is held by no other thread. This is for any number of
-- threads and lines, where no task is enqueued twice.
pub task-once :
    (count threads : ℕ) (m : Mem) (plan : List (ℕ × Choice))
    → 0 < count
    → IsPool m (λ _. [])
    → let s = after count threads m plan in
      ((lines : ℕ → List Ptr) × IsPool s.pool.mem lines × ((t : Ptr) → Somewhere count lines s t))
      × ((k : ℕ) → s.pc k ≢ fault)
      × ((j k : ℕ) (t : Ptr)
          → holds (s.pc j) ≡ some t
          → holds (s.pc k) ≡ some t
          → (j ≡ k) × (s.pool.given t ≡ 1))
task-once count threads m plan some_line is =
    let s = after count threads m plan in
    let inv = after-Inv count threads m plan some_line is in
    (
      (inv.lines, inv.in_order.is_pool, λ t. somewhere count threads s inv t (s.pool.place t) refl),
      λ k e. no_fault count threads s inv k fault e refl,
      λ j k t a b. (one_holder count threads s inv j k t a b, held count threads s inv j t a),
    )

-- What `extract_task` answers on a task that had been pushed when it was called.
abbrev pub answer : Bool → Ptr → Result
answer true t = got t
answer false t = refused t true

answered :
    (count threads : ℕ) (s : State) (inv : Inv count threads s) (k : ℕ) (t : Ptr) (found : Bool)
    → s.pc k ≡ user (answer found t)
    → (s.pool.given t ≡ 1) × ((j : ℕ) → holds (s.pc j) ≡ some t → (j == k) ≡ found)
answered count threads s inv k t true e = (
  held count threads s inv k t (ap holds e),
  λ j a. let same = one_holder count threads s inv j k t a (ap holds e) in ground (arith, same),
)
answered count threads s inv k t false e = (
  refused_given count threads s inv k t e,
  λ j a. elim (Bool-cases (j == k)) [
    | inr other ↦ other
    | inl own ↦
        let same : j ≡ k = ground arith in
        let b : none ≡ some t = sym (ap holds e) ∙ sym (ap (λ i. holds (s.pc i)) same) ∙ a in cc
  ],
)

-- When `extract_task` has been called on a task that had been pushed, and returns, then the task has
-- been taken off its line, once. If the result is true, no other thread holds the task; if it is
-- false, a thread that holds it is another one.
pub extract-exact :
    (count threads : ℕ) (m : Mem) (plan : List (ℕ × Choice)) (k : ℕ) (t : Ptr) (found : Bool)
    → 0 < count
    → IsPool m (λ _. [])
    → (after count threads m plan).pc k ≡ user (answer found t)
    → ((after count threads m plan).pool.given t ≡ 1)
      × ((j : ℕ) → holds ((after count threads m plan).pc j) ≡ some t → (j == k) ≡ found)
extract-exact count threads m plan k t found some_line is =
    answered count threads (after count threads m plan)
      (after-Inv count threads m plan some_line is) k t found

-- Whenever no thread is between a line and `num_tasks_`, that is the number of tasks on the lines,
-- modulo 2^32, whatever calls are going on otherwise.
pub num_tasks-total :
    (count threads : ℕ) (m : Mem) (plan : List (ℕ × Choice))
    → 0 < count
    → IsPool m (λ _. [])
    → ((k : ℕ)
        → k < threads
        → uncounted ((after count threads m plan).pc k)
            + overcounted ((after count threads m plan).pc k)
          ≡ 0)
    → let s = after count threads m plan in
      (lines : ℕ → List Ptr) × IsPool s.pool.mem lines
      × (s.pool.num_tasks % 2 ^ 32 ≡ total count lines % 2 ^ 32)
num_tasks-total count threads m plan some_line is quiet =
    let s = after count threads m plan in
    let inv = after-Inv count threads m plan some_line is in
    (inv.lines, inv.in_order.is_pool, exact count threads s inv quiet)
