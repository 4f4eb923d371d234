-- ===== src/ThreadPool/Lifecycle.antt =====
-- The constructor of `thread_pool` where a thread may fail to start, and the destructor.
use concore2full.Base.{
  ℕ, zero, suc, ◌+◌, ◌<◌, ◌≤◌, ◌^◌, ◌≡◌, refl, ap, ◌∙◌, ◌≢◌, ◌⊎◌, inl, inr, Bool, true, false,
  Bool-cases, Option, none, some, List, [], ◌∷◌, ◌&&◌, arith, if◌then◌else◌, length, ltb, update,
  ◌==◌,
}
use concore2full.WorkLine.{Ptr, Mem}
use concore2full.WorkLine.Chain.{IsFree}
use concore2full.WorkLine.Lines.{IsPool}
use concore2full.ThreadPool.{ThreadPool, make, join, enqueue, extract_task}
use concore2full.ThreadPool.Count.{total, total-nil, total-some, Holds}
use concore2full.ThreadPool.Enqueue.{make-Holds, enqueue-Holds, extract_task-Holds}

-- The loop that starts the threads, with `left` rounds left: how many have started, and whether
-- `std::thread` has thrown. `starts i` says whether the thread `i` can be started.
unfoldable start_threads : (starts : ℕ → Bool) (left i : ℕ) → ℕ × Bool
start_threads starts zero i = (i, false)
start_threads starts (suc left) i =
    let later = start_threads starts left (i + 1) in if starts i then later else (i, true)

-- The constructor. It catches what `std::thread` throws, and joins the threads that have started.
unfoldable pub construct : (starts : ℕ → Bool) → Mem → ℕ → ThreadPool
unfolding make start_threads join
construct starts m thread_count =
    let r = start_threads starts thread_count 0 in
    let p = record (make m thread_count) { threads = r.0 } in if r.1 then join p else p

-- The destructor; `none` is `std::terminate`. `num_tasks_` is an `int`, negative from 2^31 on.
unfoldable destroy : ThreadPool → Option ThreadPool
unfolding join
destroy p = if ltb 0 p.num_tasks && ltb p.num_tasks (2 ^ 31) then none else some (join p)

start_threads-cases :
    (starts : ℕ → Bool) (left i : ℕ)
    → ((start_threads starts left i ≡ (i + left, false))
        × ((j : ℕ) → i ≤ j → j < i + left → starts j ≡ true))
      ⊎ ((j : ℕ) × (j < i + left) × (starts j ≡ false) × (start_threads starts left i ≡ (j, true)))
unfolding start_threads
start_threads-cases starts zero i = inl (ground arith, λ j ge lt. absurd (omega arith))
start_threads-cases starts (suc left) i = elim (Bool-cases (starts i)) [
  | inr fails ↦ inr (i, omega arith, fails, rw fails refl)
  | inl works ↦ rw works (elim (start_threads-cases starts left (i + 1)) [
    | inl (e, all) ↦ inl (
      ground (arith, e),
      λ j ge lt. elim (Bool-cases (j == i)) [
        | inl here ↦ let same : j ≡ i = ground arith in ap starts same ∙ works
        | inr other ↦ all j (ground arith) (omega arith)
      ],
    )
    | inr (j, lt, fails, e) ↦ inr (j, omega arith, fails, e)
  ])
]

join-Holds : (p : ThreadPool) (lines : ℕ → List Ptr) → Holds p lines → Holds (join p) lines
unfolding join
join-Holds p lines h = record {
  is_pool = h.is_pool;
  some_line = h.some_line;
  outside = h.outside;
  counted = h.counted;
}

joined : (p : ThreadPool) → ((join p).threads ≡ 0) × ((join p).global_shutdown ≡ true)
unfolding join
joined p = (refl, refl)

pool_of : Mem → ℕ → ℕ → ThreadPool
pool_of m tc n = record (make m tc) { threads = n }

made : (m : Mem) (tc n : ℕ) → IsPool m (λ _. []) → Holds (pool_of m tc n) (λ _. [])
unfolding pool_of
made m tc n is =
    let h = make-Holds m tc is in
    record {
      is_pool = h.is_pool;
      some_line = h.some_line;
      outside = h.outside;
      counted = h.counted;
    }

-- A task that is enqueued can be extracted again.
back :
    (p : ThreadPool) (lines : ℕ → List Ptr) (busy : ℕ → Bool) (t : Ptr)
    → Holds p lines
    → IsFree p.mem t
    → (q : ThreadPool) × (extract_task t (enqueue busy t p) ≡ some (true, q))
back p lines busy t h free =
    let (w, lt, h') = enqueue-Holds p lines h t busy free in
    let (found, q, runs, all, _, _) =
      extract_task-Holds (enqueue busy t p) (update lines w (t ∷ lines w)) h' t in
    let yes_found : found ≡ true = all w (ground arith) in
    (q, runs ∙ ap (λ b. some (b, q)) yes_found)

-- The pool is in order, has no task, and gives back the task `t` once it is enqueued.
abbrev pub Serves : ThreadPool → (busy : ℕ → Bool) → Ptr → Type 0
Serves p busy t =
    Holds p (λ _. []) × (q : ThreadPool) × (extract_task t (enqueue busy t p) ≡ some (true, q))

served :
    (p : ThreadPool) (m : Mem) (busy : ℕ → Bool) (t : Ptr)
    → Holds p (λ _. [])
    → p.mem ≡ m
    → IsFree m t
    → Serves p busy t
served p m busy t h e free = let (q, runs) = back p (λ _. []) busy t h (rw e free) in (h, q, runs)

made-mem : (m : Mem) (tc : ℕ) → (make m tc).mem ≡ m
unfolding make
made-mem m tc = refl

all_started :
    (starts : ℕ → Bool) (m : Mem) (tc : ℕ)
    → start_threads starts tc 0 ≡ (0 + tc, false)
    → construct starts m tc ≡ make m tc
unfolding construct make
all_started starts m tc e =
    let same : 0 + tc ≡ tc = omega arith in
    rw (e, construct) (ap (λ n. record (make m tc) { threads = n }) same)

one_failed :
    (starts : ℕ → Bool) (m : Mem) (tc j : ℕ)
    → start_threads starts tc 0 ≡ (j, true)
    → construct starts m tc ≡ join (pool_of m tc j)
unfolding construct pool_of
one_failed starts m tc j e = rw (e, construct) refl

join-mem : (p : ThreadPool) → (join p).mem ≡ p.mem
unfolding join
join-mem p = refl

make-mem : (m : Mem) (tc n : ℕ) → (pool_of m tc n).mem ≡ m
unfolding make pool_of
make-mem m tc n = refl

-- From lines that are empty, the constructor makes the pool with all its threads if each one starts. If
-- one does not, it leaves a pool that is shut down and has no thread. In both cases the pool is in
-- order and has no task, and a free task that is enqueued there can be extracted again.
pub construct-cases :
    (starts : ℕ → Bool) (m : Mem) (thread_count : ℕ) (busy : ℕ → Bool) (t : Ptr)
    → IsPool m (λ _. [])
    → IsFree m t
    → Serves (construct starts m thread_count) busy t
      × ((((j : ℕ) → j < thread_count → starts j ≡ true)
            × (construct starts m thread_count ≡ make m thread_count))
          ⊎ ((j : ℕ) × (j < thread_count)
              × (starts j ≡ false)
              × ((construct starts m thread_count).threads ≡ 0)
              × ((construct starts m thread_count).global_shutdown ≡ true)))
construct-cases starts m tc busy t is free = elim (start_threads-cases starts tc 0) [
  | inl (e, all) ↦ rw (all_started starts m tc e) (
    served (make m tc) m busy t (make-Holds m tc is) (made-mem m tc) free,
    inl (λ j lt. all j (omega arith) (omega arith), refl),
  )
  | inr (j, lt, fails, e) ↦
      let p = pool_of m tc j in
      let off = joined p in
      rw (one_failed starts m tc j e) (
        served (join p) m busy t (join-Holds p (λ _. []) (made m tc j is))
            (join-mem p ∙ make-mem m tc j) free,
        inr (j, omega (arith, lt), fails, off.0, off.1),
      )
]

nil_of : (xs : List Ptr) → length xs ≡ 0 → xs ≡ []
nil_of [] e = refl
nil_of (x ∷ xs) e = absurd (omega (arith, e))

-- On a pool in order with fewer than 2^31 tasks, the destructor terminates the program if there is a
-- task left on a line; otherwise it asks all threads to stop and waits for them.
destroy-cases :
    (p : ThreadPool) (lines : ℕ → List Ptr)
    → Holds p lines
    → total p.work_line_count lines < 2 ^ 31
    → ((destroy p ≡ none) × (w : ℕ) × (w < p.work_line_count) × (lines w ≢ []))
      ⊎ ((q : ThreadPool) × (destroy p ≡ some q)
          × (q.global_shutdown ≡ true)
          × (q.threads ≡ 0)
          × ((w : ℕ) → lines w ≡ []))
unfolding destroy
destroy-cases p lines h few = elim (Bool-cases (ltb 0 p.num_tasks && ltb p.num_tasks (2 ^ 31))) [
  | inl some_left ↦
      let (w, lt, some_task) = total-some p.work_line_count lines (ground (arith, h.counted)) in
      inl (rw some_left refl, w, lt, λ e. ground (arith, ap length e))
  | inr none_left ↦
      let empty : total p.work_line_count lines ≡ 0 = ground (arith, h.counted) in
      let off = joined p in
      inr (
        join p,
        rw none_left refl,
        off.1,
        off.0,
        λ w. elim (Bool-cases (ltb w p.work_line_count)) [
          | inl lt ↦ nil_of (lines w) (total-nil p.work_line_count lines w empty (ground arith))
          | inr ge ↦ h.outside w (ground arith)
        ],
      )
]
