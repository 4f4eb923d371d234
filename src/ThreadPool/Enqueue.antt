-- ===== src/ThreadPool/Enqueue.antt =====
-- `enqueue` and `extract_task` on a pool, whatever locks other threads hold.
use concore2full.Base.{
  ℕ, zero, suc, ◌+◌, ◌%◌, ◌<◌, ◌≡◌, refl, ap, ◌∙◌, ◌⊎◌, inl, inr, Bool, true, false, Option, none,
  some, List, [], ◌∷◌, arith, has, Bool-cases, erase, erase-eq_of_not_has, update,
}
use concore2full.WorkLine.{Ptr, Mem, try_push, push_unprotected}
use concore2full.WorkLine.Chain.{IsFree, IsLine-frame, IsLine-worker_data}
use concore2full.WorkLine.Lines.{IsPool, push_unprotected-IsPool, extract_task-IsPool}
use concore2full.ThreadPool.{
  make, ThreadPool, u32, dec32, notify_one, push_loop, clear_links, enqueue, extract_task,
}
use concore2full.ThreadPool.Count.{
  total, Holds, total-update, total-erase, total-erase_outside, total-empty,
}
use native.Mathlib.Decide.{dec_lt}

-- The pointers that `enqueue` clears are those of a task that is on no line.
pub clear_links-IsPool :
    (m : Mem) (lines : ℕ → List Ptr) (t : Ptr)
    → IsPool m lines
    → IsFree m t
    → IsPool (clear_links t m) lines × IsFree (clear_links t m) t
clear_links-IsPool m lines t is free = (
  λ w.
      IsLine-frame m (clear_links t m) w (is w) refl
        (λ a e. record {
          next = ground (arith, free.off);
          prev_link = ground (arith, free.off);
          worker_data = ground arith;
        })
        (λ a e. ground arith),
  record { ne_null = free.ne_null; off = ground (arith, free.off) },
)

module _ (busy : ℕ → Bool) (index count : ℕ) (t : Ptr) (some_line : 0 < count) where
  -- The loop pushes the task on one of the lines, or changes nothing.
  push_loop-IsPool :
      (left i : ℕ) (m : Mem) (lines : ℕ → List Ptr)
      → IsPool m lines
      → IsFree m t
      → (push_loop busy index count t left i m ≡ none)
        ⊎ ((w : ℕ) × (n : Mem) × (push_loop busy index count t left i m ≡ some (w, n))
            × (w < count)
            × IsPool n (update lines w (t ∷ lines w)))
  unfolding push_loop try_push
  push_loop-IsPool zero i m lines is free = inl refl
  push_loop-IsPool (suc left) i m lines is free = elim (Bool-cases (busy i)) [
    | inl taken ↦ rw taken (push_loop-IsPool left (i + 1) m lines is free)
    | inr open_ ↦ rw open_ (
        inr (
          (index + i) % count,
          push_unprotected ((index + i) % count) t m,
          refl,
          omega arith,
          push_unprotected-IsPool m lines is ((index + i) % count) t free,
        ))
  ]

push_loop_free :
    (index count : ℕ) (t : Ptr) (m : Mem)
    → index < count
    → push_loop (λ _. false) index count t count 0 m ≡ some (index, push_unprotected index t m)
unfolding push_loop try_push
push_loop_free index zero t m lt = absurd (omega arith)
push_loop_free index (suc c) t m lt = let e : (index + 0) % suc c ≡ index = grind arith in rw e

notify_one_lem :
    (w : ℕ) (p : ThreadPool)
    → ((notify_one w p).mem ≡ p.mem)
      × ((notify_one w p).num_tasks ≡ u32 (p.num_tasks + 1))
      × ((notify_one w p).work_line_count ≡ p.work_line_count)
      × ((notify_one w p).line_to_push_to ≡ p.line_to_push_to)
unfolding notify_one
notify_one_lem w p = ground arith

-- The constructor makes a pool in order, on which there is no task.
pub make-Holds :
    (m : Mem) (thread_count : ℕ) → IsPool m (λ _. []) → Holds (make m thread_count) (λ _. [])
unfolding make
make-Holds m tc is = record {
  is_pool = is;
  some_line = omega arith;
  outside = λ w b. refl;
  counted = omega (arith, ap u32 (total-empty (tc + 1) (λ _. []) (λ _. refl)));
}

module _ (p : ThreadPool) (lines : ℕ → List Ptr) (h : Holds p lines) (t : Ptr) where
  -- The task has been put on line `w`, and the pool is told.
  landed :
      (w : ℕ) (q : ThreadPool)
      → w < p.work_line_count
      → q.work_line_count ≡ p.work_line_count
      → q.num_tasks ≡ p.num_tasks
      → IsPool q.mem (update lines w (t ∷ lines w))
      → Holds (notify_one w q) (update lines w (t ∷ lines w))
  landed w q lt same_count same_tasks is =
      let lines' = update lines w (t ∷ lines w) in
      let e = notify_one_lem w q in
      let n = total-update p.work_line_count lines w (t ∷ lines w) lt in
      record {
        is_pool = rw (e.0) is;
        some_line = omega (arith, e.2, h.some_line);
        outside = λ v b. ground (arith, h.outside v, e.2);
        counted =
            omega
              (arith, e.1, same_tasks, h.counted, n, ap (λ k. total k lines') (e.2 ∙ same_count));
      }

  -- `enqueue` puts a task that is on no line in front of one of the lines, and keeps the pool in
  -- order, whichever locks are taken.
  pub enqueue-Holds :
      (busy : ℕ → Bool)
      → IsFree p.mem t
      → (w : ℕ) × (w < p.work_line_count) × Holds (enqueue busy t p) (update lines w (t ∷ lines w))
  unfolding enqueue
  enqueue-Holds busy free =
      let (is, free') = clear_links-IsPool p.mem lines t h.is_pool free in
      let count = p.work_line_count in
      let index = p.line_to_push_to % count in
      let below : index % count < count = grind (arith, h.some_line) in
      elim (push_loop-IsPool busy index count t h.some_line count 0 (clear_links t p.mem) lines is
        free') [
          | inl none_took ↦
              rw (none_took, enqueue)
                (
                  index % count,
                  below,
                  landed (index % count) _ below refl refl (
                      push_unprotected-IsPool (clear_links t p.mem) lines is (index % count) t
                        free'),
                )
          | inr (w, n, took, lt, is') ↦ rw (took, enqueue) (w, lt, landed w _ lt refl refl is')
        ]

  -- With all locks free, `enqueue` picks the line after the one that the last call picked, round
  -- and round.
  pub enqueue-turn :
      IsFree p.mem t
      → Holds (enqueue (λ _. false) t p) (
          update lines
            (p.line_to_push_to % p.work_line_count)
            (t ∷ lines (p.line_to_push_to % p.work_line_count)))
        × ((enqueue (λ _. false) t p).line_to_push_to ≡ u32 (p.line_to_push_to + 1))
  unfolding enqueue
  enqueue-turn free =
      let (is, free') = clear_links-IsPool p.mem lines t h.is_pool free in
      let count = p.work_line_count in
      let index = p.line_to_push_to % count in
      let below : index < count = grind (arith, h.some_line) in
      let q = record p {
        mem = push_unprotected index t (clear_links t p.mem);
        line_to_push_to = u32 (p.line_to_push_to + 1);
      } in
      rw (push_loop_free index count t (clear_links t p.mem) below, enqueue)
        (
          landed index q below refl refl
              (push_unprotected-IsPool (clear_links t p.mem) lines is index t free'),
          (notify_one_lem index q).3,
        )

  one_line : (v w : ℕ) → has t (lines v) ≡ true → has t (lines w) ≡ true → v ≡ w
  one_line v w i j = ground (
    arith,
    IsLine-worker_data p.mem v t (h.is_pool v) i,
    IsLine-worker_data p.mem w t (h.is_pool w) j,
  )

  on_some_line : (w : ℕ) → has t (lines w) ≡ true → w < p.work_line_count
  on_some_line w i = elim (dec_lt w p.work_line_count) [
    | yes lt ↦ lt
    | no ge ↦ ground (arith, h.outside w)
  ]

  absent-Holds : ((v : ℕ) → has t (lines v) ≡ false) → Holds p (λ v. erase t (lines v))
  absent-Holds out = record {
    is_pool = λ v. rw (erase-eq_of_not_has t (lines v) (out v)) (h.is_pool v);
    some_line = h.some_line;
    outside = λ v b. rw (h.outside v b);
    counted =
        omega (arith, h.counted, total-erase_outside p.work_line_count lines t (λ v _. out v));
  }

  extracted-Holds :
      (w : ℕ) (n : Mem)
      → has t (lines w) ≡ true
      → IsPool n (λ v. erase t (lines v))
      → Holds (record p { mem = n; num_tasks = dec32 p.num_tasks }) (λ v. erase t (lines v))
  extracted-Holds w n i is = record {
    is_pool = is;
    some_line = h.some_line;
    outside = λ v b. rw (h.outside v b);
    counted = omega (
      arith,
      h.counted,
      total-erase p.work_line_count lines t w (on_some_line w i) i
          (λ v ne. ground (arith, one_line v w)),
    );
  }

  extract-at :
      (d : Option ℕ)
      → (p.mem.task t).worker_data ≡ d
      → (found : Bool) × (q : ThreadPool) × (extract_task t p ≡ some (found, q))
        × ((v : ℕ) → has t (lines v) ≡ true → found ≡ true)
        × (found ≡ true → (v : ℕ) × (has t (lines v) ≡ true))
        × Holds q (λ v. erase t (lines v))
  unfolding extract_task
  extract-at none e =
      let out : (v : ℕ) → has t (lines v) ≡ false =
        λ v. ground (arith, IsLine-worker_data p.mem v t (h.is_pool v)) in
      (false, p, rw (e, extract_task), λ v i. ground (arith, out v), λ f. cc, absent-Holds out)
  extract-at (some w) e =
      let (found, n, runs, all, _, is, _) = extract_task-IsPool p.mem lines h.is_pool t in
      let i : has t (lines w) ≡ true = (h.is_pool w).complete t e in
      let yes_found : found ≡ true = all w i in
      (
        true,
        record p { mem = n; num_tasks = dec32 p.num_tasks },
        rw (e, runs, yes_found, extract_task),
        λ v _. refl,
        λ _. (w, i),
        extracted-Holds w n i is,
      )

  -- `extract_task` never faults, finds the task exactly if it is on a line, takes it off, and keeps
  -- the pool in order.
  pub extract_task-Holds :
      (found : Bool) × (q : ThreadPool) × (extract_task t p ≡ some (found, q))
      × ((v : ℕ) → has t (lines v) ≡ true → found ≡ true)
      × (found ≡ true → (v : ℕ) × (has t (lines v) ≡ true))
      × Holds q (λ v. erase t (lines v))
  extract_task-Holds = extract-at (p.mem.task t).worker_data refl
