-- ===== src/ThreadPool/Work.antt =====
-- How `execute_work` finds a task.
use concore2full.Base.{
  ℕ, zero, suc, ◌+◌, ◌-◌, ◌*◌, ◌%◌, ◌<◌, ◌≤◌, ◌≡◌, refl, sym, ap, ◌∙◌, ◌≢◌, ◌⊎◌, inl, inr, Bool,
  false, List, [], ◌∷◌, arith, ◌==◌, update, length,
}
use native.Mathlib.Nat.{add-mod-mod, add-mod_right, mod-eq_of_lt}
use native.Mathlib.Decide.{dec_lt, ℕ_discrete}
use concore2full.WorkLine.{Ptr, null, Mem, try_pop}
use concore2full.WorkLine.Lines.{IsPool, first, rest, try_pop-cases}
use concore2full.ThreadPool.{ThreadPool, u32, dec32, pop_loop, pop_task, work_round, ran}
use concore2full.ThreadPool.Count.{Holds, total-update, total-empty}

-- The outcome of the loop: no task and no change, or the first task of a line, taken off.
abbrev Popped : Mem → (ℕ → List Ptr) → ℕ → Ptr × ℕ × Mem → Type 0
Popped m lines count (t, w, n) =
    ((t ≡ null) × (n ≡ m))
    ⊎ ((t ≢ null)
        × (w < count)
        × (t ≡ first (lines w))
        × IsPool n (update lines w (rest (lines w))))

module _ (busy : ℕ → Bool) (hint count : ℕ) (m : Mem) (lines : ℕ → List Ptr) (is : IsPool m lines)
    (some_line : 0 < count) where
  pop_loop-Popped : (left i li : ℕ) → Popped m lines count (pop_loop busy hint count left i li m)
  unfolding pop_loop
  pop_loop-Popped zero i li = inl (refl, refl)
  pop_loop-Popped (suc left) i li =
      let w = (i + hint) % count in
      elim (try_pop-cases m lines is (busy i) w) [
        | inl (e, _) ↦ rw e (pop_loop-Popped left (i + 1) w)
        | inr (ne, e, is') ↦
            let found : ((try_pop (busy i) w m).0 == null) ≡ false = ground arith in
            rw found (inr (ne, grind arith, e, is'))
      ]

  -- With all locks free, the lines that were tried in vain are empty.
  pop_loop-tried :
      (free : (i : ℕ) → busy i ≡ false) (left i li : ℕ)
      → (pop_loop busy hint count left i li m).0 ≡ null
      → (k : ℕ) → i ≤ k
      → k < i + left
      → lines ((k + hint) % count) ≡ []
  unfolding pop_loop
  pop_loop-tried free zero i li e k ge lt = absurd (omega arith)
  pop_loop-tried free (suc left) i li e k ge lt =
      let w = (i + hint) % count in
      elim (try_pop-cases m lines is (busy i) w) [
        | inl (nothing, why) ↦ elim (ℕ_discrete k i) [
          | yes here ↦ rw here (why (free i))
          | no later ↦
              pop_loop-tried free left (i + 1) w (rw nothing at e) k (omega arith) (omega arith)
        ]
        | inr (ne, _, _) ↦
            let found : ((try_pop (busy i) w m).0 == null) ≡ false = ground arith in
            absurd (ne (rw found at e))
      ]

-- Each line comes up within a round over all of them.
comes_up : (hint count w : ℕ) → w < count → (k : ℕ) × (k < count) × ((k + hint) % count ≡ w)
comes_up hint count w lt =
    let h = hint % count in
    let small : h < count = grind arith in
    elim (dec_lt w h) [
      | yes below ↦ (
        w + count - h,
        omega arith,
        sym (add-mod-mod (w + count - h) hint count)
            ∙ ap (λ n. n % count) (omega arith)
            ∙ add-mod_right w count
            ∙ mod-eq_of_lt lt,
      )
      | no above ↦ (
        w - h,
        omega arith,
        sym (add-mod-mod (w - h) hint count) ∙ ap (λ n. n % count) (omega arith) ∙ mod-eq_of_lt lt,
      )
    ]

length-rest : (xs : List Ptr) → first xs ≢ null → length (rest xs) + 1 ≡ length xs
length-rest [] ne = absurd (ne refl)
length-rest (x ∷ xs) ne = omega arith

module _ (p : ThreadPool) (lines : ℕ → List Ptr) (h : Holds p lines) where
  taken :
      (w : ℕ) (n : Mem)
      → w < p.work_line_count
      → first (lines w) ≢ null
      → IsPool n (update lines w (rest (lines w)))
      → Holds
          (record p { mem = n; num_tasks = dec32 p.num_tasks })
          (update lines w (rest (lines w)))
  taken w n lt ne is = record {
    is_pool = is;
    some_line = h.some_line;
    outside = λ v b. ground (arith, h.outside v);
    counted = omega (
      arith,
      h.counted,
      length-rest (lines w) ne,
      total-update p.work_line_count lines w (rest (lines w)) lt,
    );
  }

  -- `execute_work` finds no task and changes nothing, or takes the first task of a line and keeps
  -- the pool in order; with all locks free, it finds no task only if there is none.
  pop_task-Holds :
      (busy : ℕ → Bool) (hint : ℕ)
      → (((pop_task busy hint p).0 ≡ null)
          × ((pop_task busy hint p).2 ≡ p)
          × (((i : ℕ) → busy i ≡ false) → (w : ℕ) → lines w ≡ []))
        ⊎ ((w : ℕ) × (w < p.work_line_count)
            × ((pop_task busy hint p).1 ≡ w)
            × ((pop_task busy hint p).0 ≢ null)
            × ((pop_task busy hint p).0 ≡ first (lines w))
            × Holds (pop_task busy hint p).2 (update lines w (rest (lines w))))
  unfolding pop_task
  pop_task-Holds busy hint =
      let count = p.work_line_count in
      let r = pop_loop busy hint count (2 * count) 0 0 p.mem in
      elim (pop_loop-Popped busy hint count p.mem lines h.is_pool h.some_line (2 * count) 0 0) [
        | inl (e, same) ↦ inl (
          e,
          ground arith,
          λ free w. elim (dec_lt w count) [
            | yes lt ↦
                let (k, few, at) = comes_up hint count w lt in
                rw (← at) (
                  pop_loop-tried busy hint count p.mem lines h.is_pool h.some_line free (2 * count)
                    0 0 e k (omega arith) (omega arith))
            | no ge ↦ h.outside w (omega arith)
          ],
        )
        | inr (ne, lt, e, is) ↦
            let found : (r.0 == null) ≡ false = ground arith in
            inr (r.1, lt, refl, ne, e, rw found (taken r.1 r.2 lt (ground arith) is))
      ]

  -- While tasks are counted, no stop is requested and all locks are free, a round of
  -- `execute_work` runs the first task of a line, without sleeping.
  work_round-runs :
      (sleep : ThreadPool → ℕ × ThreadPool) (busy : ℕ → Bool) (hint : ℕ)
      → p.num_tasks ≢ 0
      → ((i : ℕ) → busy i ≡ false)
      → (w : ℕ) × (lines w ≢ [])
        × ((work_round false false sleep busy hint p).0 ≡ ran (first (lines w)) w hint)
        × Holds (work_round false false sleep busy hint p).1 (update lines w (rest (lines w)))
  unfolding work_round
  work_round-runs sleep busy hint busy_pool free = elim (pop_task-Holds busy hint) [
    | inl (_, _, empty) ↦
        absurd (busy_pool (h.counted ∙ ap u32 (total-empty p.work_line_count lines (empty free))))
    | inr (w, lt, at, ne, e, h') ↦
        let awake : (p.num_tasks == 0) ≡ false = ground arith in
        let found : ((pop_task busy hint p).0 == null) ≡ false = ground arith in
        rw (awake, found) (w, λ q. ground arith, ground arith, h')
  ]
