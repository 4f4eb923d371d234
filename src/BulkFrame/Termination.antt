-- ===== src/BulkFrame/Termination.antt =====
-- The workers and `await` on a bulk frame come to an end, if they get their turns.
use concore2full.Base.{
  ℕ, ◌+◌, ◌-◌, ◌*◌, ◌^◌, ◌<◌, ◌≤◌, ◌≡◌, refl, ap, ◌⊎◌, inl, inr, Bool-cases, arith, List, ltb,
}
use concore2full.Sum.{sum, sum-map_update, sum_le_mul, sum_last, all_or_some}
use concore2full.Schedule.{run, FairTo, FairTo-Done}
use concore2full.BulkFrame.{Slot, cont, extracted, Pc, idle, returned, State, access, step}
use concore2full.BulkFrame.Kept.{Live, fits, beyond}
use concore2full.BulkFrame.Kept.Step.{stepped-count, step_same, step-Live}
use concore2full.BulkFrame.Kept.Start.{after-Live}
use concore2full.BulkFrame.Steps.{after}
use concore2full.BulkFrame.Outcome.{all_ran, resumed}
use concore2full.BulkFrame.Rest.{
  left, left_worker, left_await, Rest, Over, access-left, same-Rest, Over-same,
}
use concore2full.BulkFrame.Stuck.{all_Over}

-- The thread has jumped to a continuation, or `await` has returned at once, or `await` has extracted
-- the task of the worker.
pub Through : ℕ → State → Type 0
Through k s =
    ((next : Slot) × (s.thread k ≡ Pc.jump next))
    ⊎ ((s.thread k ≡ returned) × (k ≡ s.frame.count))
    ⊎ ((s.thread k ≡ idle) × (s.frame.place k ≡ extracted))

Over-Through : (k : ℕ) (p : Pc) (s : State) → s.thread k ≡ p → Over k p s.frame → Through k s
unfolding Through
Over-Through k idle s e o = ground arith
Over-Through k (Pc.jump next) s e o = inl (next, e)
Over-Through k _ s e o = ground arith

module _ (count : ℕ) where
  abbrev measure : State → ℕ
  measure s = sum (count + 1) (λ k. left count (s.thread k)) + 4 * (count + 1 - s.frame.completions)

  -- The thread `k` changes nothing, or comes nearer to the end.
  step-moves :
      (k : ℕ) (s : State)
      → Live count s
      → (access k (s.thread k) s.frame ≡ (s.frame, s.thread k)) ⊎ (measure (step k s) < measure s)
  unfolding step
  step-moves k s l = elim (Bool-cases (ltb s.frame.count k)) [
    | inl lt ↦ inl (beyond k s.frame (s.thread k) (l.inv.thread k) (l.inv.task k) (ground arith))
    | inr ge ↦
        let le : k ≤ s.frame.count = ground arith in
        let few = rw (stepped-count k s) at (fits count (step k s) (step-Live count k s l)) in
        elim (access-left k s.frame (s.thread k) (l.inv.thread k) few) [
          | inl same ↦ inl same
          | inr lower ↦
              let q = (access k (s.thread k) s.frame).1 in
              inr (
                omega (
                  arith,
                  lower,
                  l.inv.same,
                  ap (λ n. left n (s.thread k)) l.inv.same,
                  ap (λ n. left n q) l.inv.same,
                  sum-map_update (count + 1) k q (left count) s.thread
                      (omega (arith, le, l.inv.same)),
                ))
        ]
  ]

  record Ended (s : State) : Type 0 where
    live : Live count s
    over : (k : ℕ) → k ≤ count → Over k (s.thread k) s.frame

  of_moves : (k : ℕ) (s : State) → Live count s → (step k s ≡ s) ⊎ (measure (step k s) < measure s)
  of_moves k s l = elim (step-moves k s l) [
    | inl same ↦ inl (step_same k s same)
    | inr lower ↦ inr lower
  ]

  resting :
      (k : ℕ) (s : State)
      → Live count s
      → measure s - measure (step k s) ≡ 0
      → Rest k (s.thread k) s.frame
  resting k s l e = elim (step-moves k s l) [
    | inl same ↦ same-Rest k s.frame (s.thread k) (l.inv.thread k) same
    | inr lower ↦ absurd (omega (arith, e, lower))
  ]

  of_lives :
      (s : State)
      → Live count s
      → Ended s ⊎ ((k : ℕ) × (k ≤ count) × (measure (step k s) < measure s))
  of_lives s l = elim (all_or_some (count + 1) (λ k. measure s - measure (step k s))) [
    | inl zeros ↦
        let rest = λ (k : ℕ) (le : k ≤ s.frame.count).
          resting k s l (zeros k (omega (arith, le, l.inv.same))) in
        inl (record {
          live = l;
          over = λ k le. all_Over count s l rest k (omega (arith, le, l.inv.same));
        })
    | inr (k, lt, pos) ↦ inr (k, omega (arith, lt), omega (arith, pos))
  ]

  step-Ended : (k : ℕ) (s : State) → Ended s → Ended (step k s)
  step-Ended k s d =
      let l = d.live in
      let still : access k (s.thread k) s.frame ≡ (s.frame, s.thread k) =
        elim (Bool-cases (ltb s.frame.count k)) [
          | inl lt ↦ beyond k s.frame (s.thread k) (l.inv.thread k) (l.inv.task k) (ground arith)
          | inr ge ↦ Over-same k s.frame (s.thread k) (d.over k (ground (arith, l.inv.same)))
        ] in
      rw (step_same k s still) d

  measure_le : (s : State) → Live count s → measure s ≤ 17 * count + 12
  measure_le s l =
      let worker = λ (k : ℕ) (lt : k < count).
        rw l.inv.same at
          (left_worker k (s.thread k) s.frame (l.inv.thread k) (omega (arith, lt, l.inv.same))) in
      omega (
        arith,
        sum_last count (λ k. left count (s.thread k)),
        sum_le_mul count 8 (λ k. left count (s.thread k)) worker,
        left_await count (s.thread count),
      )

  -- For fewer than 2^31 tasks, whatever the threads do first: under every further schedule with
  -- 17 * count + 12 windows, in each of which every worker and the thread that calls `await` have a
  -- turn, every task has run exactly once; `await` has returned on its thread, or a thread has
  -- jumped to its continuation; and each thread is through: it has jumped to a continuation, or it is
  -- that of `await`, which has returned at once, or a worker whose task `await` has extracted.
  pub bulk-Done :
      (plan rest : List ℕ)
      → count < 2 ^ 31
      → FairTo (λ k. k ≤ count) (17 * count + 12) rest
      → let s = run step rest (after count plan) in
        ((i : ℕ) → i < count → s.frame.ran i ≡ 1)
        × ((s.thread count ≡ returned)
            ⊎ ((k : ℕ) × (k ≤ count) × (s.thread k ≡ Pc.jump (cont count))))
        × ((k : ℕ) → k ≤ count → Through k s)
  bulk-Done plan rest few fair =
      let s0 = after count plan in
      let l0 = after-Live count plan few in
      let s = run step rest s0 in
      let d =
        FairTo-Done (λ j. j ≤ count) step (Live count) (step-Live count) measure Ended of_moves
          of_lives step-Ended fair s0 l0 (measure_le s0 l0) in
      let same : s.frame.count ≡ count = d.live.inv.same in
      let over = λ (k : ℕ) (le : k ≤ s.frame.count). d.over k (omega (arith, le, same)) in
      (
        λ i lt. all_ran count s d.live over i (omega (arith, lt, same)),
        rw same at (resumed count s d.live over),
        λ k le. Over-Through k (s.thread k) s refl (d.over k le),
      )
