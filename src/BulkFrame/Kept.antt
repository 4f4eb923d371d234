-- ===== src/BulkFrame/Kept.antt =====
-- The threads of a bulk frame, its slots and its tasks together, and the bounds on the counters.
pub mod Step
pub mod Start
use concore2full.Base.{
  ℕ, ◌+◌, ◌<◌, ◌≤◌, ◌^◌, ◌≡◌, refl, sym, ap, ◌∙◌, ◌≢◌, ◌⊎◌, inl, inr, Bool, false, Bool-cases,
  Option, none, some, arith, update, update_same, ◌==◌, ltb,
}
use concore2full.Sum.{
  sum, sum-map_update, sum_le, sum_term, sum_mono, sum_both_le, sum_last, sum_none, sum_zero,
}
use concore2full.BulkFrame.{
  Frame, Pc, idle, check, queued, Place, Slot, State, spawn, access, step, is_null,
}
use concore2full.BulkFrame.Invariant.{PcOk, TaskOk, Inv}
use concore2full.BulkFrame.Steps.{Bounded, step-Inv, spawn-Inv, access-count}
use concore2full.BulkFrame.Weights.{past, gone, occupies, in_place, is_taken, is_extracted, buried}
use concore2full.BulkFrame.Count.{access-taken, access-buried, access-gone, access-past}
use concore2full.BulkFrame.Live.{
  storing, Apart, LivePc, LiveSlot, LiveTask, live-own, live-others, live-Apart, live-Slot,
  live-Task, live-await, live-stored, live-started, LiveLast, live-owner, last-own, last-others,
}

-- The counters against the threads and the places of the tasks.
pub record Counts (f : Frame) (thread : ℕ → Pc) : Type 0 where
  pub completions :
      f.completions ≡ sum (f.count + 1) (λ k. past (thread k)) + sum (f.count + 1) f.skipped
  pub tombstones :
      sum (f.count + 1) (λ x. buried (f.threads x)) + sum (f.count + 1) (λ k. in_place (thread k))
      ≡ sum f.count (λ i. is_extracted (f.place i))
  pub found : sum (f.count + 1) f.found ≡ sum (f.count + 1) (λ k. gone (thread k))
  pub started :
      f.started + sum (f.count + 1) (λ k. occupies (thread k))
      ≡ sum f.count (λ i. is_taken (f.place i))

pub record Live (count : ℕ) (s : State) : Type 0 where
  pub inv : Inv count s
  pub counts : Counts s.frame s.thread
  pub at : (k : ℕ) → LivePc k (s.thread k) s.frame
  pub apart : (k j : ℕ) → k ≢ j → Apart (s.thread k) (s.thread j)
  pub slots : (x : ℕ) → LiveSlot x s.frame
  pub tasks : (i : ℕ) → LiveTask i (s.thread s.frame.count) s.frame
  pub owner : s.frame.count < s.frame.completions → s.frame.owner s.frame.count ≢ none
  pub last : (k : ℕ) → LiveLast k (s.thread k) s.frame
  pub occupied :
      (x : ℕ)
      → x < s.frame.started
      → (is_null (s.frame.threads x) ≡ false) ⊎ ((k : ℕ) × (storing (s.thread k) ≡ some x))

pub past_le : (p : Pc) → past p ≤ 1
past_le idle = omega arith
past_le _ = omega arith

is_taken_le : (p : Place) → is_taken p ≤ 1
is_taken_le queued = omega arith
is_taken_le _ = omega arith

-- A thread that is past `completed_tasks_` has a task that was not extracted.
pub past-place :
    (k : ℕ) (p : Pc) (f : Frame) → PcOk k p f → k < f.count → past p + is_extracted (f.place k) ≤ 1
past-place k idle f o lt = ground arith
past-place k _ f o lt = ground arith

module _ (count : ℕ) (s : State) (l : Live count s) where
  pub completions_le : s.frame.completions ≤ s.frame.count + past (s.thread s.frame.count)
  completions_le =
      let f = s.frame in
      let n = f.count in
      omega (
        arith,
        l.counts.completions,
        l.counts.tombstones,
        sum_mono (n + 1) f.skipped (λ x. buried (f.threads x)) (λ x. (l.slots x).0),
        sum_last n (λ k. past (s.thread k)),
        sum_both_le n (λ k. past (s.thread k)) (λ k. is_extracted (f.place k))
            (λ k lt. past-place k (s.thread k) f (l.inv.thread k) lt),
      )

  pub fits : s.frame.completions ≤ s.frame.count + 1
  fits = omega (arith, completions_le, past_le (s.thread s.frame.count))

  pub within : s.frame.started ≤ s.frame.count
  within = omega (
    arith,
    l.counts.started,
    sum_le s.frame.count (λ i. is_taken (s.frame.place i)) (λ i. is_taken_le (s.frame.place i)),
  )

  room : (k : ℕ) → k ≤ s.frame.count → occupies (s.thread k) ≡ 1 → s.frame.started < s.frame.count
  room k le e = omega (
    arith,
    e,
    l.counts.started,
    sum_term (s.frame.count + 1) k (λ j. occupies (s.thread j)) (omega (arith, le)),
    sum_le s.frame.count (λ i. is_taken (s.frame.place i)) (λ i. is_taken_le (s.frame.place i)),
  )

-- What an access changes in the sums, it changes on both sides.
counted :
    (k : ℕ) (q : Pc) (f g : Frame) (thread : ℕ → Pc)
    → g.count ≡ f.count
    → k ≤ f.count
    → (g.completions + past (thread k) + sum (f.count + 1) f.skipped
        ≡ f.completions + past q + sum (f.count + 1) g.skipped)
    → (sum (f.count + 1) (λ x. buried (g.threads x))
          + in_place q
          + sum f.count (λ i. is_extracted (f.place i))
        ≡ sum (f.count + 1) (λ x. buried (f.threads x))
          + in_place (thread k)
          + sum f.count (λ i. is_extracted (g.place i)))
    → (sum (f.count + 1) g.found + gone (thread k) ≡ sum (f.count + 1) f.found + gone q)
    → (g.started + occupies q + sum f.count (λ i. is_taken (f.place i))
        ≡ f.started + occupies (thread k) + sum f.count (λ i. is_taken (g.place i)))
    → Counts f thread
    → Counts g (update thread k q)
counted k q f g thread same le a b d c h =
    let lt : k < f.count + 1 = omega (arith, le) in
    record {
      completions =
          rw same
            (omega (arith, a, h.completions, sum-map_update (f.count + 1) k q past thread lt));
      tombstones =
          rw same
            (omega (arith, b, h.tombstones, sum-map_update (f.count + 1) k q in_place thread lt));
      found = rw same (omega (arith, d, h.found, sum-map_update (f.count + 1) k q gone thread lt));
      started =
          rw same
            (omega (arith, c, h.started, sum-map_update (f.count + 1) k q occupies thread lt));
    }

module _ (k : ℕ) (f : Frame) where
  access-completions : (p : Pc) → (access k p f).0.completions ≤ f.completions + 1
  unfolding access
  access-completions idle = ground arith
  access-completions _ = ground arith

  -- There is no thread behind the one that calls `await`.
  pub beyond : (p : Pc) → PcOk k p f → TaskOk k f → f.count < k → access k p f ≡ (f, p)
  unfolding access
  beyond idle o t lt = ground arith
  beyond _ o t lt = ground arith
