-- ===== src/BulkFrame/Stuck.antt =====
-- Where the threads of a bulk frame stand when none of them can go on.
use concore2full.Base.{
  ℕ, ◌+◌, ◌<◌, ◌≤◌, ◌≡◌, refl, ap, ◌≢◌, inl, inr, false, Bool-cases, arith, ltb,
}
use concore2full.Sum.{sum_both_full, sum_ones, sum_last, sum_mono, sum_none}
use concore2full.BulkFrame.{Slot, null, returned, wait_slot, wait_final, State, is_null}
use concore2full.BulkFrame.Invariant.{PcOk}
use concore2full.BulkFrame.Weights.{past, occupies, is_taken, is_extracted, buried}
use concore2full.BulkFrame.Live.{LivePc}
use concore2full.BulkFrame.Kept.{Live, past-place, completions_le, fits, past_le}
use concore2full.BulkFrame.Rest.{
  Rest, Over, Rest-free, Rest-occupies, Rest-in_task, storing-count, Rest-Tried, past_not_queued,
  past-Stored, Rest-past, Rest-settled, Rest-Over,
}

module _ (count : ℕ) (s : State) (l : Live count s)
    (rest : (k : ℕ) → k ≤ s.frame.count → Rest k (s.thread k) s.frame) where
  all_past :
      s.thread s.frame.count ≡ returned
      → (k : ℕ) → k < s.frame.count
      → past (s.thread k) + is_extracted (s.frame.place k) ≡ 1
  all_past e k lt =
      let f = s.frame in
      let n = f.count in
      let back : LivePc n returned f = rw e at (l.at n) in
      let none_past : past (s.thread n) ≡ 0 = ap past e in
      sum_both_full n k (λ j. past (s.thread j)) (λ j. is_extracted (f.place j))
        (λ j below. past-place j (s.thread j) f (l.inv.thread j) below)
        (omega (
          arith,
          back,
          none_past,
          l.counts.completions,
          l.counts.tombstones,
          sum_mono (n + 1) f.skipped (λ x. buried (f.threads x)) (λ x. (l.slots x).0),
          sum_last n (λ j. past (s.thread j)),
        ))
        lt

  -- Every task is taken.
  taken : (i : ℕ) → i < s.frame.count → is_taken (s.frame.place i) ≡ 1
  taken i lt =
      let f = s.frame in
      let n = f.count in
      elim (Rest-Tried n f (s.thread n) (l.inv.thread n) (rest n (omega arith)) refl) [
        | inl back ↦ past_not_queued i f (s.thread i) (l.inv.thread i) lt (all_past back i lt)
        | inr tried ↦ let out = (l.tasks i).1 (tried i lt) lt in ground arith
      ]

  all_started : s.frame.started ≡ s.frame.count
  all_started = omega (
    arith,
    l.counts.started,
    sum_ones s.frame.count (λ i. is_taken (s.frame.place i)) taken,
    sum_none (s.frame.count + 1) (λ k. occupies (s.thread k))
        (λ k lt. Rest-occupies k s.frame (s.thread k) (rest k (omega (arith, lt)))),
  )

  stored : (x : ℕ) → x < s.frame.count → is_null (s.frame.threads x) ≡ false
  stored x lt = elim (l.occupied x (omega (arith, lt, all_started))) [
    | inl there ↦ there
    | inr (k, e) ↦
        let le = storing-count k s.frame (s.thread k) x (l.inv.thread k) e in
        let free = Rest-free k s.frame (s.thread k) (rest k le) in absurd (ground (arith, e, free))
  ]

  await_past : s.frame.count < s.frame.completions → past (s.thread s.frame.count) ≡ 1
  await_past lt = omega (arith, lt, completions_le count s l, past_le (s.thread s.frame.count))

  -- No thread waits for a slot.
  no_wait_slot : (k : ℕ) → k ≤ s.frame.count → (own index : ℕ) → s.thread k ≢ wait_slot own index
  no_wait_slot k le own index e =
      let f = s.frame in
      let n = f.count in
      let empty : f.threads index ≡ null = rw e at (rest k le) in
      let at : PcOk k (wait_slot own index) f = rw e at (l.inv.thread k) in
      let below : index < f.completions = at.3 in
      elim (Bool-cases (ltb index n)) [
        | inl lt ↦ let there = stored index (ground arith) in ground arith
        | inr ge ↦
            let above : n ≤ index = ground arith in
            let last : index ≡ n = omega (arith, below, fits count s l, above) in
            let there =
              past-Stored n f (s.thread n) (l.at n) (await_past (omega (arith, below, last)))
                refl in
            ground arith
      ]

  task_settled : (i : ℕ) → i < s.frame.count → s.frame.settled i ≡ 1
  task_settled i lt =
      let f = s.frame in
      let n = f.count in
      let out = Rest-settled i f (s.thread i) (l.inv.thread i) (rest i (omega (arith, lt))) lt in
      let own = Rest-in_task n f (s.thread n) (rest n (omega arith)) in
      ground (arith, taken i lt, l.tasks i, out, no_wait_slot i)

  -- No thread waits for the others to be through with the frame.
  no_wait_final : (k : ℕ) → k ≤ s.frame.count → (next : Slot) → s.thread k ≢ wait_final next
  no_wait_final k le next e =
      let f = s.frame in
      let n = f.count in
      let waits : f.finalized ≢ n + 1 = rw e at (rest k le) in
      let at : PcOk k (wait_final next) f = rw e at (l.inv.thread k) in
      let last : f.settled n ≡ 1 =
        Rest-past n f (s.thread n) (l.inv.thread n) (rest n (omega arith)) refl (await_past at.4)
          (no_wait_slot n (omega arith)) in
      waits (
        omega
          (arith, l.inv.finalized, sum_last n f.settled, last, sum_ones n f.settled task_settled))

  pub all_Over : (k : ℕ) → k ≤ s.frame.count → Over k (s.thread k) s.frame
  all_Over k le =
      Rest-Over k s.frame (s.thread k) (l.inv.thread k) (rest k le) (no_wait_slot k le)
        (no_wait_final k le)
