-- ===== src/BulkFrame/Outcome.antt =====
-- What has happened to the tasks and to the flow that called `await` on a bulk frame when all threads
-- are through.
use concore2full.Base.{
  ℕ, ◌+◌, ◌<◌, ◌≤◌, ◌≡◌, refl, ◌⊎◌, inl, inr, Bool-cases, Option, none, some, arith, ltb,
}
use concore2full.Sum.{sum_both_full, sum_both_ones, sum_last, sum_none}
use concore2full.BulkFrame.{extracted, cont, Frame, Pc, idle, returned, State}
use concore2full.BulkFrame.Invariant.{PcOk}
use concore2full.BulkFrame.Weights.{gone, in_place, is_extracted, buried}
use concore2full.BulkFrame.Live.{in_task, Last}
use concore2full.BulkFrame.Kept.{Live}
use concore2full.BulkFrame.Rest.{Over}

module _ (k : ℕ) (f : Frame) where
  Over-settled :
      (p : Pc) → PcOk k p f → Over k p f → k < f.count → (f.settled k ≡ 1) ⊎ (f.place k ≡ extracted)
  Over-settled idle o v lt = ground arith
  Over-settled _ o v lt = ground arith

  Over-in_task : (p : Pc) → Over k p f → in_task p ≡ none
  Over-in_task idle v = ground arith
  Over-in_task _ v = ground arith

  Over-in_place : (p : Pc) → Over k p f → in_place p ≡ 0
  Over-in_place idle v = ground arith
  Over-in_place _ v = ground arith

  Over-gone :
      (p : Pc) → PcOk k p f → Over k p f → k < f.count → gone p + is_extracted (f.place k) ≡ 1
  Over-gone idle o v lt = ground arith
  Over-gone _ o v lt = ground arith

  Over-await : (p : Pc) → PcOk k p f → Over k p f → k ≡ f.count → (p ≡ returned) ⊎ (gone p ≡ 1)
  Over-await idle o v e = ground arith
  Over-await _ o v e = ground arith

  Over-Last :
      (p : Pc)
      → PcOk k p f
      → Last p f.count
      → (k ≤ f.count) × (Over k p f → p ≡ Pc.jump (cont f.count))
  Over-Last idle o h = ground arith
  Over-Last _ o h = ground arith

module _ (count : ℕ) (s : State) (l : Live count s)
    (over : (k : ℕ) → k ≤ s.frame.count → Over k (s.thread k) s.frame) where
  pub all_ran : (i : ℕ) → i < s.frame.count → s.frame.ran i ≡ 1
  all_ran i lt =
      let f = s.frame in
      let own = Over-settled i f (s.thread i) (l.inv.thread i) (over i (omega (arith, lt))) lt in
      let none_left = Over-in_task f.count f (s.thread f.count) (over f.count (omega arith)) in
      let settled : f.settled i ≡ 1 = ground (arith, l.tasks i) in (l.inv.task i).1 settled lt

  -- Unless `await` returned, each slot has been found, or is skipped with a tombstone.
  last_found : gone (s.thread s.frame.count) ≡ 1 → s.frame.found s.frame.count ≡ 1
  last_found e =
      let f = s.frame in
      let n = f.count in
      let both =
        sum_both_full (n + 1) n f.found (λ x. buried (f.threads x)) (λ x _. (l.slots x).1)
          (omega (
            arith,
            e,
            l.counts.found,
            l.counts.tombstones,
            sum_last n (λ k. gone (s.thread k)),
            sum_both_ones n (λ k. gone (s.thread k)) (λ k. is_extracted (f.place k))
                (λ k lt.
                  Over-gone k f (s.thread k) (l.inv.thread k) (over k (omega (arith, lt))) lt),
            sum_none (n + 1) (λ k. in_place (s.thread k))
                (λ k lt. Over-in_place k f (s.thread k) (over k (omega (arith, lt)))),
          ))
          (omega arith) in
      ground (arith, both, l.slots n)

  last_given : gone (s.thread s.frame.count) ≡ 1 → s.frame.count < s.frame.completions
  last_given e = elim (Bool-cases (ltb s.frame.count s.frame.completions)) [
    | inl lt ↦ ground arith
    | inr ge ↦ absurd (ground (arith, last_found e, l.slots s.frame.count))
  ]

  by_owner :
      s.frame.count < s.frame.completions
      → (o : Option ℕ) → s.frame.owner s.frame.count ≡ o
      → (k : ℕ) × (k ≤ s.frame.count) × (s.thread k ≡ Pc.jump (cont s.frame.count))
  by_owner lt none e = absurd (l.owner lt e)
  by_owner lt (some k) e =
      let f = s.frame in
      let (le, to) = Over-Last k f (s.thread k) (l.inv.thread k) (l.last k lt e) in
      (k, le, to (over k le))

  -- `await` has returned, or a thread has jumped to its continuation.
  pub resumed :
      (s.thread s.frame.count ≡ returned)
      ⊎ ((k : ℕ) × (k ≤ s.frame.count) × (s.thread k ≡ Pc.jump (cont s.frame.count)))
  resumed =
      let f = s.frame in
      elim (Over-await f.count f (s.thread f.count) (l.inv.thread f.count)
        (over f.count (omega arith)) refl) [
          | inl back ↦ inl back
          | inr e ↦ inr (by_owner (last_given e) (f.owner f.count) refl)
        ]
