-- ===== src/BulkFrame/Count.antt =====
-- How the counters of a bulk frame go together with the places of the tasks and the threads: what an
-- access changes in the sums.
use concore2full.Base.{ℕ, ◌+◌, ◌<◌, ◌≤◌, ◌^◌, ◌≡◌, arith}
use concore2full.Sum.{sum, sum-update, sum-map_update}
use concore2full.BulkFrame.{tombstone, cont, popped, extracted, Frame, Pc, idle, in_store, access}
use concore2full.BulkFrame.Invariant.{PcOk, TaskOk}
use concore2full.BulkFrame.Weights.{past, gone, occupies, in_place, is_taken, is_extracted, buried}
use concore2full.BulkFrame.Live.{LivePc, LiveSlot}

module _ (k : ℕ) (f : Frame) (t : (i : ℕ) → TaskOk i f) where
  -- `started_tasks_` and the threads that are about to add to it, against the tasks that are taken.
  pub access-taken :
      (p : Pc)
      → PcOk k p f
      → f.started + 1 < 2 ^ 32
      → let r = access k p f in
        r.0.started + occupies r.1 + sum f.count (λ i. is_taken (f.place i))
        ≡ f.started + occupies p + sum f.count (λ i. is_taken (r.0.place i))
  unfolding access
  access-taken idle o b = ground (arith, t k, sum-map_update f.count k popped is_taken f.place)
  access-taken (Pc.try_task i) o b =
      ground (arith, t i, sum-map_update f.count i extracted is_taken f.place)
  access-taken _ o b = ground arith

  -- The tombstones and the tasks that are about to get one, against the tasks that are extracted.
  pub access-buried :
      (p : Pc)
      → PcOk k p f
      → LivePc k p f
      → LiveSlot f.count f
      → f.started ≤ f.count
      → let r = access k p f in
        sum (f.count + 1) (λ x. buried (r.0.threads x))
          + in_place r.1
          + sum f.count (λ i. is_extracted (f.place i))
        ≡ sum (f.count + 1) (λ x. buried (f.threads x))
          + in_place p
          + sum f.count (λ i. is_extracted (r.0.place i))
  unfolding access
  access-buried idle o l z b =
      ground (arith, t k, sum-map_update f.count k popped is_extracted f.place)
  access-buried (Pc.try_task i) o l z b =
      ground (arith, t i, sum-map_update f.count i extracted is_extracted f.place)
  access-buried (Pc.store_cont own) o l z b =
      ground (arith, sum-map_update (f.count + 1) own (cont k) buried f.threads)
  access-buried (in_store i slot) o l z b =
      ground (arith, sum-map_update (f.count + 1) slot tombstone buried f.threads)
  access-buried Pc.store_await o l z b =
      ground (arith, sum-map_update (f.count + 1) f.count (cont k) buried f.threads)
  access-buried _ o l z b = ground arith

  -- The continuations that are found, against the threads that have found one.
  pub access-gone :
      (p : Pc)
      → PcOk k p f
      → f.completions ≤ f.count + 1
      → let r = access k p f in
        sum (f.count + 1) r.0.found + gone p ≡ sum (f.count + 1) f.found + gone r.1
  unfolding access
  access-gone idle o b = ground arith
  access-gone (Pc.read_slot own index) o b =
      ground (arith, sum-update (f.count + 1) index (f.found index + 1) f.found)
  access-gone _ o b = ground arith

  -- `completed_tasks_` against the threads that are past it and the tombstones that they found.
  pub access-past :
      (p : Pc)
      → PcOk k p f
      → f.completions ≤ f.count + 1
      → let r = access k p f in
        r.0.completions + past p + sum (f.count + 1) f.skipped
        ≡ f.completions + past r.1 + sum (f.count + 1) r.0.skipped
  unfolding access
  access-past idle o b = ground arith
  access-past (Pc.read_slot own index) o b =
      ground (arith, sum-update (f.count + 1) index (f.skipped index + 1) f.skipped)
  access-past _ o b = ground arith
