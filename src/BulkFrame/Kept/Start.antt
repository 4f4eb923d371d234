-- ===== src/BulkFrame/Kept/Start.antt =====
-- The frame as `spawn` leaves it, and the states after it.
use concore2full.Base.{ℕ, ◌+◌, ◌<◌, ◌^◌, ◌≡◌, refl, none, List, arith}
use concore2full.Sum.{sum_none, sum_zero}
use concore2full.BulkFrame.{Pc, idle, check, queued, Place, spawn, step}
use concore2full.BulkFrame.Steps.{Bounded, spawn-Inv}
use concore2full.BulkFrame.Weights.{past, gone, occupies, in_place, is_taken, is_extracted}
use concore2full.BulkFrame.Live.{storing, LivePc, LiveSlot, LiveTask}
use concore2full.Schedule.{run-keeps}
use concore2full.BulkFrame.Steps.{after}
use concore2full.BulkFrame.Kept.Step.{step-Live}
use concore2full.BulkFrame.Kept.{Counts, Live, fits}

module _ (count : ℕ) where
  spawn_at : (k : ℕ) → LivePc k ((spawn count).thread k) (spawn count).frame
  unfolding spawn
  spawn_at k = ground arith

  spawn_free : (k : ℕ) → storing ((spawn count).thread k) ≡ none
  unfolding spawn
  spawn_free k = ground arith

  spawn_weightless :
      (w : Pc → ℕ) → w check ≡ 0 → w idle ≡ 0 → (k : ℕ) → w ((spawn count).thread k) ≡ 0
  unfolding spawn
  spawn_weightless w a b k = ground arith

  spawn_place :
      (w : Place → ℕ) → w queued ≡ 0 → (k : ℕ) → k < count → w ((spawn count).frame.place k) ≡ 0
  unfolding spawn
  spawn_place w e k lt = ground arith

  spawn_slots : (x : ℕ) → LiveSlot x (spawn count).frame
  unfolding spawn
  spawn_slots x = ground arith

  spawn_tasks :
      (i : ℕ) → LiveTask i ((spawn count).thread (spawn count).frame.count) (spawn count).frame
  unfolding spawn
  spawn_tasks i = ground arith

  spawn-counts : Counts (spawn count).frame (spawn count).thread
  unfolding spawn
  spawn-counts =
      let thread = (spawn count).thread in
      let place = (spawn count).frame.place in
      record {
        completions = omega (
          arith,
          sum_zero (count + 1),
          sum_none (count + 1) (λ k. past (thread k)) (λ k _. spawn_weightless past refl refl k),
        );
        tombstones = omega (
          arith,
          sum_zero (count + 1),
          sum_none (count + 1) (λ k. in_place (thread k))
              (λ k _. spawn_weightless in_place refl refl k),
          sum_none count (λ i. is_extracted (place i)) (λ i lt. spawn_place is_extracted refl i lt),
        );
        found = omega (
          arith,
          sum_zero (count + 1),
          sum_none (count + 1) (λ k. gone (thread k)) (λ k _. spawn_weightless gone refl refl k),
        );
        started = omega (
          arith,
          sum_none (count + 1) (λ k. occupies (thread k))
              (λ k _. spawn_weightless occupies refl refl k),
          sum_none count (λ k. is_taken (place k)) (λ k lt. spawn_place is_taken refl k lt),
        );
      }

  spawn_completions : (spawn count).frame.count < (spawn count).frame.completions → ⊥
  unfolding spawn
  spawn_completions lt = omega (arith, lt)

  spawn_started : (x : ℕ) → x < (spawn count).frame.started → ⊥
  unfolding spawn
  spawn_started x lt = omega (arith, lt)

  spawn-Live : count < 2 ^ 31 → Live count (spawn count)
  spawn-Live few = record {
    inv = spawn-Inv count few;
    counts = spawn-counts;
    at = spawn_at;
    apart = λ i j ne some_slot. absurd (some_slot (spawn_free i));
    slots = spawn_slots;
    tasks = spawn_tasks;
    owner = λ lt. absurd (spawn_completions lt);
    last = λ k lt. absurd (spawn_completions lt);
    occupied = λ x lt. absurd (spawn_started x lt);
  }

pub after-Live : (count : ℕ) (plan : List ℕ) → count < 2 ^ 31 → Live count (after count plan)
after-Live count plan few =
    run-keeps step (Live count) (step-Live count) plan (spawn count) (spawn-Live count few)

pub after-Bounded : (count : ℕ) (plan : List ℕ) → count < 2 ^ 31 → Bounded (after count plan)
after-Bounded count plan few =
    let l = after-Live count plan few in omega (arith, fits count (after count plan) l, l.inv.small)
