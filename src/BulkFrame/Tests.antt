-- ===== src/BulkFrame/Tests.antt =====
-- A run of a bulk frame with one task, and the theorems there.
use concore2full.Base.{
  ◌+◌, ◌-◌, ◌^◌, ◌*◌, some, none, ◌≤◌, ℕ, ◌<◌, ◌≡◌, ◌≢◌, refl, List, [], ◌∷◌, ◌++◌, arith, false,
  true, zero, suc, ◌⊎◌, inl, inr,
}
use concore2full.Schedule.{run, In, FairTo, stop_to, window_to}
use concore2full.BulkFrame.Termination.{Through, bulk-Done}
use concore2full.BulkFrame.Layout.{InRow, bulk_frame_fits}
use concore2full.BulkFrame.{
  frame_size, tasks_at, threads_at, allocate_size, base_frame, from_base_frame, cont, Pc, returned,
  spawn, access, step,
}
use concore2full.BulkFrame.Steps.{after}
use concore2full.BulkFrame.Early.{bulk_early-ran}
use concore2full.BulkFrame.Safety.{uses_frame, bulk_await-last}

-- The worker 0 starts, `await` (the thread 1) takes its place, and the worker goes on behind it.
abbrev swapped : List ℕ
swapped = (0 ∷ 0 ∷ 0 ∷ 1 ∷ 1 ∷ 1 ∷ 1 ∷ 1 ∷ []) ++ (1 ∷ 1 ∷ 1 ∷ 0 ∷ 0 ∷ 0 ∷ 0 ∷ 0 ∷ []) ++ (0 ∷ [])

swapped_run :
    ((after 1 swapped).thread 0 ≡ Pc.jump (cont 1))
    × ((after 1 swapped).thread 1 ≡ Pc.jump (cont 0))
unfolding run step access spawn
swapped_run = (refl, refl)

bulk_await-last_example :
    ((i : ℕ) → i < 1 → (after 1 swapped).frame.ran i ≡ 1)
    × ((j : ℕ)
        → j ≢ 0
        → (uses_frame ((after 1 swapped).thread j) ≡ false)
          × ((after 1 swapped).thread j ≢ Pc.jump (cont 1))
          × ((after 1 swapped).thread j ≢ returned))
unfolding run step access spawn
bulk_await-last_example = bulk_await-last 1 0 swapped (omega arith) refl

-- The worker has added to `completed_tasks_` and not yet to `finalized_tasks_` when `await` returns.
abbrev early : List ℕ
early = 0 ∷ 0 ∷ 0 ∷ 0 ∷ 0 ∷ 1 ∷ []

early_run : ((after 1 early).thread 1 ≡ returned) × (uses_frame ((after 1 early).thread 0) ≡ true)
unfolding run step access spawn
early_run = (refl, refl)

bulk_early-ran_example : (after 1 early).frame.ran 0 ≡ 1
unfolding run step access spawn
bulk_early-ran_example = bulk_early-ran 1 early (omega arith) refl 0 (omega arith)

-- Turns of the thread that calls `await` and of the worker, in each window.
abbrev both_turns : List ℕ
both_turns = 1 ∷ 0 ∷ []

both_turns_all : (k : ℕ) → k ≤ 1 → In k both_turns
both_turns_all zero le = inr (inl refl)
both_turns_all (suc zero) le = inl refl
both_turns_all (suc (suc k)) le = absurd (omega arith)

abbrev rounds : ℕ → List ℕ
rounds zero = []
rounds (suc n) = both_turns ++ rounds n

rounds-FairTo : (n : ℕ) → FairTo (λ k. k ≤ 1) n (rounds n)
rounds-FairTo zero = stop_to
rounds-FairTo (suc n) = window_to both_turns both_turns_all (rounds-FairTo n)

-- The worker takes the task, and then both go on in turns.
bulk-Done_example :
    let s = run step (rounds 29) (after 1 (0 ∷ 0 ∷ [])) in
    ((i : ℕ) → i < 1 → s.frame.ran i ≡ 1)
    × ((s.thread 1 ≡ returned) ⊎ ((k : ℕ) × (k ≤ 1) × (s.thread k ≡ Pc.jump (cont 1))))
    × ((k : ℕ) → k ≤ 1 → Through k s)
bulk-Done_example = bulk-Done 1 (0 ∷ 0 ∷ []) (rounds 29) (omega arith) (rounds-FairTo 29)

-- Three tasks of 40 bytes behind a frame of 56 bytes, at the offset 8 of a block at 4096.
bulk_frame_fits_example :
    (size : ℕ) × (frame_size 56 40 8 3 ≡ some size)
    × (let p = base_frame 8 4096 in
        let tasks = tasks_at 56 p in
        let slots = threads_at 56 40 3 p in
        (size ≡ 56 + 3 * 40 + (3 + 1) * 8)
        × (from_base_frame 8 p ≡ 4096)
        × (p + 56 ≤ tasks)
        × InRow tasks 40 3 slots
        × InRow slots 8 (3 + 1) (4096 + allocate_size 64 56 size))
bulk_frame_fits_example =
    bulk_frame_fits 56 40 8 64 8 3 4096 (omega arith) (omega arith) (omega arith) (omega arith)
      (omega arith)

-- One task less than 2^31: `count + 1` overflows.
frame_size-overflow : frame_size 56 40 8 (2 ^ 31 - 1) ≡ none
unfolding frame_size
frame_size-overflow = refl
