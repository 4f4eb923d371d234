-- ===== src/BulkFrame/Rest.antt =====
-- What an access of a thread of a bulk frame leaves to do, and where a thread can rest.
use concore2full.Base.{ℕ, ◌+◌, ◌-◌, ◌*◌, ◌<◌, ◌≤◌, ◌≡◌, refl, ◌≢◌, ◌⊎◌, inl, inr, none, some, arith}
use concore2full.BulkFrame.{
  Slot, null, popped, extracted, Frame, Pc, idle, occupy, store_cont, run_task, check, returned,
  try_task, in_occupy, in_store, in_run, in_finalize, store_await, extract, wait_slot, read_slot,
  finalize, wait_final, access,
}
use concore2full.BulkFrame.Invariant.{PcOk}
use concore2full.BulkFrame.Weights.{past, occupies, is_taken, is_extracted}
use concore2full.BulkFrame.Live.{storing, Stored, LivePc, in_task, Tried}

-- How many accesses a thread has left before its end, those after `completed_tasks_` is increased
-- again not counted.
abbrev pub left : ℕ → Pc → ℕ
left n idle = 8
left n occupy = 7
left n (store_cont own) = 6
left n (run_task own) = 5
left n check = 7 + 5 * n
left n returned = 0
left n (try_task i) = 6 + 5 * (n - i)
left n (in_occupy i) = 5 + 5 * (n - i)
left n (in_store i slot) = 4 + 5 * (n - i)
left n (in_run i) = 3 + 5 * (n - i)
left n (in_finalize i) = 2 + 5 * (n - i)
left n store_await = 5
left n (extract own) = 3
left n (wait_slot own index) = 5
left n (read_slot own index) = 4
left n (finalize own index next) = 2
left n (wait_final next) = 1
left n (Pc.jump next) = 0

pub left_worker : (k : ℕ) (p : Pc) (f : Frame) → PcOk k p f → k < f.count → left f.count p ≤ 8
left_worker k idle f o lt = ground arith
left_worker k _ f o lt = ground arith

pub left_await : (n : ℕ) (p : Pc) → left n p ≤ 8 + 5 * n
left_await n idle = ground arith
left_await n _ = ground arith

-- The thread cannot go on.
abbrev pub Rest : ℕ → Pc → Frame → Type 0
Rest k idle f = f.place k ≡ extracted
Rest k returned f = Unit
Rest k (wait_slot own index) f = f.threads index ≡ null
Rest k (wait_final next) f = f.finalized ≢ f.count + 1
Rest k (Pc.jump next) f = Unit
Rest k _ f = ⊥

-- The thread has jumped or returned, or there is no task for it.
abbrev pub Over : ℕ → Pc → Frame → Type 0
Over k idle f = f.place k ≡ extracted
Over k returned f = k ≡ f.count
Over k (Pc.jump next) f = Unit
Over k _ f = ⊥

module _ (k : ℕ) (f : Frame) where
  pub access-left :
      (p : Pc)
      → PcOk k p f
      → (access k p f).0.completions ≤ f.count + 1
      → let r = access k p f in
        (r ≡ (f, p))
        ⊎ (left f.count r.1 + 4 * (f.count + 1 - r.0.completions)
            < left f.count p + 4 * (f.count + 1 - f.completions))
  unfolding access
  access-left idle o b = ground arith
  access-left _ o b = ground arith

  pub same-Rest : (p : Pc) → PcOk k p f → access k p f ≡ (f, p) → Rest k p f
  unfolding access
  same-Rest idle o e = ground arith
  same-Rest _ o e = ground arith

  pub Over-same : (p : Pc) → Over k p f → access k p f ≡ (f, p)
  unfolding access
  Over-same idle o = ground arith
  Over-same _ o = ground arith

  pub Rest-free : (p : Pc) → Rest k p f → storing p ≡ none
  Rest-free idle r = ground arith
  Rest-free _ r = ground arith

  pub Rest-occupies : (p : Pc) → Rest k p f → occupies p ≡ 0
  Rest-occupies idle r = ground arith
  Rest-occupies _ r = ground arith

  pub Rest-in_task : (p : Pc) → Rest k p f → in_task p ≡ none
  Rest-in_task idle r = ground arith
  Rest-in_task _ r = ground arith

  pub storing-count : (p : Pc) (x : ℕ) → PcOk k p f → storing p ≡ some x → k ≤ f.count
  storing-count idle x o e = ground arith
  storing-count _ x o e = ground arith

  -- The thread that calls `await` has returned, or has tried each task.
  pub Rest-Tried :
      (p : Pc)
      → PcOk k p f
      → Rest k p f
      → k ≡ f.count
      → (p ≡ returned) ⊎ ((j : ℕ) → j < f.count → Tried p f.count j)
  Rest-Tried idle o r e = ground arith
  Rest-Tried returned o r e = inl refl
  Rest-Tried _ o r e = inr (ground arith)

  pub past_not_queued :
      (p : Pc)
      → PcOk k p f
      → k < f.count
      → past p + is_extracted (f.place k) ≡ 1
      → is_taken (f.place k) ≡ 1
  past_not_queued idle o lt e = ground arith
  past_not_queued _ o lt e = ground arith

  pub past-Stored : (p : Pc) → LivePc k p f → past p ≡ 1 → k ≡ f.count → Stored f
  past-Stored idle l e is = ground arith
  past-Stored _ l e is = ground arith

  -- Where no thread waits for a slot, one that waits for the others is past `completed_tasks_`.
  pub Rest-past :
      (p : Pc)
      → PcOk k p f
      → Rest k p f
      → k ≡ f.count
      → past p ≡ 1
      → ((own index : ℕ) → p ≢ wait_slot own index)
      → f.settled k ≡ 1
  Rest-past idle o r is e free = ground arith
  Rest-past (wait_slot own index) o r is e free = absurd (free own index refl)
  Rest-past _ o r is e free = ground arith

  pub Rest-settled :
      (p : Pc)
      → PcOk k p f
      → Rest k p f
      → k < f.count
      → f.place k ≡ popped
      → ((own index : ℕ) → p ≢ wait_slot own index)
      → f.settled k ≡ 1
  Rest-settled idle o r lt e free = ground arith
  Rest-settled (wait_slot own index) o r lt e free = absurd (free own index refl)
  Rest-settled _ o r lt e free = ground arith

  pub Rest-Over :
      (p : Pc)
      → PcOk k p f
      → Rest k p f
      → ((own index : ℕ) → p ≢ wait_slot own index)
      → ((next : Slot) → p ≢ wait_final next)
      → Over k p f
  Rest-Over idle o r free final = ground arith
  Rest-Over (wait_slot own index) o r free final = absurd (free own index refl)
  Rest-Over (wait_final next) o r free final = absurd (final next refl)
  Rest-Over _ o r free final = ground arith
