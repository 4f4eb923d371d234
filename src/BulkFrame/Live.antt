-- ===== src/BulkFrame/Live.antt =====
-- What keeps the threads of a bulk frame from waiting for ever: what holds of each thread, slot and
-- task, and that an access keeps it.
use concore2full.Base.{ℕ, ◌+◌, ◌<◌, ◌≤◌, ◌^◌, ◌≡◌, ◌≢◌, ◌⊎◌, false, Option, none, some, arith}
use concore2full.BulkFrame.{
  null, cont, queued, extracted, Frame, Pc, idle, occupy, store_cont, run_task, check, returned,
  try_task, in_occupy, in_store, in_run, in_finalize, extract, wait_slot, read_slot, finalize,
  wait_final, access, is_null,
}
use concore2full.BulkFrame.Invariant.{PcOk}
use concore2full.BulkFrame.Weights.{occupies, buried}

-- The slot that the thread has occupied and not yet stored to.
abbrev pub storing : Pc → Option ℕ
storing (store_cont own) = some own
storing (in_store i slot) = some slot
storing _ = none

abbrev pub Apart : Pc → Pc → Type 0
Apart p q = storing p ≢ none → storing p ≢ storing q

-- The slot of `await` is stored.
abbrev pub Stored : Frame → Type 0
Stored f = is_null (f.threads f.count) ≡ false

abbrev pub LivePc : ℕ → Pc → Frame → Type 0
LivePc k (store_cont own) f = (own < f.started) × (f.threads own ≡ null)
LivePc k (in_store i slot) f = (slot < f.started) × (f.threads slot ≡ null)
LivePc k returned f = f.count ≤ f.completions
LivePc k (run_task own) f = own ≡ f.count → k ≡ f.count
LivePc k (extract own) f = (k ≡ f.count → Stored f) × (own ≡ f.count → k ≡ f.count)
LivePc k (wait_slot own index) f =
    (k ≡ f.count → Stored f)
    × (own ≡ f.count → k ≡ f.count)
    × (f.skipped index ≡ 0)
    × (f.found index ≡ 0)
LivePc k (read_slot own index) f =
    (k ≡ f.count → Stored f)
    × (own ≡ f.count → k ≡ f.count)
    × (f.skipped index ≡ 0)
    × (f.found index ≡ 0)
    × (is_null (f.threads index) ≡ false)
LivePc k (finalize own index next) f = k ≡ f.count → Stored f
LivePc k (wait_final next) f = k ≡ f.count → Stored f
LivePc k (Pc.jump next) f = k ≡ f.count → Stored f
LivePc k _ f = Unit

-- A slot that nobody has occupied is empty, what a slot holds is found once, and the slot of `await`
-- holds no continuation but its own.
abbrev pub LiveSlot : ℕ → Frame → Type 0
LiveSlot x f =
    (f.skipped x ≤ buried (f.threads x))
    × (f.found x + buried (f.threads x) ≤ 1)
    × (f.threads x ≡ null → f.found x ≡ 0)
    × (f.completions ≤ x → (f.skipped x ≡ 0) × (f.found x ≡ 0))
    × (f.started ≤ x → x < f.count → f.threads x ≡ null)
    × (x ≡ f.count → (f.threads x ≡ null) ⊎ (f.threads x ≡ cont f.count))

-- The thread that got the last index goes on behind `await`.
abbrev pub Last : Pc → ℕ → Type 0
Last (wait_slot own index) count = index ≡ count
Last (read_slot own index) count = index ≡ count
Last (finalize own index next) count = (index ≡ count) × (next ≡ cont count)
Last (wait_final next) count = next ≡ cont count
Last (Pc.jump next) count = next ≡ cont count
Last _ count = ⊥

abbrev pub LiveLast : ℕ → Pc → Frame → Type 0
LiveLast k p f = f.count < f.completions → f.owner f.count ≡ some k → Last p f.count

-- The task that the thread runs in place.
abbrev pub in_task : Pc → Option ℕ
in_task (in_occupy i) = some i
in_task (in_store i slot) = some i
in_task (in_run i) = some i
in_task (in_finalize i) = some i
in_task _ = none

-- `await` has tried to extract the task.
abbrev pub Tried : Pc → ℕ → ℕ → Type 0
Tried idle count j = ⊥
Tried occupy count j = ⊥
Tried (store_cont _) count j = ⊥
Tried (run_task _) count j = ⊥
Tried check count j = ⊥
Tried returned count j = ⊥
Tried (try_task i) count j = j < i
Tried (in_occupy i) count j = j ≤ i
Tried (in_store i _) count j = j ≤ i
Tried (in_run i) count j = j ≤ i
Tried (in_finalize i) count j = j ≤ i
Tried _ count j = j < count

-- `q` is where the thread that calls `await` stands.
abbrev pub LiveTask : ℕ → Pc → Frame → Type 0
LiveTask i q f =
    (f.place i ≡ extracted → i < f.count → (f.settled i ≡ 1) ⊎ (in_task q ≡ some i))
    × (Tried q f.count i → i < f.count → f.place i ≢ queued)

module _ (k : ℕ) (f : Frame) (few : f.count < 2 ^ 31) (fits : f.completions ≤ f.count + 1)
    (within : f.started ≤ f.count) where
  pub live-own :
      (p : Pc)
      → PcOk k p f
      → LivePc k p f
      → (occupies p ≡ 1 → f.started < f.count)
      → LiveSlot f.started f
      → LiveSlot f.completions f
      → LivePc k (access k p f).1 (access k p f).0
  unfolding access
  live-own idle o l room zero fresh = ground arith
  live-own _ o l room zero fresh = ground arith

  pub live-others :
      (p q : Pc) (j : ℕ)
      → j ≢ k
      → PcOk k p f
      → PcOk j q f
      → Apart p q
      → LivePc k p f
      → LivePc j q f
      → (occupies p ≡ 1 → f.started < f.count)
      → LivePc j q (access k p f).0
  unfolding access
  live-others idle idle j ne o u apart l m room = ground arith
  live-others _ _ j ne o u apart l m room = ground arith

  pub live-Apart :
      (p q : Pc) (j : ℕ)
      → LivePc j q f
      → Apart p q
      → Apart q p
      → Apart (access k p f).1 q × Apart q (access k p f).1
  unfolding access
  live-Apart idle idle j m a b = ground arith
  live-Apart _ _ j m a b = ground arith

  pub live-Slot :
      (p : Pc) (x : ℕ)
      → PcOk k p f
      → LivePc k p f
      → LiveSlot x f
      → (occupies p ≡ 1 → f.started < f.count)
      → LiveSlot x (access k p f).0
  unfolding access
  live-Slot idle x o l s room = ground arith
  live-Slot _ x o l s room = ground arith

  -- A step of a worker, and one of the thread that calls `await`.
  pub live-Task :
      (p q : Pc) (i : ℕ) → k ≢ f.count → PcOk k p f → LiveTask i q f → LiveTask i q (access k p f).0
  unfolding access
  live-Task idle idle i ne o t = ground arith
  live-Task _ _ i ne o t = ground arith

  pub live-await :
      (p : Pc) (i : ℕ)
      → k ≡ f.count
      → PcOk k p f
      → LiveTask i p f
      → LiveTask i (access k p f).1 (access k p f).0
  unfolding access
  live-await idle i e o t = ground arith
  live-await _ i e o t = ground arith

  -- A slot that is stored stays so, and the one that the thread was to store to is.
  pub live-stored :
      (p : Pc) (x : ℕ)
      → (is_null (f.threads x) ≡ false) ⊎ (storing p ≡ some x)
      → is_null ((access k p f).0.threads x) ≡ false
  unfolding access
  live-stored idle x s = ground arith
  live-stored _ x s = ground arith

  -- A slot that is newly occupied is the one that the thread is to store to.
  pub live-started :
      (p : Pc) (x : ℕ)
      → x < (access k p f).0.started
      → (x < f.started) ⊎ (storing (access k p f).1 ≡ some x)
  unfolding access
  live-started idle x lt = ground arith
  live-started _ x lt = ground arith

  -- The last index, once it is given away, has a thread.
  pub live-owner :
      (p : Pc)
      → (f.count < f.completions → f.owner f.count ≢ none)
      → let g = (access k p f).0 in g.count < g.completions → g.owner g.count ≢ none
  unfolding access
  live-owner idle h = ground arith
  live-owner _ h = ground arith

  pub last-own :
      (p : Pc)
      → PcOk k p f
      → LivePc k p f
      → LiveSlot f.count f
      → LiveLast k p f
      → LiveLast k (access k p f).1 (access k p f).0
  unfolding access
  last-own idle o l z h = ground arith
  last-own _ o l z h = ground arith

  pub last-others : (p q : Pc) (j : ℕ) → j ≢ k → LiveLast j q f → LiveLast j q (access k p f).0
  unfolding access
  last-others idle q j ne h = ground arith
  last-others _ q j ne h = ground arith
