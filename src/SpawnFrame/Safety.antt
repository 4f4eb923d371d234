-- ===== src/SpawnFrame/Safety.antt =====
-- What a spawn frame promises in every interleaving.
use concore2full.Base.{ℕ, ◌≡◌, ◌≢◌, ◌⊎◌, Option, some, arith, List, Bool, true, false}
use concore2full.SpawnFrame.{
  SyncState, initial_state, async_started, async_finished, main_finishing, main_finished, Cont,
  await_cc, thread_cont, Frame, MainPc, load_state, returned, WorkerPc, idle, State, await_at,
  execute_at, step, Agent,
}
use concore2full.SpawnFrame.Invariant.{MainOk, WorkerOk, Ran, after, after-Inv}

-- `await` has returned to its caller, on the thread that called it or on the worker's.
abbrev pub Returned : State → Type 0
Returned s = (s.main ≡ returned) ⊎ (s.worker ≡ WorkerPc.jump (some await_cc))

returned-Ran :
    (v : ℕ) (m : MainPc) (w : WorkerPc) (f : Frame)
    → MainOk v m f
    → WorkerOk v w f
    → (m ≡ returned) ⊎ (w ≡ WorkerPc.jump (some await_cc))
    → Ran v f
returned-Ran v returned idle f p q r = ground arith
returned-Ran v _ _ f p q r = ground arith

-- Whenever `await` has returned, the user function has run exactly once and its value is in the
-- frame.
pub await-Ran : (v : ℕ) (plan : List Agent) → Returned (after v plan) → Ran v (after v plan).frame
await-Ran v plan r =
    let inv = after-Inv v plan in
    returned-Ran v (after v plan).main (after v plan).worker (after v plan).frame inv.main
      inv.worker r

-- What a thread that switches may resume, given what the other one does.
abbrev pub MainTarget : Option Cont → WorkerPc → Type 0
MainTarget c w = (c ≡ some thread_cont) × (w ≢ WorkerPc.jump (some thread_cont))

abbrev pub WorkerTarget : Option Cont → MainPc → Type 0
WorkerTarget c m =
    ((c ≡ some thread_cont) × ((d : Option Cont) → m ≢ MainPc.jump d))
    ⊎ ((c ≡ some await_cc) × (m ≢ returned))

targets :
    (v : ℕ) (m : MainPc) (w : WorkerPc) (f : Frame)
    → MainOk v m f
    → WorkerOk v w f
    → ((c : Option Cont) → m ≡ MainPc.jump c → MainTarget c w)
      × ((c : Option Cont) → w ≡ WorkerPc.jump c → WorkerTarget c m)
targets v returned idle f p q = (λ c e. cc, λ c e. cc)
targets v _ _ f p q = (λ c e. ground arith, λ c e. ground arith)

-- A thread that switches never resumes a null or stale continuation, and no continuation is
-- resumed by both threads: the awaiting thread goes on as the worker only, and the worker either
-- as itself, when nobody has taken its place, or as the caller of `await`, who has not returned.
pub jump-targets :
    (v : ℕ) (plan : List Agent)
    → ((c : Option Cont) → (after v plan).main ≡ MainPc.jump c → MainTarget c (after v plan).worker)
      × ((c : Option Cont)
          → (after v plan).worker ≡ WorkerPc.jump c
          → WorkerTarget c (after v plan).main)
jump-targets v plan =
    let inv = after-Inv v plan in
    targets v (after v plan).main (after v plan).worker (after v plan).frame inv.main inv.worker

-- The transitions that the comment at the top of src/spawn_frame_base.cpp lists.
abbrev pub listed : SyncState → SyncState → Bool
listed initial_state async_started = true
listed async_started async_finished = true
listed async_started main_finishing = true
listed main_finishing main_finished = true
listed _ _ = false

await_at-listed :
    (v : ℕ) (m : MainPc) (f : Frame)
    → MainOk v m f
    → ((await_at v m f).0.sync_state ≡ f.sync_state)
      ⊎ (listed f.sync_state (await_at v m f).0.sync_state ≡ true)
unfolding await_at
await_at-listed v load_state f p = ground arith
await_at-listed v _ f p = ground arith

execute_at-listed :
    (v : ℕ) (w : WorkerPc) (f : Frame)
    → WorkerOk v w f
    → ((execute_at v w f).0.sync_state ≡ f.sync_state)
      ⊎ (listed f.sync_state (execute_at v w f).0.sync_state ≡ true)
unfolding execute_at
execute_at-listed v idle f p = ground arith
execute_at-listed v _ f p = ground arith

-- In every interleaving a step leaves the synchronisation state or makes a listed transition.
step-listed :
    (v : ℕ) (plan : List Agent) (a : Agent)
    → ((step v a (after v plan)).frame.sync_state ≡ (after v plan).frame.sync_state)
      ⊎ (listed (after v plan).frame.sync_state (step v a (after v plan)).frame.sync_state ≡ true)
unfolding step
step-listed v plan Agent.main =
    await_at-listed v (after v plan).main (after v plan).frame (after-Inv v plan).main
step-listed v plan Agent.worker =
    execute_at-listed v (after v plan).worker (after v plan).frame (after-Inv v plan).worker
