-- ===== src/CopyableFrame/Safety.antt =====
-- What a copyable frame promises in every interleaving.
use concore2full.Base.{ℕ, ◌≡◌, ◌≢◌, ◌⊎◌, Option, none, some, Bool, true, false, arith, List}
use concore2full.CopyableFrame.{
  Cont, caller, thread_cont, Frame, AwaitPc, arrive, returned, WorkerPc, idle, State, Agent,
}
use concore2full.CopyableFrame.Invariant.{FrameOk, AwaitOk, WorkerOk, Ran}
use concore2full.CopyableFrame.Steps.{after, after-Inv, Bounded}

-- The call of `await` by `k` has returned, on the thread that made it or on the worker's.
abbrev pub Returned : ℕ → State → Type 0
Returned k s = (s.awaiter k ≡ returned) ⊎ (s.worker ≡ WorkerPc.jump (some (caller k)))

-- A caller that has not called `await` was not the first.
pub arrive_first :
    (v k : ℕ) (p : AwaitPc) (f : Frame) → AwaitOk v k p f → p ≡ arrive → f.first ≢ some k
arrive_first v k arrive f ok at = ok.1
arrive_first v k _ f ok at = cc

returned-Ran :
    (v k : ℕ) (p : AwaitPc) (w : WorkerPc) (f : Frame)
    → AwaitOk v k p f
    → WorkerOk v w f
    → (p ≡ returned) ⊎ (w ≡ WorkerPc.jump (some (caller k)))
    → Ran v f
returned-Ran v k arrive idle f p q r = ground arith
returned-Ran v k _ _ f p q r = ground arith

-- Whenever one of at most 2^32 calls of `await` has returned, the user function has run exactly
-- once and its value is in the frame.
pub await_copy-Ran :
    (v k : ℕ) (plan : List Agent)
    → Bounded (after v plan)
    → Returned k (after v plan)
    → Ran v (after v plan).frame
await_copy-Ran v k plan b r =
    let inv = after-Inv v plan b in
    returned-Ran v k ((after v plan).awaiter k) (after v plan).worker (after v plan).frame
      (inv.awaiter k) inv.worker r

-- What a caller of `await` that switches may resume, given what another caller and the worker do.
abbrev AwaitTarget : Option Cont → AwaitPc → WorkerPc → Type 0
AwaitTarget c q w =
    (c ≡ some thread_cont)
    × (w ≢ WorkerPc.jump (some thread_cont))
    × ((d : Option Cont) → q ≢ AwaitPc.jump d)

await_targets :
    (v k j : ℕ) (p q : AwaitPc) (w : WorkerPc) (f : Frame)
    → j ≢ k
    → AwaitOk v k p f
    → AwaitOk v j q f
    → WorkerOk v w f
    → (c : Option Cont) → p ≡ AwaitPc.jump c
    → AwaitTarget c q w
await_targets v k j arrive arrive idle f ne p q r c e = cc
await_targets v k j _ _ _ f ne p q r c e = ground arith

-- A caller of `await` that switches goes on as the worker, and is the only one that does.
await_target :
    (v k j : ℕ) (plan : List Agent)
    → j ≢ k
    → Bounded (after v plan)
    → (c : Option Cont) → (after v plan).awaiter k ≡ AwaitPc.jump c
    → AwaitTarget c ((after v plan).awaiter j) (after v plan).worker
await_target v k j plan ne b =
    let s = after v plan in
    let inv = after-Inv v plan b in
    await_targets v k j (s.awaiter k) (s.awaiter j) s.worker s.frame ne (inv.awaiter k)
      (inv.awaiter j) inv.worker

-- What the worker may resume, given what a caller `k` of `await` does.
abbrev pub WorkerTarget : ℕ → Option Cont → AwaitPc → Type 0
WorkerTarget k c p =
    ((c ≡ some thread_cont) × ((d : Option Cont) → p ≢ AwaitPc.jump d))
    ⊎ ((c ≢ some thread_cont)
        × (c ≢ none)
        × (c ≡ some (caller k) → p ≡ AwaitPc.jump (some thread_cont)))

worker_targets :
    (v k : ℕ) (p : AwaitPc) (w : WorkerPc) (f : Frame)
    → AwaitOk v k p f
    → WorkerOk v w f
    → FrameOk v f
    → (c : Option Cont) → w ≡ WorkerPc.jump c
    → WorkerTarget k c p
worker_targets v k arrive idle f p q o c e = cc
worker_targets v k _ _ f p q o c e = ground arith

-- The worker goes on as itself, when no caller has taken its place, or as the caller that has.
worker_target :
    (v k : ℕ) (plan : List Agent)
    → Bounded (after v plan)
    → (c : Option Cont) → (after v plan).worker ≡ WorkerPc.jump c
    → WorkerTarget k c ((after v plan).awaiter k)
worker_target v k plan b =
    let s = after v plan in
    let inv = after-Inv v plan b in
    worker_targets v k (s.awaiter k) s.worker s.frame (inv.awaiter k) inv.worker inv.frame

-- The next access of the worker is to the frame; from `idle` it is to a line of the pool.
abbrev pub uses_frame : WorkerPc → Bool
uses_frame idle = false
uses_frame (WorkerPc.jump _) = false
uses_frame _ = true

worker_is_off :
    (v k : ℕ) (p : AwaitPc) (w : WorkerPc) (f : Frame)
    → AwaitOk v k p f
    → WorkerOk v w f
    → f.first ≡ some k
    → (p ≡ returned) ⊎ (w ≡ WorkerPc.jump (some (caller k)))
    → uses_frame w ≡ false
worker_is_off v k returned idle f p q e r = ground arith
worker_is_off v k _ _ f p q e r = ground arith

-- The worker, which holds no reference to the frame, does not use it once the first call of `await`
-- has returned.
pub worker-off_copy :
    (v k : ℕ) (plan : List Agent)
    → Bounded (after v plan)
    → (after v plan).frame.first ≡ some k
    → Returned k (after v plan)
    → uses_frame (after v plan).worker ≡ false
worker-off_copy v k plan b e r =
    let s = after v plan in
    let inv = after-Inv v plan b in
    worker_is_off v k (s.awaiter k) s.worker s.frame (inv.awaiter k) inv.worker e r
