-- ===== src/SharedFrame/Safety.antt =====
-- What the futures that share a frame promise in every interleaving.
use concore2full.Base.{
  ℕ, ◌<◌, ◌≤◌, ◌≡◌, ◌≢◌, ◌⊎◌, inl, inr, refl, ap, Option, none, some, true, false, Bool-cases, List,
  arith, ltb,
}
use concore2full.Sum.{sum_term, sum_none}
use concore2full.CopyableFrame.{
  Frame, AwaitPc, queued, arrive, returned, WorkerPc, idle, State, Agent, caller,
}
use concore2full.CopyableFrame.Invariant.{AwaitOk, WorkerOk}
use concore2full.CopyableFrame.Steps.{after as frame_after, after-Inv, Bounded}
use concore2full.CopyableFrame.Safety.{Returned, uses_frame, worker-off_copy, arrive_first}
use concore2full.SharedFrame.{
  Shared, is_returned, resumes, has_returned, is_arrive, at_rest, Action,
}
use concore2full.SharedFrame.Owners.{owner, Owned, after, after-Owned}

has_returned-Returned : (k : ℕ) (s : State) → has_returned k s ≡ true → Returned k s
has_returned-Returned k s e = elim (Bool-cases (is_returned (s.awaiter k))) [
  | inl own ↦ inl (is_at (s.awaiter k) own)
  | inr not_own ↦ inr (resumed k s.worker (ground arith))
]
  where
    is_at : (p : AwaitPc) → is_returned p ≡ true → p ≡ returned
    is_at returned e = refl
    is_at arrive e = cc
    is_at _ e = cc

    resumed : (k : ℕ) (w : WorkerPc) → resumes k w ≡ true → w ≡ WorkerPc.jump (some (caller k))
    resumed k idle e = cc
    resumed k (WorkerPc.jump (some (caller j))) e =
        let same : j ≡ k = ground arith in ap (λ i. WorkerPc.jump (some (caller i))) same
    resumed k _ e = cc

at_rest-Returned : (k : ℕ) (s : State) → at_rest k s ≡ true → (s.awaiter k ≡ arrive) ⊎ Returned k s
at_rest-Returned k s e = elim (Bool-cases (is_arrive (s.awaiter k))) [
  | inl own ↦ inl (is_at (s.awaiter k) own)
  | inr not_own ↦ inr (has_returned-Returned k s (ground arith))
]
  where
    is_at : (p : AwaitPc) → is_arrive p ≡ true → p ≡ arrive
    is_at arrive e = refl
    is_at returned e = cc
    is_at _ e = cc

-- Once a call has begun there has been a first one.
called_first : (v k : ℕ) (p : AwaitPc) (f : Frame) → AwaitOk v k p f → p ≢ arrive → f.first ≢ none
called_first v k arrive f o called = absurd (called refl)
called_first v k _ f o called = ground arith

-- The frame is in nobody's hands: the task is on no line, and the worker does not use the frame.
abbrev Unused : State → Type 0
Unused s = (s.frame.task ≢ queued) × (uses_frame s.worker ≡ false)

first_off_line :
    (v k : ℕ) (p : AwaitPc) (w : WorkerPc) (f : Frame)
    → AwaitOk v k p f
    → WorkerOk v w f
    → f.first ≡ some k
    → (p ≡ returned) ⊎ (w ≡ WorkerPc.jump (some (caller k)))
    → f.task ≢ queued
first_off_line v k returned idle f p q e r = ground arith
first_off_line v k _ _ f p q e r = ground arith

first_worker-off :
    (v j : ℕ) (plan : List Agent)
    → Bounded (frame_after v plan)
    → (frame_after v plan).awaiter j ≢ arrive
    → ((k : ℕ) → ((frame_after v plan).awaiter k ≡ arrive) ⊎ Returned k (frame_after v plan))
    → (first : Option ℕ) → (frame_after v plan).frame.first ≡ first
    → Unused (frame_after v plan)
first_worker-off v j plan b called quiet none e =
    let s = frame_after v plan in
    let inv = after-Inv v plan b in
    absurd (called_first v j (s.awaiter j) s.frame (inv.awaiter j) called e)
first_worker-off v j plan b called quiet (some k) e =
    let inv = after-Inv v plan b in
    let s = frame_after v plan in
    elim (quiet k) [
      | inl at ↦ absurd (arrive_first v k (s.awaiter k) s.frame (inv.awaiter k) at e)
      | inr back ↦ (
        first_off_line v k (s.awaiter k) s.worker s.frame (inv.awaiter k) inv.worker e back,
        worker-off_copy v k plan b e back,
      )
    ]

-- Nobody uses the frame when no call is under way, and there was one.
abbrev QuietOff : ℕ → State → Type 0
QuietOff j s =
    Bounded s → s.awaiter j ≢ arrive → ((k : ℕ) → (s.awaiter k ≡ arrive) ⊎ Returned k s) → Unused s

after-QuietOff : (v j : ℕ) (plan : List Agent) → QuietOff j (frame_after v plan)
after-QuietOff v j plan b called quiet =
    first_worker-off v j plan b called quiet (frame_after v plan).frame.first refl

module _ (v : ℕ) (s : Shared) (o : Owned v s) where
  freed-dropped : s.freed ≡ true → (k : ℕ) → k < s.made → s.alive k ≡ false
  freed-dropped e k lt = elim (Bool-cases (s.alive k)) [
    | inr gone ↦ gone
    | inl live ↦
        let least = sum_term s.made k (λ j. owner (s.alive j)) lt in
        let some_left : 1 ≤ s.use_count = omega (arith, ap owner live, least, o.count) in
        absurd (ground (arith, o.freed))
  ]

  freed-Returned : s.freed ≡ true → (k : ℕ) → (s.frame.awaiter k ≡ arrive) ⊎ Returned k s.frame
  freed-Returned e k = elim (Bool-cases (ltb k s.made)) [
    | inl lt ↦
        let made : k < s.made = ground arith in
        at_rest-Returned k s.frame (o.gone k made (freed-dropped e k made))
    | inr ge ↦ inl (o.unmade k (ground arith)).1
  ]

-- No use after free: when the frame has been destroyed, and `await` was called on at least one of
-- the futures, no future is left, the task is on no line, and the worker does not use the frame any
-- more. This is for at most 2^32 calls; each future is dropped while there is no call of its own
-- `await`, whether there was one or not.
pub freed-unused :
    (v j : ℕ) (plan : List Action)
    → Bounded (after v plan).frame
    → (after v plan).frame.awaiter j ≢ arrive
    → (after v plan).freed ≡ true
    → ((k : ℕ) → k < (after v plan).made → (after v plan).alive k ≡ false)
      × ((after v plan).frame.frame.task ≢ queued)
      × (uses_frame (after v plan).frame.worker ≡ false)
freed-unused v j plan b called e =
    let s = after v plan in
    let o = after-Owned v plan in
    let off : QuietOff j s.frame = rw o.trace.1 (after-QuietOff v j o.trace.0) in
    let (line, worker) = off b called (freed-Returned v s o e) in
    (freed-dropped v s o e, line, worker)

-- No leak: when all futures have been dropped, the frame has been destroyed.
dropped-freed :
    (v : ℕ) (plan : List Action)
    → ((k : ℕ) → (after v plan).alive k ≡ false)
    → (after v plan).freed ≡ true
dropped-freed v plan gone =
    let s = after v plan in
    let o = after-Owned v plan in
    let none_left = sum_none s.made (λ k. owner (s.alive k)) (λ k lt. ap owner (gone k)) in
    ground (arith, o.freed, o.count, none_left)
