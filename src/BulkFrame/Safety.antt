-- ===== src/BulkFrame/Safety.antt =====
-- What a bulk frame promises in every interleaving.
use concore2full.Base.{
  ℕ, ◌+◌, ◌≤◌, ◌<◌, ◌^◌, ◌≡◌, ◌≢◌, refl, sym, ap, ◌∙◌, Bool, true, false, arith, List,
}
use concore2full.BulkFrame.{cont, Frame, Pc, idle, returned, State}
use concore2full.BulkFrame.Invariant.{Inv, PcOk}
use concore2full.BulkFrame.Steps.{after, full}
use concore2full.BulkFrame.Kept.Start.{after-Live}

-- The next access of the thread is to the frame; from `idle` it is to a line of the pool.
abbrev pub uses_frame : Pc → Bool
uses_frame idle = false
uses_frame returned = false
uses_frame (Pc.jump _) = false
uses_frame _ = true

others_off :
    (k j : ℕ) (q : Pc) (f : Frame)
    → j ≢ k
    → PcOk k (Pc.jump (cont f.count)) f
    → PcOk j q f
    → (f.finalized ≡ f.count + 1 → j ≤ f.count → f.settled j ≡ 1)
    → (f.finalized ≡ f.count + 1 → f.count ≤ f.count → f.settled f.count ≡ 1)
    → (uses_frame q ≡ false) × (q ≢ Pc.jump (cont f.count)) × (q ≢ returned)
others_off k j idle f ne p q own last = ground arith
others_off k j _ f ne p q own last = ground arith

module _ (count k : ℕ) (s : State) (inv : Inv count s)
    (at : s.thread k ≡ Pc.jump (cont count)) where
  Settled : ℕ → Type 0
  Settled j = s.frame.finalized ≡ s.frame.count + 1 → j ≤ s.frame.count → s.frame.settled j ≡ 1

  all-Settled : (j : ℕ) → Settled j
  unfolding Settled
  all-Settled j = full s.frame j inv.finalized (λ n. (inv.task n).0)

  own : PcOk k (Pc.jump (cont s.frame.count)) s.frame
  own = rw (at ∙ ap (λ n. Pc.jump (cont n)) (sym inv.same)) at (inv.thread k)

  last_ran : (i : ℕ) → i < count → s.frame.ran i ≡ 1
  unfolding Settled
  last_ran i below =
      let lt : i < s.frame.count = omega (arith, inv.same) in
      (inv.task i).1 (all-Settled i (own.3 refl).0 (omega arith)) lt

  last_alone :
      (j : ℕ)
      → j ≢ k
      → (uses_frame (s.thread j) ≡ false)
        × (s.thread j ≢ Pc.jump (cont count))
        × (s.thread j ≢ returned)
  unfolding Settled
  last_alone j ne =
      let (off, other, stays) =
        others_off k j (s.thread j) s.frame ne own (inv.thread j) (all-Settled j)
          (all-Settled s.frame.count) in
      (off, λ e. other (e ∙ ap (λ n. Pc.jump (cont n)) (sym inv.same)), stays)

-- Once a thread goes on behind `await` from a slot of the frame, every task has run exactly once,
-- no other thread uses the frame, and none returns from `await` or goes on there. This is for
-- fewer than 2^31 tasks.
pub bulk_await-last :
    (count k : ℕ) (plan : List ℕ)
    → count < 2 ^ 31
    → (after count plan).thread k ≡ Pc.jump (cont count)
    → ((i : ℕ) → i < count → (after count plan).frame.ran i ≡ 1)
      × ((j : ℕ)
          → j ≢ k
          → (uses_frame ((after count plan).thread j) ≡ false)
            × ((after count plan).thread j ≢ Pc.jump (cont count))
            × ((after count plan).thread j ≢ returned))
bulk_await-last count k plan lt at =
    let inv = (after-Live count plan lt).inv in
    (last_ran count k (after count plan) inv at, last_alone count k (after count plan) inv at)
