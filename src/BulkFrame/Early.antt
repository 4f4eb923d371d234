-- ===== src/BulkFrame/Early.antt =====
-- The early return of `await` on a bulk frame, before it runs anything itself.
use concore2full.Base.{
  ℕ, ◌+◌, ◌%◌, ◌^◌, ◌<◌, ◌≡◌, ◌≢◌, ◌⊎◌, refl, sym, ap, ◌∙◌, Bool-cases, inl, inr, true, arith, List,
  ◌==◌, update,
}
use concore2full.Schedule.{run-keeps}
use concore2full.BulkFrame.{tombstone, Frame, Pc, idle, check, returned, State, access, spawn, step}
use concore2full.BulkFrame.Invariant.{Inv, PcOk, TaskOk}
use concore2full.BulkFrame.Weights.{past}
use concore2full.BulkFrame.Kept.{past_le}
use concore2full.BulkFrame.Kept.Start.{after-Bounded}
use concore2full.Sum.{sum, sum-update, sum_le, sum_full, sum_zero, sum_ext}
use concore2full.BulkFrame.Steps.{after, step-Inv, spawn-Inv, Bounded, access-count}

module _ (k : ℕ) (f : Frame) where
  access-past :
      (p : Pc)
      → PcOk k p f
      → TaskOk k f
      → k ≢ f.count
      → ((x : ℕ) → f.threads x ≢ tombstone)
      → ((access k p f).0.completions + past p ≡ f.completions + past (access k p f).1)
        × ((k < f.count) ⊎ (past (access k p f).1 ≡ past p))
  unfolding access
  access-past idle o t ne free = ground arith
  access-past (Pc.read_slot own index) o t ne free = ground (arith, free index)
  access-past _ o t ne free = ground arith

  access-tombstone :
      (p : Pc) (x : ℕ)
      → PcOk k p f
      → k ≢ f.count
      → f.threads x ≢ tombstone
      → (access k p f).0.threads x ≢ tombstone
  unfolding access
  access-tombstone idle x o ne free = ground arith
  access-tombstone _ x o ne free = ground arith

  access-ran : (p : Pc) (i : ℕ) → PcOk k p f → f.ran i ≡ 1 → (access k p f).0.ran i ≡ 1
  unfolding access
  access-ran idle i o r = ground arith
  access-ran _ i o r = ground arith

  not_check : (p : Pc) → (access k p f).1 ≢ check
  unfolding access
  not_check idle = ground arith
  not_check _ = ground arith

  to_returned :
      (p : Pc)
      → (access k p f).1 ≡ returned
      → (p ≡ returned) ⊎ ((p ≡ check) × (f.completions % 2 ^ 32 ≡ f.count))
  unfolding access
  to_returned idle e = ground arith
  to_returned _ e = ground arith

  past-ran : (p : Pc) → PcOk k p f → TaskOk k f → past p ≡ 1 → k < f.count → f.ran k ≡ 1
  past-ran idle o t e lt = ground arith
  past-ran _ o t e lt = ground arith

-- While `await` has not begun, the workers alone have added to `completed_tasks_`, once each.
record Unbegun (count : ℕ) (s : State) : Type 0 where
  completions : s.frame.completions ≡ sum count (λ i. past (s.thread i))
  no_tombstone : (x : ℕ) → s.frame.threads x ≢ tombstone

record Early (count : ℕ) (s : State) : Type 0 where
  inv : Inv count s
  unbegun : s.thread count ≡ check → Unbegun count s
  ran : s.thread count ≡ returned → (i : ℕ) → i < count → s.frame.ran i ≡ 1

past-update :
    (k : ℕ) (p : Pc) (thread : ℕ → Pc) (i : ℕ)
    → past (update thread k p i) ≡ update (λ j. past (thread j)) k (past p) i
past-update k p thread i = elim (Bool-cases (i == k)) [ inl e ↦ rw e refl | inr e ↦ rw e refl ]

sum-past :
    (count k : ℕ) (p q : Pc) (thread : ℕ → Pc) (a b : ℕ)
    → thread k ≡ p
    → b + past p ≡ a + past q
    → (k < count) ⊎ (past q ≡ past p)
    → count ≢ k
    → a ≡ sum count (λ i. past (thread i))
    → b ≡ sum count (λ i. past (update thread k q i))
sum-past count k p q thread a b e move (inl lt) ne h = omega (
  arith,
  move,
  h,
  ap past e,
  sum-update count k (past q) (λ j. past (thread j)) lt,
  sum_ext count (λ i. past (update thread k q i)) (update (λ j. past (thread j)) k (past q))
      (past-update k q thread),
)
sum-past count k p q thread a b e move (inr same) ne h = omega (
  arith,
  move,
  h,
  same,
  sum_ext count (λ i. past (update thread k q i)) (λ j. past (thread j))
      (λ i. elim (Bool-cases (i == k)) [
        | inl is ↦ rw is (same ∙ ap past (sym e) ∙ ap (λ j. past (thread j)) (sym (ground arith)))
        | inr other ↦ rw other refl
      ]),
)

module _ (count k : ℕ) (s : State) (early : Early count s) where
  at_other : count ≢ k → (step k s).thread count ≡ s.thread count
  unfolding step
  at_other ne = ground arith

  other-Unbegun : count ≢ k → s.thread count ≡ check → Unbegun count (step k s)
  unfolding step
  other-Unbegun ne e =
      let inv = early.inv in
      let u = early.unbegun e in
      let apart : k ≢ s.frame.count = λ i. ne (sym (i ∙ inv.same)) in
      let (move, side) =
        access-past k s.frame (s.thread k) (inv.thread k) (inv.task k) apart u.no_tombstone in
      let side' : (k < count) ⊎ (past (access k (s.thread k) s.frame).1 ≡ past (s.thread k)) =
        elim side [ inl lt ↦ inl (omega (arith, inv.same)) | inr kept ↦ inr kept ] in
      record {
        completions =
            sum-past count k (s.thread k) (access k (s.thread k) s.frame).1 s.thread
              s.frame.completions (access k (s.thread k) s.frame).0.completions refl move side' ne
              u.completions;
        no_tombstone =
            λ x. access-tombstone k s.frame (s.thread k) x (inv.thread k) apart (u.no_tombstone x);
      }

  -- `await` finds as many completions as there are tasks.
  check-ran :
      s.thread count ≡ check
      → s.frame.completions % 2 ^ 32 ≡ s.frame.count
      → (i : ℕ) → i < count
      → s.frame.ran i ≡ 1
  check-ran e full i lt =
      let inv = early.inv in
      let u = early.unbegun e in
      let le = λ (j : ℕ). past_le (s.thread j) in
      let all : sum count (λ j. past (s.thread j)) ≡ count = omega (
        arith,
        full,
        u.completions,
        inv.same,
        inv.small,
        sum_le count (λ j. past (s.thread j)) le,
      ) in
      past-ran i s.frame (s.thread i) (inv.thread i) (inv.task i)
        (sum_full count i (λ j. past (s.thread j)) le all lt) (omega (arith, inv.same))

  step-ran : (step k s).thread count ≡ returned → (i : ℕ) → i < count → (step k s).frame.ran i ≡ 1
  unfolding step
  step-ran e i lt =
      access-ran k s.frame (s.thread k) i (early.inv.thread k) (elim (Bool-cases (count == k)) [
        | inr other ↦ early.ran (sym (at_other (ground arith)) ∙ e) i lt
        | inl same ↦
            let is : count ≡ k = ground arith in
            let self : (count == count) ≡ true = ground arith in
            let to : (access count (s.thread count) s.frame).1 ≡ returned =
              rw self at (rw (← is) at e) in
            elim (to_returned count s.frame (s.thread count) to) [
              | inl was ↦ early.ran was i lt
              | inr (was, full) ↦ check-ran was full i lt
            ]
      ])

step-Bounded : (k : ℕ) (s : State) → Bounded (step k s) → Bounded s
unfolding step
step-Bounded k s b = omega (arith, (access-count k s.frame (s.thread k)).1, b)

still_check : (count k : ℕ) (s : State) → count ≡ k → (step k s).thread count ≢ check
unfolding step
still_check count k s is e =
    let self : (k == k) ≡ true = ground arith in
    not_check k s.frame (s.thread k) (rw self at (rw is at e))

past-spawn : (count i : ℕ) → past ((spawn count).thread i) ≡ 0
unfolding spawn
past-spawn count i = ground arith

spawn-Unbegun : (count : ℕ) → Unbegun count (spawn count)
unfolding spawn
spawn-Unbegun count = record {
  completions = omega (
    arith,
    sum_zero count,
    sum_ext count (λ i. past ((spawn count).thread i)) (λ _. 0) (λ i. past-spawn count i),
  );
  no_tombstone = λ x e. cc;
}

spawn_not_returned : (count : ℕ) → (spawn count).thread count ≢ returned
unfolding spawn
spawn_not_returned count e = ground arith

step-Early :
    (count k : ℕ) (s : State)
    → (Bounded s → Early count s)
    → Bounded (step k s)
    → Early count (step k s)
step-Early count k s at b =
    let early = at (step-Bounded k s b) in
    record {
      inv = step-Inv count k s (λ _. early.inv) b;
      unbegun = λ e. elim (Bool-cases (count == k)) [
        | inl same ↦ absurd (still_check count k s (ground arith) e)
        | inr other ↦
            let ne : count ≢ k = ground arith in
            other-Unbegun count k s early ne (sym (at_other count k s early ne) ∙ e)
      ];
      ran = step-ran count k s early;
    }

spawn-Early : (count : ℕ) → count < 2 ^ 31 → Early count (spawn count)
spawn-Early count lt = record {
  inv = spawn-Inv count lt;
  unbegun = λ _. spawn-Unbegun count;
  ran = λ e. absurd (spawn_not_returned count e);
}

-- When `await` returns before it runs anything itself, every task has run exactly once. This is for
-- fewer than 2^31 tasks.
pub bulk_early-ran :
    (count : ℕ) (plan : List ℕ)
    → count < 2 ^ 31
    → (after count plan).thread count ≡ returned
    → (i : ℕ) → i < count
    → (after count plan).frame.ran i ≡ 1
bulk_early-ran count plan lt =
    (run-keeps step (λ s. Bounded s → Early count s) (step-Early count) plan (spawn count)
      (λ _. spawn-Early count lt) (after-Bounded count plan lt)).ran
