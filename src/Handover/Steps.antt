-- ===== src/Handover/Steps.antt =====
-- Every step keeps the invariant.
use concore2full.Base.{
  ℕ, ◌+◌, ◌%◌, ◌^◌, ◌<◌, ◌≡◌, refl, ap, ◌∙◌, ◌≢◌, inl, inr, Bool-cases, Option, none, some, List,
  [], arith, update, ◌==◌, ltb,
}
use concore2full.Sum.{sum, sum_zero, sum-map_update}
use concore2full.WorkLine.{Ptr, Mem}
use concore2full.WorkLine.Lines.{IsPool}
use concore2full.ThreadPool.Count.{total, total-empty}
use concore2full.Handover.{
  coming, Pool, nothing, runs, Pc, user, count_up, State, Choice, access, step, start,
}
use concore2full.Handover.Memory.{worker_data}
use concore2full.Handover.Invariant.{PcOk, brings, uncounted, overcounted, Change, Balance, Inv}
use concore2full.Schedule.{run, run-keeps}
use concore2full.Handover.Effect.{Effect}
use concore2full.Handover.Access.{access-Effect}

module _ (count k j : ℕ) (p q : Pool) (before after : ℕ) (ne : j ≢ k) where
  -- What holds where another thread stands.
  others : (y : Pc) → Change count k p q before after → PcOk count j y p → PcOk count j y q
  others (user nothing) ch o = tt
  others (user (runs t)) ch o = ground (arith, o, ch)
  others count_up ch o = ground (arith, o, ch)
  others _ ch o = ground (arith, o, ch)

  others-brings :
      (y : Pc) (t : Ptr)
      → Change count k p q before after
      → (p.place t ≡ coming j → brings y ≡ some t)
      → q.place t ≡ coming j
      → brings y ≡ some t
  others-brings y t ch o e = ground (arith, o, ch)

-- The counter stays in balance.
balanced :
    (x y : Pc) (p q : Pool) (before after u u' o o' : ℕ)
    → Balance x y p q before after
    → u' + uncounted x ≡ u + uncounted y
    → o' + overcounted x ≡ o + overcounted y
    → (p.num_tasks + u) % 2 ^ 32 ≡ (before + o) % 2 ^ 32
    → (q.num_tasks + u') % 2 ^ 32 ≡ (after + o') % 2 ^ 32
balanced x y p q before after u u' o o' (inl (e, b)) du dv h = omega (arith, e, b, du, dv, h)
balanced x y p q before after u u' o o' (inr (inl (e, b, c, d))) du dv h =
    omega (arith, e, b, c, d, du, dv, h)
balanced x y p q before after u u' o o' (inr (inr (e, b, c, d))) du dv h =
    omega (arith, e, b, c, d, du, dv, h)

module _ (count threads : ℕ) (some_line : 0 < count) where
  moved :
      (k : ℕ) (s : State) (r : Pool × Pc) (inv : Inv count threads s)
      → k < threads
      → Effect count k s.pool (s.pc k) inv.lines r
      → Inv count threads (record { pool = r.0; pc = update s.pc k r.1 })
  moved k s r inv lt e = record {
    lines = e.lines';
    in_order = e.in_order;
    threads_ok = λ j. elim (Bool-cases (j == k)) [
      | inl same ↦ let is : j ≡ k = ground arith in rw is (ground (arith, e.own))
      | inr other ↦ rw other (
          others count k j s.pool r.0 (total count inv.lines) (total count e.lines') (ground arith)
            (s.pc j) e.change (inv.threads_ok j))
    ];
    brought = λ t j at. elim (Bool-cases (j == k)) [
      | inl same ↦
          let is : j ≡ k = ground arith in rw is (ground (arith, e.brought t (at ∙ ap coming is)))
      | inr other ↦ rw other (
          others-brings count k j s.pool r.0 (total count inv.lines) (total count e.lines')
            (ground arith) (s.pc j) t e.change (inv.brought t j) at)
    ];
    counted =
        balanced (s.pc k) r.1 s.pool r.0 (total count inv.lines) (total count e.lines')
          (sum threads (λ j. uncounted (s.pc j)))
          (sum threads (λ j. uncounted (update s.pc k r.1 j)))
          (sum threads (λ j. overcounted (s.pc j)))
          (sum threads (λ j. overcounted (update s.pc k r.1 j))) e.balance
          (sum-map_update threads k r.1 uncounted s.pc lt)
          (sum-map_update threads k r.1 overcounted s.pc lt) inv.counted;
  }

  pub step-Inv :
      (a : ℕ × Choice) (s : State)
      → Inv count threads s
      → Inv count threads (step count threads a s)
  unfolding step
  step-Inv (k, c) s inv = elim (Bool-cases (ltb k threads)) [
    | inr off ↦ rw off inv
    | inl on ↦
        let e =
          access-Effect count k some_line s.pool inv.lines inv.in_order c (s.pc k)
            (inv.threads_ok k) (λ t. inv.brought t k) in
        rw on (moved k s (access count k c (s.pc k) s.pool) inv (ground arith) e)
  ]

-- The states that the threads can reach.
abbrev pub after : (count threads : ℕ) → Mem → List (ℕ × Choice) → State
after count threads m plan = run (step count threads) plan (start m)

none_on : (m : Mem) (t : Ptr) → IsPool m (λ _. []) → (d : Option ℕ) → worker_data m t ≡ d → d ≡ none
none_on m t is none e = refl
none_on m t is (some w) e = let i = (is w).complete t e in cc

pub start-Inv : (count threads : ℕ) (m : Mem) → IsPool m (λ _. []) → Inv count threads (start m)
start-Inv count threads m is = record {
  lines = λ _. [];
  in_order = record {
    is_pool = is;
    placed = λ t. none_on m t is (worker_data m t) refl;
    in_range = λ t w e. cc;
    given = λ t. refl;
  };
  threads_ok = λ k. tt;
  brought = λ t k e. cc;
  counted = omega (arith, sum_zero threads, total-empty count (λ _. []) (λ _. refl));
}

pub after-Inv :
    (count threads : ℕ) (m : Mem) (plan : List (ℕ × Choice))
    → 0 < count
    → IsPool m (λ _. [])
    → Inv count threads (after count threads m plan)
after-Inv count threads m plan some_line is =
    run-keeps (step count threads) (Inv count threads) (step-Inv count threads some_line) plan
      (start m) (start-Inv count threads m is)
