-- ===== src/CopyableFrame/Termination.antt =====
-- All calls of `await` on a copyable frame end, if the threads get their turns.
use concore2full.Base.{
  ℕ, ◌+◌, ◌*◌, ◌^◌, ◌<◌, ◌≤◌, ◌≡◌, refl, sym, ◌∙◌, ◌⊎◌, inl, inr, Bool-cases, Option, none, some,
  arith, List, ltb, update,
}
use concore2full.Sum.{sum, sum-map_update, sum_le, sum_le_mul, sum_zero, all_or_some}
use concore2full.Schedule.{run, run-keeps, FairTo, FairTo-Done}
use concore2full.CopyableFrame.{State, spawn, await_at, Agent, step}
use concore2full.CopyableFrame.Steps.{Bounded, step-Inv, spawn-Inv, execute_at-arrivals}
use concore2full.CopyableFrame.Safety.{Returned, arrive_first}
use concore2full.CopyableFrame.Progress.{await_left, worker_left, Advances, goes_on}
use concore2full.CopyableFrame.Moves.{
  takes_part, Turn, step_of, arrived, Called, await_at-arrived, await_moves, worker_moves,
  WorkerDone, none_left, first_left, ends-Returned, await_done, worker_done, arrived_le,
  await_left_le, worker_left_le, await_same, worker_same,
}

module _ (n v : ℕ) (few : n ≤ 2 ^ 32) where
  Called-Bounded : (s : State) → s.frame.arrivals ≡ sum n (λ k. arrived (s.awaiter k)) → Bounded s
  Called-Bounded s e =
      omega (arith, e, sum_le n (λ k. arrived (s.awaiter k)) (λ k. arrived_le (s.awaiter k)))

  step-Called : (a : Agent) (s : State) → Turn n a → Called n v s → Called n v (step v a s)
  unfolding step
  step-Called (Agent.awaiter k) s turn c =
      let lt : k < n = ground arith in
      let p = s.awaiter k in
      let r = await_at v k p s.frame in
      let count : r.0.arrivals ≡ sum n (λ j. arrived (update s.awaiter k r.1 j)) = omega (
        arith,
        c.count,
        await_at-arrived v k p s.frame,
        sum-map_update n k r.1 arrived s.awaiter lt,
      ) in
      record {
        inv =
            step-Inv v (Agent.awaiter k) s (λ _. c.inv)
              (Called-Bounded (step v (Agent.awaiter k) s) count);
        count = count;
        outside = λ j ge. ground (arith, c.outside j ge);
      }
  step-Called Agent.worker s turn c =
      let e = execute_at-arrivals v s.worker s.frame in
      record {
        inv =
            step-Inv v Agent.worker s (λ _. c.inv)
              (Called-Bounded (step v Agent.worker s) (e ∙ c.count));
        count = e ∙ c.count;
        outside = c.outside;
      }

  abbrev measure : State → ℕ
  measure s = sum n (λ k. await_left (s.awaiter k)) + worker_left s.worker

  -- An advance of a caller below `n`, or of the worker, lowers the measure.
  Advances-measure :
      (a : Agent) (s : State) → Turn n a → Advances v a s → measure (step v a s) < measure s
  unfolding step
  Advances-measure (Agent.awaiter k) s turn lt =
      let r = await_at v k (s.awaiter k) s.frame in
      omega (arith, lt, sum-map_update n k r.1 await_left s.awaiter (ground arith))
  Advances-measure Agent.worker s turn lt = omega (arith, lt)

  step-moves :
      (a : Agent) (s : State) → Turn n a → (step v a s ≡ s) ⊎ (measure (step v a s) < measure s)
  step-moves (Agent.awaiter k) s turn = elim (await_moves v k (s.awaiter k) s.frame) [
    | inl same ↦ inl (await_same v k s same)
    | inr lt ↦ inr (Advances-measure (Agent.awaiter k) s turn lt)
  ]
  step-moves Agent.worker s turn = elim (worker_moves v s.worker s.frame) [
    | inl same ↦ inl (worker_same v s same)
    | inr lt ↦ inr (Advances-measure Agent.worker s turn lt)
  ]

  first_below : (s : State) → Called n v s → (j : ℕ) → s.frame.first ≡ some j → j < n
  first_below s c j e = elim (Bool-cases (ltb j n)) [
    | inl lt ↦ ground arith
    | inr ge ↦
        let at = c.outside j (ground arith) in
        absurd (arrive_first v j (s.awaiter j) s.frame (c.inv.awaiter j) at e)
  ]

  -- The end: all callers and the worker have nothing left to do.
  record Ended (s : State) : Type 0 where
    called : Called n v s
    callers : (k : ℕ) → k < n → await_left (s.awaiter k) ≡ 0
    the_worker : WorkerDone s.worker s.frame

  worker_lives :
      (s : State)
      → Called n v s
      → ((k : ℕ) → k < n → await_left (s.awaiter k) ≡ 0)
      → (first : Option ℕ) → s.frame.first ≡ first
      → WorkerDone s.worker s.frame ⊎ Advances v Agent.worker s
  worker_lives s c zeros none e = none_left v s.worker s.frame c.inv.frame c.inv.worker e
  worker_lives s c zeros (some k) e =
      first_left v k (s.awaiter k) s.worker s.frame c.inv.frame (c.inv.awaiter k) c.inv.worker e
        (zeros k (first_below s c k e))

  step-lives :
      (s : State)
      → Called n v s
      → Ended s ⊎ ((a : Agent) × Turn n a × (measure (step v a s) < measure s))
  step-lives s c = elim (all_or_some n (λ k. await_left (s.awaiter k))) [
    | inl zeros ↦ elim (worker_lives s c zeros s.frame.first refl) [
      | inl d ↦ inl (record { called = c; callers = zeros; the_worker = d })
      | inr lt ↦ inr (Agent.worker, refl, Advances-measure Agent.worker s refl lt)
    ]
    | inr (k, lt, pos) ↦
        elim (goes_on v k s c.inv (Turn n) (ground arith)
          (λ j e. let below = first_below s c j e in ground arith) refl s.frame.first refl) [
            | inl d ↦ absurd (omega arith)
            | inr (a, turn, adv) ↦ inr (a, turn, Advances-measure a s turn adv)
          ]
  ]

  step-Ended : (a : Agent) (s : State) → Turn n a → Ended s → Ended (step v a s)
  step-Ended (Agent.awaiter k) s turn d =
      let e = await_done v k (s.awaiter k) s.frame (d.callers k (ground arith)) in
      rw (await_same v k s e) d
  step-Ended Agent.worker s turn d =
      rw (worker_same v s (worker_done v s.worker s.frame d.the_worker)) d

  of_keeps :
      (P : State → Type 0)
      → ((a : Agent) (s : State) → Turn n a → P s → P (step v a s))
      → (a : Agent) (s : State) → P s
      → P (step_of n v a s)
  unfolding step_of
  of_keeps P keep a s p = elim (Bool-cases (takes_part n a)) [
    | inl turn ↦ rw turn (keep a s turn p)
    | inr other ↦ rw other p
  ]

  of_moves :
      (a : Agent) (s : State)
      → Called n v s
      → (step_of n v a s ≡ s) ⊎ (measure (step_of n v a s) < measure s)
  unfolding step_of
  of_moves a s c = elim (Bool-cases (takes_part n a)) [
    | inl turn ↦ rw turn (step-moves a s turn)
    | inr other ↦ rw other (inl refl)
  ]

  of_lives :
      (s : State)
      → Called n v s
      → Ended s ⊎ ((a : Agent) × Turn n a × (measure (step_of n v a s) < measure s))
  unfolding step_of
  of_lives s c = elim (step-lives s c) [
    | inl d ↦ inl d
    | inr (a, turn, lt) ↦ inr (a, turn, rw turn lt)
  ]

  spawn-Called : Called n v spawn
  spawn-Called = record { inv = spawn-Inv v; count = sym (sum_zero n); outside = λ k ge. refl }

  measure_le : (s : State) → measure s ≤ 9 * n + 9
  measure_le s = omega (
    arith,
    sum_le_mul n 9 (λ k. await_left (s.awaiter k)) (λ k _. await_left_le (s.awaiter k)),
    worker_left_le s.worker,
  )

  -- For at most 2^32 callers, whatever they and the worker do first: under every further schedule
  -- with 9 * n + 9 windows, in each of which every caller and the worker have a turn, each call of
  -- `await` returns, by itself or resumed by the worker, and the worker is through with the frame, or
  -- never took the task, which a caller has run. On which thread a call that was suspended comes out
  -- is left open.
  pub copy-Done :
      (plan rest : List Agent)
      → FairTo (Turn n) (9 * n + 9) rest
      → let s = run (step_of n v) rest (run (step_of n v) plan spawn) in
        ((k : ℕ) → k < n → Returned k s) × WorkerDone s.worker s.frame
  copy-Done plan rest fair =
      let s0 = run (step_of n v) plan spawn in
      let c0 =
        run-keeps (step_of n v) (Called n v) (of_keeps (Called n v) step-Called) plan spawn
          spawn-Called in
      let s = run (step_of n v) rest s0 in
      let d =
        FairTo-Done (Turn n) (step_of n v) (Called n v) (of_keeps (Called n v) step-Called) measure
          Ended of_moves of_lives (of_keeps Ended step-Ended) fair s0 c0 (measure_le s0) in
      (
        λ k lt.
            ends-Returned v k (s.awaiter k) s.worker s.frame (d.called.inv.awaiter k)
              d.called.inv.worker (d.callers k lt) d.the_worker,
        d.the_worker,
      )
