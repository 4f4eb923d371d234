-- ===== src/SharedFrame/Owners.antt =====
-- Who owns a shared frame: the invariant of the futures of `copyable_spawn`, and that every step
-- keeps it.
use concore2full.Base.{
  ℕ, ◌<◌, ◌≤◌, ◌≡◌, refl, sym, ap, ◌∙◌, Bool, true, false, Bool-cases, inl, inr, List, [], ◌∷◌,
  ◌++◌, arith, ◌==◌, ltb,
}
use concore2full.Sum.{sum, sum-map_update, sum-map_add, sum_term}
use concore2full.Schedule.{run, run-append, run-keeps}
use concore2full.CopyableFrame.{
  Frame, AwaitPc, arrive, returned, WorkerPc, idle, State, spawn, step, Agent, await_at, execute_at,
}
use concore2full.CopyableFrame.Steps.{after as frame_after}
use concore2full.SharedFrame.{
  Shared, make_future, is_returned, resumes, has_returned, is_arrive, at_rest, copy_future,
  drop_future, Action, access, copy, drop, act,
}

abbrev pub owner : Bool → ℕ
owner true = 1
owner false = 0

abbrev pub owners : Shared → ℕ
owners s = sum s.made (λ k. owner (s.alive k))

-- `made` futures have been made; the shared pointers count those that are left, and the frame is
-- gone with the last of them. On a future that is gone `await` was not called, or has come back.
pub record Owned (v : ℕ) (s : Shared) : Type 0 where
  pub trace : (plan : List Agent) × (s.frame ≡ frame_after v plan)
  pub count : s.use_count ≡ owners s
  pub some_made : 0 < s.made
  pub freed : s.freed ≡ (s.use_count == 0)
  pub unmade : (k : ℕ) → s.made ≤ k → (s.alive k ≡ false) × (s.frame.awaiter k ≡ arrive)
  pub gone : (k : ℕ) → k < s.made → s.alive k ≡ false → at_rest k s.frame ≡ true

returned_stays :
    (v k : ℕ) (p : AwaitPc) (f : Frame)
    → is_returned p ≡ true
    → is_returned (await_at v k p f).1 ≡ true
unfolding await_at
returned_stays v k returned f e = refl
returned_stays v k arrive f e = cc
returned_stays v k _ f e = cc

resumes_stays :
    (v k : ℕ) (w : WorkerPc) (f : Frame)
    → resumes k w ≡ true
    → resumes k (execute_at v w f).1 ≡ true
unfolding execute_at
resumes_stays v k (WorkerPc.jump c) f e = e
resumes_stays v k idle f e = cc
resumes_stays v k _ f e = cc

-- A call of `await` that has come back stays so.
has_returned_stays :
    (v k : ℕ) (a : Agent) (s : State) → has_returned k s ≡ true → has_returned k (step v a s) ≡ true
unfolding step
has_returned_stays v k (Agent.awaiter j) s e = elim (Bool-cases (k == j)) [
  | inr other ↦ rw other e
  | inl own ↦
      let same : k ≡ j = ground arith in
      rw own (ground (arith, returned_stays v j (s.awaiter j) s.frame, ap s.awaiter same))
]
has_returned_stays v k Agent.worker s e = ground (arith, resumes_stays v k s.worker s.frame)

-- A step of a caller leaves the other callers where they are.
step-others :
    (v k j : ℕ) (s : State)
    → (k == j) ≡ false
    → (step v (Agent.awaiter j) s).awaiter k ≡ s.awaiter k
unfolding step
step-others v k j s e = rw e refl

worker_step-others : (v k : ℕ) (s : State) → (step v Agent.worker s).awaiter k ≡ s.awaiter k
unfolding step
worker_step-others v k s = refl

rest_stays :
    (v k j : ℕ) (s : State)
    → (k == j) ≡ false
    → at_rest k s ≡ true
    → at_rest k (step v (Agent.awaiter j) s) ≡ true
rest_stays v k j s other e =
    ground
      (arith, ap is_arrive (step-others v k j s other), has_returned_stays v k (Agent.awaiter j) s)

worker_rest_stays :
    (v k : ℕ) (s : State) → at_rest k s ≡ true → at_rest k (step v Agent.worker s) ≡ true
worker_rest_stays v k s e =
    ground (arith, ap is_arrive (worker_step-others v k s), has_returned_stays v k Agent.worker s)

step-trace :
    (v : ℕ) (a : Agent) (s : State)
    → (plan : List Agent) × (s ≡ frame_after v plan)
    → (plan : List Agent) × (step v a s ≡ frame_after v plan)
unfolding run
step-trace v a s (plan, e) =
    (plan ++ (a ∷ []), ap (step v a) e ∙ sym (run-append (step v) plan (a ∷ []) spawn))

is_made : (v k : ℕ) (s : Shared) → Owned v s → s.alive k ≡ true → k < s.made
is_made v k s o e = elim (Bool-cases (ltb k s.made)) [
  | inl lt ↦ ground arith
  | inr ge ↦ let none_yet = o.unmade k (ground arith) in absurd cc
]

access-Owned : (v : ℕ) (a : Agent) (s : Shared) → Owned v s → Owned v (act v (access a) s)
unfolding act
access-Owned v (Agent.awaiter j) s o = elim (Bool-cases (s.alive j)) [
  | inr dead ↦ rw dead o
  | inl live ↦ rw live (record {
    trace = step-trace v (Agent.awaiter j) s.frame o.trace;
    count = o.count;
    some_made = o.some_made;
    freed = o.freed;
    unmade = λ k ge.
        let lt = is_made v j s o live in
        let at = o.unmade k ge in (at.0, step-others v k j s.frame (ground arith) ∙ at.1);
    gone = λ k lt e. rest_stays v k j s.frame (ground (arith, ap s.alive)) (o.gone k lt e);
  })
]
access-Owned v Agent.worker s o = record {
  trace = step-trace v Agent.worker s.frame o.trace;
  count = o.count;
  some_made = o.some_made;
  freed = o.freed;
  unmade = λ k ge. let at = o.unmade k ge in (at.0, worker_step-others v k s.frame ∙ at.1);
  gone = λ k lt e. worker_rest_stays v k s.frame (o.gone k lt e);
}

alive_owners : (k : ℕ) (s : Shared) → k < s.made → s.alive k ≡ true → 1 ≤ owners s
alive_owners k s lt e = omega (arith, sum_term s.made k (λ j. owner (s.alive j)) lt, ap owner e)

copy_future-Owned : (v : ℕ) (s : Shared) → 1 ≤ owners s → Owned v s → Owned v (copy_future s)
unfolding copy_future
copy_future-Owned v s positive o = record {
  trace = o.trace;
  count = omega (arith, o.count, sum-map_add s.made true owner s.alive);
  some_made = omega arith;
  freed = ground (arith, o.freed, o.count);
  unmade = λ j ge. let at = o.unmade j (omega arith) in (ground arith, at.1);
  gone = λ j lt e. o.gone j (ground arith) (ground arith);
}

copy-Owned : (v k : ℕ) (s : Shared) → Owned v s → Owned v (act v (copy k) s)
unfolding act
copy-Owned v k s o = elim (Bool-cases (s.alive k)) [
  | inr dead ↦ rw dead o
  | inl live ↦ rw live (copy_future-Owned v s (alive_owners k s (is_made v k s o live) live) o)
]

drop_future-Owned :
    (v k : ℕ) (s : Shared)
    → k < s.made
    → s.alive k ≡ true
    → at_rest k s.frame ≡ true
    → Owned v s
    → Owned v (drop_future k s)
unfolding drop_future
drop_future-Owned v k s lt live back o = record {
  trace = o.trace;
  count = omega (
    arith,
    sum-map_update s.made k false owner s.alive lt,
    ap owner live,
    o.count,
    alive_owners k s lt live,
  );
  some_made = o.some_made;
  freed = refl;
  unmade = λ j ge. let at = o.unmade j ge in (ground arith, at.1);
  gone = λ j is_old e. elim (Bool-cases (j == k)) [
    | inl own ↦ let same : j ≡ k = ground arith in rw same back
    | inr other ↦ o.gone j is_old (rw other at e)
  ];
}

drop-Owned : (v k : ℕ) (s : Shared) → Owned v s → Owned v (act v (drop k) s)
unfolding act
drop-Owned v k s o = elim (Bool-cases (s.alive k)) [
  | inr dead ↦ rw dead o
  | inl live ↦ elim (Bool-cases (at_rest k s.frame)) [
    | inr waits ↦ rw (live, waits) o
    | inl back ↦ rw (live, back) (drop_future-Owned v k s (is_made v k s o live) live back o)
  ]
]

act-Owned : (v : ℕ) (a : Action) (s : Shared) → Owned v s → Owned v (act v a s)
act-Owned v (access a) s o = access-Owned v a s o
act-Owned v (copy k) s o = copy-Owned v k s o
act-Owned v (drop k) s o = drop-Owned v k s o

make_future-Owned : (v : ℕ) → Owned v make_future
unfolding sum run
make_future-Owned v = record {
  trace = ([], refl);
  count = refl;
  some_made = omega arith;
  freed = refl;
  unmade = λ k ge. (ground arith, refl);
  gone = λ k lt e. absurd (ground arith);
}

-- The states that the futures, their copies and the worker can reach.
abbrev pub after : ℕ → List Action → Shared
after v plan = run (act v) plan make_future

pub after-Owned : (v : ℕ) (plan : List Action) → Owned v (after v plan)
after-Owned v plan =
    run-keeps (act v) (Owned v) (act-Owned v) plan make_future (make_future-Owned v)
