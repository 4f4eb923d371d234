-- ===== src/ThreadInfo/Counter.antt =====
-- The sleep counter between `prepare_sleep` and `sleep` (src/thread_info.cpp), and what holds of a flow
-- that is blocked on it.
use concore2full.Base.{
  ℕ, zero, suc, ◌+◌, ◌%◌, ◌^◌, ◌<◌, ◌≤◌, ◌≡◌, ◌≢◌, ◌⊎◌, inl, inr, refl, ap, Bool-cases, arith, ◌==◌,
  ltb, update,
}
use concore2full.Sum.{sum, sum_le, sum_zero, sum-map_update}
use concore2full.ThreadInfo.{
  Info, Threads, prepare_sleep, wake_up, sleep_waits, SleepHelper, make_sleep_helper,
  get_wakeup_token, still_sleeps,
}
use concore2full.ThreadInfo.Sleep.{
  SleepPc, check_switch, compare, blocked, awake, CallPc, ready, added, finished, failed, State,
  Agent, sleeper, caller, sleep_at, unblock, notify_at, step, start,
}

wake_ups : ℕ → Info → Info
wake_ups zero i = i
wake_ups (suc n) i = wake_ups n (wake_up i)

wake_ups-counter :
    (n : ℕ) (i : Info)
    → i.sleeping_counter < 2 ^ 32
    → (wake_ups n i).sleeping_counter ≡ (i.sleeping_counter + n) % 2 ^ 32
unfolding wake_ups wake_up
wake_ups-counter zero i lt = omega arith
wake_ups-counter (suc n) i lt = omega (arith, wake_ups-counter n (wake_up i) (omega arith))

-- After `n` wake-ups since `prepare_sleep`, `sleep` blocks exactly if `n` is a multiple of 2^32.
sleep_waits_iff :
    (n : ℕ) (i : Info)
    → i.sleeping_counter < 2 ^ 32
    → sleep_waits (wake_ups n i) (prepare_sleep i) ≡ (n % 2 ^ 32 == 0)
unfolding sleep_waits prepare_sleep
sleep_waits_iff n i lt = ground (arith, wake_ups-counter n i lt)

-- Whether the call has made its `fetch_add`, and what is left of it.
abbrev pub has_added : CallPc → ℕ
has_added added = 1
has_added finished = 1
has_added _ = 0

has_added_le : (p : CallPc) → has_added p ≤ 1
has_added_le _ = ground arith

module _ (h : SleepHelper) (n : ℕ) (few : n < 2 ^ 32) (id_small : h.sleep_id < 2 ^ 32) where
  abbrev pub additions : State → ℕ
  additions s = sum n (λ k. has_added (s.call k))

  -- The counter counts, and a flow that is blocked has not missed a call: there was none, or one is
  -- still to notify.
  pub record Inv (s : State) : Type 0 where
    pub counter :
        (s.wait.threads.info h.current_thread).sleeping_counter
        ≡ (h.sleep_id + additions s) % 2 ^ 32
    pub calls : (k : ℕ) → s.call k ≢ failed
    pub not_missed :
        s.wait.sleeper ≡ blocked → (additions s ≡ 0) ⊎ ((k : ℕ) × (k < n) × (s.call k ≡ added))

  additions_le : (s : State) → additions s ≤ n
  additions_le s = sum_le n (λ k. has_added (s.call k)) (λ k. has_added_le (s.call k))

  blocks :
      (p : SleepPc) (s : State)
      → Inv s
      → s.wait.sleeper ≡ p
      → sleep_at h p s.wait.threads ≡ blocked
      → (additions s ≡ 0) ⊎ ((k : ℕ) × (k < n) × (s.call k ≡ added))
  unfolding sleep_at still_sleeps sleep_waits
  blocks check_switch s i e is = cc
  blocks compare s i e is = inl (ground (arith, i.counter, additions_le s))
  blocks blocked s i e is = i.not_missed e
  blocks awake s i e is = cc

  sleeper-Inv : (s : State) → Inv s → Inv (step h n sleeper s)
  unfolding step
  sleeper-Inv s i = record {
    counter = i.counter;
    calls = i.calls;
    not_missed = blocks s.wait.sleeper s i refl;
  }

  -- The state after an access of the call `k`.
  abbrev pub called : ℕ → CallPc → State → State
  called k p s =
      let r = notify_at (get_wakeup_token h) p s.wait in
      record s { wait = r.0; call = update s.call k r.1 }

  additions-called :
      (k : ℕ) (p q : CallPc) (s : State)
      → k < n
      → s.call k ≡ p
      → sum n (λ j. has_added (update s.call k q j)) + has_added p ≡ additions s + has_added q
  additions-called k p q s lt e =
      omega (arith, sum-map_update n k q has_added s.call lt, ap has_added e)

  never_blocked : (p : SleepPc) → unblock p ≢ blocked
  never_blocked blocked e = cc
  never_blocked _ e = cc

  called-Inv : (k : ℕ) (p : CallPc) (s : State) → k < n → s.call k ≡ p → Inv s → Inv (called k p s)
  unfolding notify_at get_wakeup_token wake_up
  called-Inv k ready s lt e i =
      let sums = additions-called k ready added s lt e in
      record {
        counter = ground (arith, i.counter, sums);
        calls = λ j f. ground (arith, i.calls j);
        not_missed = λ b. inr (k, lt, ground arith);
      }
  called-Inv k added s lt e i =
      let sums = additions-called k added finished s lt e in
      record {
        counter = ground (arith, i.counter, sums);
        calls = λ j f. ground (arith, i.calls j);
        not_missed = λ b. absurd (never_blocked s.wait.sleeper b);
      }
  called-Inv k finished s lt e i =
      let sums = additions-called k finished finished s lt e in
      record {
        counter = ground (arith, i.counter, sums);
        calls = λ j f. ground (arith, i.calls j);
        not_missed = λ b. elim (i.not_missed b) [
          | inl none_yet ↦ inl (omega (arith, sums))
          | inr (j, below, at) ↦ elim (Bool-cases (j == k)) [
            | inl own ↦ let same : j ≡ k = ground arith in absurd (ground (arith, ap s.call same))
            | inr other ↦ inr (j, below, ground arith)
          ]
        ];
      }
  called-Inv k failed s lt e i = absurd (i.calls k e)

  pub step-Inv : (a : Agent) (s : State) → Inv s → Inv (step h n a s)
  unfolding step
  step-Inv sleeper s i = sleeper-Inv s i
  step-Inv (caller k) s i = elim (Bool-cases (ltb k n)) [
    | inl lt ↦ rw lt (called-Inv k (s.call k) s (ground arith) refl i)
    | inr ge ↦ rw ge i
  ]

pub start-Inv :
    (me n : ℕ) (t : Threads) (few : n < 2 ^ 32) (small : (make_sleep_helper me t).sleep_id < 2 ^ 32)
    → Inv (make_sleep_helper me t) n few small (start t)
unfolding make_sleep_helper prepare_sleep
start-Inv me n t few small = record {
  counter = omega (arith, small, sum_zero n);
  calls = λ k e. cc;
  not_missed = λ e. cc;
}
