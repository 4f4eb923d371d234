-- ===== src/ThreadInfo/Parking.antt =====
-- That a sleep ends.
use concore2full.Base.{
  ℕ, ◌+◌, ◌*◌, ◌^◌, ◌<◌, ◌≤◌, ◌≡◌, ◌≢◌, ◌⊎◌, inl, inr, refl, ap, sym, ◌∙◌, Bool-cases, true, List,
  arith, ltb, update, update_same,
}
use concore2full.Sum.{sum, sum_le_mul, sum_term, sum-map_update, all_or_some}
use concore2full.Schedule.{run, run-keeps, FairTo, FairTo-Done}
use concore2full.ThreadInfo.{
  Threads, prepare_sleep, SleepHelper, make_sleep_helper, get_wakeup_token,
}
use concore2full.ThreadInfo.Sleep.{
  SleepPc, check_switch, compare, blocked, awake, CallPc, ready, added, finished, failed, Wait,
  State, Agent, sleeper, caller, sleep_at, unblock, notify_at, step, start,
}
use concore2full.ThreadInfo.Counter.{has_added, Inv, called, step-Inv, start-Inv}

abbrev call_left : CallPc → ℕ
call_left ready = 4
call_left added = 2
call_left _ = 0

abbrev sleep_left : SleepPc → ℕ
sleep_left check_switch = 3
sleep_left compare = 2
sleep_left blocked = 1
sleep_left awake = 0

call_left_le : (p : CallPc) → call_left p ≤ 4
call_left_le _ = ground arith

-- The agents that there are.
abbrev pub Turn : ℕ → Agent → Type 0
Turn n sleeper = Unit
Turn n (caller k) = k < n

module _ (h : SleepHelper) (n : ℕ) (few : n < 2 ^ 32) (id_small : h.sleep_id < 2 ^ 32) where
  abbrev measure : State → ℕ
  measure s = sum n (λ k. call_left (s.call k)) + sleep_left s.wait.sleeper

  sleep_moves :
      (p : SleepPc) (t : Threads)
      → (sleep_at h p t ≡ p) ⊎ (sleep_left (sleep_at h p t) < sleep_left p)
  unfolding sleep_at
  sleep_moves compare t = ground arith
  sleep_moves blocked t = inl refl
  sleep_moves awake t = inl refl
  sleep_moves check_switch t = ground arith

  unblock_left : (p : SleepPc) → sleep_left (unblock p) ≤ sleep_left p + 1
  unblock_left blocked = omega arith
  unblock_left _ = omega arith

  unchanged :
      (k : ℕ) (p : CallPc) (s : State) → s.call k ≡ p → record s { call = update s.call k p } ≡ s
  unchanged k p s e =
      ap (λ c. record s { call = c }) (ap (update s.call k) (sym e) ∙ update_same s.call k)

  called-moves :
      (k : ℕ) (p : CallPc) (s : State)
      → k < n
      → s.call k ≡ p
      → (called h n few id_small k p s ≡ s) ⊎ (measure (called h n few id_small k p s) < measure s)
  unfolding notify_at get_wakeup_token
  called-moves k ready s lt e =
      inr (omega (arith, sum-map_update n k added call_left s.call lt, ap call_left e))
  called-moves k added s lt e = inr (
      omega (
        arith,
        sum-map_update n k finished call_left s.call lt,
        ap call_left e,
        unblock_left s.wait.sleeper,
      ))
  called-moves k finished s lt e = inl (unchanged k finished s e)
  called-moves k failed s lt e = inl (unchanged k failed s e)

  step-moves : (a : Agent) (s : State) → (step h n a s ≡ s) ⊎ (measure (step h n a s) < measure s)
  unfolding step
  step-moves sleeper s = elim (sleep_moves s.wait.sleeper s.wait.threads) [
    | inl same ↦ inl (rw same refl)
    | inr lt ↦ inr (omega (arith, lt))
  ]
  step-moves (caller k) s = elim (Bool-cases (ltb k n)) [
    | inl lt ↦ rw lt (called-moves k (s.call k) s (ground arith) refl)
    | inr ge ↦ rw ge (inl refl)
  ]

  abbrev Awake : State → Type 0
  Awake s = s.wait.sleeper ≡ awake

  -- A call that is under way lowers the measure.
  call-lives :
      (k : ℕ) (p : CallPc) (s : State)
      → k < n
      → s.call k ≡ p
      → 0 < call_left p
      → measure (called h n few id_small k p s) < measure s
  unfolding notify_at get_wakeup_token
  call-lives k ready s lt e pos =
      omega (arith, sum-map_update n k added call_left s.call lt, ap call_left e)
  call-lives k added s lt e pos = omega (
    arith,
    sum-map_update n k finished call_left s.call lt,
    ap call_left e,
    unblock_left s.wait.sleeper,
  )
  call-lives k finished s lt e pos = absurd (omega arith)
  call-lives k failed s lt e pos = absurd (omega arith)

  -- Once no call has anything left, a flow that is blocked would have missed the call 0.
  all_finished :
      (s : State)
      → Inv h n few id_small s
      → 0 < n
      → ((k : ℕ) → k < n → call_left (s.call k) ≡ 0)
      → s.wait.sleeper ≢ blocked
  all_finished s i some_call zeros b = elim (i.not_missed b) [
    | inl none_yet ↦ absurd (
        unstarted (s.call 0) refl (zeros 0 some_call)
          (omega (arith, sum_term n 0 (λ k. has_added (s.call k)) some_call)))
    | inr (k, lt, at) ↦ absurd (omega (arith, zeros k lt, ap call_left at))
  ]
    where
      unstarted : (p : CallPc) → s.call 0 ≡ p → call_left p ≡ 0 → has_added p ≤ 0 → ⊥
      unstarted failed e z a = i.calls 0 e
      unstarted ready e z a = omega arith
      unstarted added e z a = omega arith
      unstarted finished e z a = omega arith

  sleeper-lives :
      (p : SleepPc) (s : State)
      → s.wait.sleeper ≡ p
      → p ≢ blocked
      → Awake s ⊎ (measure (step h n sleeper s) < measure s)
  unfolding step sleep_at
  sleeper-lives check_switch s e free = inr (ground (arith, ap sleep_left e))
  sleeper-lives compare s e free = inr (ground (arith, ap sleep_left e))
  sleeper-lives blocked s e free = absurd (free refl)
  sleeper-lives awake s e free = inl e

  step-lives :
      0 < n
      → (s : State) → Inv h n few id_small s
      → Awake s ⊎ ((a : Agent) × Turn n a × (measure (step h n a s) < measure s))
  unfolding step
  step-lives some_call s i = elim (all_or_some n (λ k. call_left (s.call k))) [
    | inr (k, lt, pos) ↦
        let is_turn : ltb k n ≡ true = ground arith in
        inr (caller k, lt, rw is_turn (call-lives k (s.call k) s lt refl pos))
    | inl zeros ↦ elim (sleeper-lives s.wait.sleeper s refl (all_finished s i some_call zeros)) [
      | inl up ↦ inl up
      | inr lower ↦ inr (sleeper, tt, lower)
    ]
  ]

  still_awake :
      (p : CallPc) (w : Wait)
      → w.sleeper ≡ awake
      → (notify_at (get_wakeup_token h) p w).0.sleeper ≡ awake
  unfolding notify_at get_wakeup_token
  still_awake ready w e = e
  still_awake added w e = ap unblock e
  still_awake finished w e = e
  still_awake failed w e = e

  step-Awake : (a : Agent) (s : State) → Awake s → Awake (step h n a s)
  unfolding step sleep_at
  step-Awake sleeper s e = rw e refl
  step-Awake (caller k) s e = elim (Bool-cases (ltb k n)) [
    | inl lt ↦ rw lt (still_awake (s.call k) s.wait e)
    | inr ge ↦ rw ge e
  ]

  sleep_left_le : (p : SleepPc) → sleep_left p ≤ 3
  sleep_left_le _ = ground arith

  measure_le : (s : State) → measure s ≤ 4 * n + 3
  measure_le s = omega (
    arith,
    sum_le_mul n 4 (λ k. call_left (s.call k)) (λ k _. call_left_le (s.call k)),
    sleep_left_le s.wait.sleeper,
  )

-- No wake-up is lost: where `notify` is called on the token of a `sleep_helper` at least once and
-- fewer than 2^32 times since it was made, whatever the flow and the calls do first, under every
-- further schedule with 4 * n + 3 windows, in which the flow and the `n` calls have a turn each, the
-- flow comes out of `sleep`. It is the only one that waits on the counter.
pub sleep-Awake :
    (me n : ℕ) (t : Threads) (plan rest : List Agent)
    → (t.info me).sleeping_counter < 2 ^ 32
    → 0 < n
    → n < 2 ^ 32
    → FairTo (Turn n) (4 * n + 3) rest
    → let h = make_sleep_helper me t in
      (run (step h n) rest (run (step h n) plan (start t))).wait.sleeper ≡ awake
unfolding make_sleep_helper prepare_sleep
sleep-Awake me n t plan rest small some_call few fair =
    let h = make_sleep_helper me t in
    let s = run (step h n) plan (start t) in
    FairTo-Done (Turn n) (step h n) (Inv h n few small) (step-Inv h n few small)
      (measure h n few small) (Awake h n few small) (λ a u _. step-moves h n few small a u)
      (step-lives h n few small some_call) (step-Awake h n few small) fair s
      (run-keeps (step h n) (Inv h n few small) (step-Inv h n few small) plan (start t)
        (start-Inv me n t few small))
      (measure_le h n few small s)
