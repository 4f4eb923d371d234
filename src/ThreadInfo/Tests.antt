-- ===== src/ThreadInfo/Tests.antt =====
-- Two threads, and the theorems there.
use concore2full.Base.{
  ap, zero, suc, inl, inr, Bool-cases, ℕ, ◌≡◌, ◌≢◌, ◌⊎◌, ◌++◌, List, refl, true, false, none, [],
  ◌∷◌, arith, ◌==◌, if◌then◌else◌, has,
}
use concore2full.ThreadInfo.{
  Info, Threads, get_current_thread_info, remove_thread, make_sleep_helper, get_wakeup_token,
  still_sleeps, wake_up,
}
use concore2full.ThreadInfo.Registry.{IsRegistry, get_current_thread_info_lem}
use concore2full.Schedule.{run, In, FairTo, stop_to, window_to}
use concore2full.ThreadInfo.Sleep.{
  blocked, awake, Agent, sleeper, caller, sleep_at, notify_at, step, start,
}
use concore2full.ThreadInfo.Parking.{Turn, sleep-Awake}

abbrev fresh : ℕ → Info
fresh id = record {
  thread_id = id;
  should_switch_with = none;
  is_currently_switching = false;
  switching_to = none;
  sleeping_counter = 0;
}

-- The thread with id 10 has its data at 1, that with id 20 at 2.
abbrev two : Threads
two = record {
  info = λ a. fresh (if a == 1 then 10 else if a == 2 then 20 else 0);
  g_threads = 1 ∷ 2 ∷ [];
}

two-IsRegistry : IsRegistry two
two-IsRegistry = record { distinct = (refl, (refl, tt)); unique = λ a b i j e. ground arith }

-- A flow that has moved to the thread 20 and still sees the data of the thread 10.
get_current_thread_info_lem_example :
    let r = get_current_thread_info 1 20 two in
    ((r.1 ≡ two) × ((two.info r.0).thread_id ≡ 20) × (has r.0 two.g_threads ≡ true))
    ⊎ (((a : ℕ) → has a two.g_threads ≡ true → (two.info a).thread_id ≢ 20)
        × (r.0 ≡ 1)
        × ((r.1.info 1).thread_id ≡ 20)
        × (r.1.g_threads ≡ two.g_threads ++ (1 ∷ []))
        × (¬ IsRegistry r.1))
get_current_thread_info_lem_example = get_current_thread_info_lem 1 20 two two-IsRegistry refl

moved_run : (get_current_thread_info 1 20 two).0 ≡ 2
unfolding get_current_thread_info
moved_run = refl

-- On a thread with no data yet, a flow that sees those of the thread 10 takes them over.
taken_over-run : (get_current_thread_info 1 30 two).1.g_threads ≡ 1 ∷ 2 ∷ 1 ∷ []
unfolding get_current_thread_info
taken_over-run = refl

removed_run : (remove_thread 1 two).g_threads ≡ 2 ∷ []
unfolding remove_thread
removed_run = refl

-- The thread 10 prepares to sleep, and blocks before the first of two notifications.
abbrev blocked_first : List Agent
blocked_first = sleeper ∷ sleeper ∷ caller 0 ∷ []

blocked_run :
    (run (step (make_sleep_helper 1 two) 2) blocked_first (start two)).wait.sleeper ≡ blocked
unfolding run step sleep_at notify_at still_sleeps make_sleep_helper get_wakeup_token wake_up
blocked_run = refl

abbrev rounds : ℕ → List Agent
rounds zero = []
rounds (suc m) = (sleeper ∷ caller 0 ∷ caller 1 ∷ []) ++ rounds m

all_turns : (a : Agent) → Turn 2 a → In a (sleeper ∷ caller 0 ∷ caller 1 ∷ [])
all_turns sleeper turn = inl refl
all_turns (caller k) turn = elim (Bool-cases (k == 0)) [
  | inl e ↦ let same : k ≡ 0 = ground arith in inr (inl (ap caller same))
  | inr ne ↦ let same : k ≡ 1 = ground arith in inr (inr (inl (ap caller same)))
]

rounds-FairTo : (m : ℕ) → FairTo (Turn 2) m (rounds m)
rounds-FairTo zero = stop_to
rounds-FairTo (suc m) = window_to (sleeper ∷ caller 0 ∷ caller 1 ∷ []) all_turns (rounds-FairTo m)

sleep-Awake_example :
    let h = make_sleep_helper 1 two in
    (run (step h 2) (rounds 11) (run (step h 2) blocked_first (start two))).wait.sleeper ≡ awake
sleep-Awake_example =
    sleep-Awake 1 2 two blocked_first (rounds 11) (omega arith) (omega arith) (omega arith)
      (rounds-FairTo 11)
