-- ===== src/ThreadInfo/Sleep.antt =====
-- A flow in `sleep_helper::sleep` (src/sleep_helper.cpp) and calls of `wakeup_token::notify` on its
-- token, on any threads, with `sleep` and `wake_up` of src/thread_info.cpp, interleaved at each access.
-- `std::atomic::wait` compares and blocks in one, and compares again once it is unblocked;
-- `notify_one` unblocks a flow that is blocked on the counter. This flow is the only one on it.
use concore2full.Base.{ℕ, Option, none, some, if◌then◌else◌, ltb, update}
use concore2full.ThreadInfo.{
  Threads, set_info, wake_up, SleepHelper, get_wakeup_token, still_sleeps,
}

-- Where the flow stands: before `check_for_thread_switch`, which may take it to another thread and
-- which Switch is about; before a comparison of `wait`; blocked in `wait`; behind `sleep`.
pub data SleepPc : Type 0 where
  check_switch compare blocked awake : SleepPc

-- Where a call of `notify` stands: before it, between `fetch_add` and `notify_one`, and behind it.
-- `failed` is the assertion that the token is not null.
pub data CallPc : Type 0 where
  ready added finished failed : CallPc

pub record Wait : Type 0 where
  pub threads : Threads
  pub sleeper : SleepPc

-- One access of `sleep_helper::sleep`.
unfoldable pub sleep_at : SleepHelper → SleepPc → Threads → SleepPc
unfolding still_sleeps
sleep_at h check_switch t = compare
sleep_at h compare t = if still_sleeps h t then blocked else awake
sleep_at h blocked t = blocked
sleep_at h awake t = awake

-- `notify_one`.
abbrev pub unblock : SleepPc → SleepPc
unblock blocked = compare
unblock p = p

-- One access of `wakeup_token::notify`.
unfoldable pub notify_at : (token : Option ℕ) → CallPc → Wait → Wait × CallPc
notify_at none ready w = (w, failed)
notify_at (some a) ready w = (record w { threads = set_info a wake_up w.threads }, added)
notify_at token added w = (record w { sleeper = unblock w.sleeper }, finished)
notify_at token finished w = (w, finished)
notify_at token failed w = (w, failed)

pub record State : Type 0 where
  pub wait : Wait
  pub call : ℕ → CallPc

pub data Agent : Type 0 where
  sleeper : Agent
  caller : ℕ → Agent

-- An access of the flow, or of one of the `n` calls.
unfoldable pub step : SleepHelper → (n : ℕ) → Agent → State → State
unfolding sleep_at notify_at get_wakeup_token
step h n sleeper s =
    let p = sleep_at h s.wait.sleeper s.wait.threads in
    record s { wait = record s.wait { sleeper = p } }
step h n (caller k) s =
    let r = notify_at (get_wakeup_token h) (s.call k) s.wait in
    if ltb k n then record s { wait = r.0; call = update s.call k r.1 } else s

-- The helper has just been made.
abbrev pub start : Threads → State
start t = record { wait = record { threads = t; sleeper = check_switch }; call = λ _. ready }
