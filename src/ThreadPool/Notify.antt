-- ===== src/ThreadPool/Notify.antt =====
-- The counter by which a sleep object takes notifications.
use concore2full.Base.{
  ℕ, zero, suc, ◌+◌, ◌-◌, ◌^◌, ◌<◌, ◌≤◌, ◌≡◌, refl, true, false, arith, if◌then◌else◌,
}
use concore2full.ThreadPool.{SleepData, u32, try_notify, sleep_begin, sleep_end}

-- `n` calls of `try_notify`, and how many of them returned true.
notify_times : ℕ → ℕ → SleepData → SleepData × ℕ
notify_times zero hint d = (d, 0)
notify_times (suc n) hint d =
    let r = try_notify hint d in
    let s = notify_times n hint r.0 in (s.0, s.1 + (if r.1 then 1 else 0))

-- They add up in the counter, modulo 2^32.
notify_times-wake_requests :
    (n hint : ℕ) (d : SleepData)
    → d.wake_requests < 2 ^ 32
    → (notify_times n hint d).0.wake_requests ≡ u32 (d.wake_requests + n)
unfolding notify_times try_notify
notify_times-wake_requests zero hint d lt = omega arith
notify_times-wake_requests (suc n) hint d lt =
    ground (arith, notify_times-wake_requests n hint (try_notify hint d).0)

-- While the counter stays above zero, nobody is notified, and the start line stays.
notify_times_awake :
    (n hint : ℕ) (d : SleepData)
    → 0 < d.wake_requests
    → d.wake_requests + n ≤ 2 ^ 32
    → ((notify_times n hint d).1 ≡ 0)
      × ((notify_times n hint d).0.work_line_start_index ≡ d.work_line_start_index)
unfolding notify_times try_notify
notify_times_awake zero hint d pos lt = (refl, refl)
notify_times_awake (suc zero) hint d pos lt = ground arith
notify_times_awake (suc (suc n)) hint d pos lt =
    ground (arith, notify_times_awake (suc n) hint (try_notify hint d).0)

-- A thread that has gone to sleep is notified exactly once, by the first of fewer than 2^32 calls,
-- and is told to start from that call's line.
notify_times_asleep :
    (n hint thread : ℕ) (d : SleepData)
    → d.wake_requests ≡ 1
    → n + 1 < 2 ^ 32
    → ((sleep_begin thread false d).1 ≡ true)
      × ((notify_times (suc n) hint (sleep_begin thread false d).0).1 ≡ 1)
      × ((sleep_end (notify_times (suc n) hint (sleep_begin thread false d).0).0).1 ≡ hint)
unfolding notify_times try_notify sleep_begin sleep_end
notify_times_asleep n hint thread d e small =
    ground (arith, notify_times_awake n hint (try_notify hint (sleep_begin thread false d).0).0)

-- Notifications that come while the thread is awake are kept: of fewer than 2^32 - 1 none returns
-- true, and after one or more the thread does not go to sleep.
notify_times_pending :
    (n hint thread : ℕ) (d : SleepData)
    → d.wake_requests ≡ 1
    → 0 < n
    → n + 1 < 2 ^ 32
    → ((notify_times n hint d).1 ≡ 0)
      × ((sleep_begin thread false (notify_times n hint d).0).1 ≡ false)
unfolding sleep_begin
notify_times_pending n hint thread d e pos small =
    ground (arith, notify_times_awake n hint d, notify_times-wake_requests n hint d)

-- The counter wraps around: after 2^32 - 1 notifications of a thread that stays awake, the next one
-- reports that it woke the thread up.
notify_times_wrap :
    (hint : ℕ) (d : SleepData)
    → d.wake_requests ≡ 1
    → (try_notify hint (notify_times (2 ^ 32 - 1) hint d).0).1 ≡ true
unfolding try_notify
notify_times_wrap hint d e = ground (arith, notify_times-wake_requests (2 ^ 32 - 1) hint d)
