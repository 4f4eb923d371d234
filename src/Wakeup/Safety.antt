-- ===== src/Wakeup/Safety.antt =====
-- What the pool promises about sleeping threads in every interleaving.
use concore2full.Base.{ℕ, ◌<◌, ◌^◌, ◌≡◌, ◌≢◌, Bool, true, false, arith, List}
use concore2full.Sum.{sum_term, sum_none}
use concore2full.Wakeup.{Config, Pool, Pc, load_num, wait, dec_num, count, Choice}
use concore2full.Wakeup.Invariant.{at_count, at_dec, at_notify, at_token, Counts, counts, PcOk}
use concore2full.Wakeup.Steps.{Bounded, after, after-Inv}

-- The thread is in `enqueue`, behind the push of the task.
abbrev pub enqueues : Pc → Bool
enqueues count = true
enqueues (Pc.notify i) = true
enqueues (Pc.token i) = true
enqueues _ = false

none_enqueues :
    (x : Pc) → enqueues x ≡ false → (at_count x ≡ 0) × (at_notify x ≡ 0) × (at_token x ≡ 0)
none_enqueues load_num e = ground arith
none_enqueues _ e = ground arith

none_takes : (x : Pc) → at_dec x ≡ 0 → x ≢ dec_num
none_takes load_num e = ground arith
none_takes _ e = ground arith

sleeps_idle :
    (c : Counts) (p : Pool)
    → PcOk wait c p
    → p.woken 0 ≡ false
    → c.counting ≡ 0
    → c.notifying ≡ 0
    → c.waking ≡ 0
    → (p.queued ≡ 0) × (c.taking ≡ 0)
sleeps_idle c p ok asleep counting notifying waking = ground arith

module _ (config : Config) (few : config.threads < 2 ^ 30) (some_object : 0 < config.size) where
  -- No wake-up is lost: when the first thread of the pool sleeps, its token not notified, and no
  -- thread is between pushing a task and the end of `notify_one`, then there is no task on the
  -- lines, and no thread is between taking a task and counting it down. This is for fewer than
  -- 2^30 threads, and while fewer than 2^30 tasks have been pushed.
  pub sleep-no_task :
      (plan : List (ℕ × Choice))
      → Bounded (after config plan)
      → let s = after config plan in
        s.pc 0 ≡ wait
        → s.pool.woken 0 ≡ false
        → ((j : ℕ) → j < config.threads → enqueues (s.pc j) ≡ false)
        → (s.pool.queued ≡ 0) × ((j : ℕ) → j < config.threads → s.pc j ≢ dec_num)
  sleep-no_task plan b at asleep quiet =
      let s = after config plan in
      let inv = after-Inv config few some_object plan b in
      let n = config.threads in
      let ok : PcOk wait (counts n s.pc) s.pool = rw at at inv.zeroth in
      let none_at = λ (j : ℕ) (lt : j < n). none_enqueues (s.pc j) (quiet j lt) in
      let idle =
        sleeps_idle (counts n s.pc) s.pool ok asleep
          (sum_none n (λ j. at_count (s.pc j)) (λ j lt. (none_at j lt).0))
          (sum_none n (λ j. at_notify (s.pc j)) (λ j lt. (none_at j lt).1))
          (sum_none n (λ j. at_token (s.pc j)) (λ j lt. (none_at j lt).2)) in
      (
        idle.0,
        λ j lt. none_takes (s.pc j) (omega (arith, idle.1, sum_term n j (λ i. at_dec (s.pc i)) lt)),
      )
