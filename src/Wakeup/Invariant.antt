-- ===== src/Wakeup/Invariant.antt =====
-- The invariant of sleeping and waking, for the first thread of the pool.
use concore2full.Base.{ℕ, ◌+◌, ◌<◌, ◌≤◌, ◌≡◌, ◌⊎◌, true, ◌==◌, if◌then◌else◌}
use concore2full.Sum.{sum}
use concore2full.Wakeup.{Pool, Pc, prepare, dec_wake, wait, reset, dec_num, count}

-- The places at which threads are counted: between the push and the count of a task, between
-- taking a task and counting it down, and before the notification of the first sleep object.
abbrev pub at_count : Pc → ℕ
at_count count = 1
at_count _ = 0

abbrev pub at_dec : Pc → ℕ
at_dec dec_num = 1
at_dec _ = 0

abbrev pub at_notify : Pc → ℕ
at_notify (Pc.notify i) = if i == 0 then 1 else 0
at_notify _ = 0

abbrev pub at_token : Pc → ℕ
at_token (Pc.token i) = if i == 0 then 1 else 0
at_token _ = 0

-- How many threads stand there.
pub record Counts : Type 0 where
  pub counting : ℕ
  pub taking : ℕ
  pub notifying : ℕ
  pub waking : ℕ

abbrev pub counts : ℕ → (ℕ → Pc) → Counts
counts n pc = record {
  counting = sum n (λ k. at_count (pc k));
  taking = sum n (λ k. at_dec (pc k));
  notifying = sum n (λ k. at_notify (pc k));
  waking = sum n (λ k. at_token (pc k));
}

-- The first thread may sleep: it is going to be notified, or all tasks are still to be counted.
abbrev pub Idle : Counts → Pool → Type 0
Idle c p = (0 < c.notifying) ⊎ (p.queued + c.taking ≤ c.counting)

abbrev pub PcOk : Pc → Counts → Pool → Type 0
PcOk prepare c p = (1 ≤ p.wake_requests 0) × (p.wake_requests 0 ≡ 1 → Idle c p)
PcOk dec_wake c p = (1 ≤ p.wake_requests 0) × (p.wake_requests 0 ≡ 1 → Idle c p)
PcOk wait c p =
    (p.wake_requests 0 ≡ 0 → Idle c p)
    × (1 ≤ p.wake_requests 0 → (p.woken 0 ≡ true) ⊎ (0 < c.waking))
PcOk reset c p = Unit
PcOk _ c p = 1 ≤ p.wake_requests 0
