-- ===== src/Switch/Progress.antt =====
-- How far the two threads are from having ended all switches, when no new one is asked for.
use concore2full.Base.{
  ℕ, ◌+◌, ◌<◌, ◌≤◌, ◌≡◌, ◌≢◌, ◌⊎◌, inl, inr, refl, Bool, true, false, Option, none, some, List,
  arith, ◌==◌, if◌then◌else◌,
}
use concore2full.Schedule.{run as run_plan, Fair, circles-Done}
use concore2full.ThreadInfo.{try_start_switch, end_switch, wake_up}
use concore2full.Switch.{
  Thread, first, second, Shared, Pc, State, Action, inversion_checkpoint, access, step,
}
use concore2full.Switch.Invariant.{PcOk, BothOk, originates}
use concore2full.Switch.Steps.{Inv, step-Inv, swap-BothOk, after, after-Inv}

-- The thread is within `requested_switch_with`, up to the continuation that it publishes.
abbrev answers : Pc → Bool
answers (Pc.request _ _) = true
answers (Pc.clear _ _ _) = true
answers (Pc.publish _ _ _) = true
answers _ = false

-- Accesses up to the load by which a thread notices a request.
abbrev notice_left : Pc → ℕ
notice_left (Pc.check _ _) = 0
notice_left (Pc.run _) = 1
notice_left (Pc.try_start _ _) = 1
notice_left (Pc.compare_target _ _) = 2
notice_left (Pc.wait_done _ _) = 3
notice_left _ = 4

-- A thread that waits for its answer, the other one being at `q` and having been given `c`.
abbrev asked_left : Pc → Option ℕ → ℕ
asked_left q none = 10
asked_left q (some _) = if answers q then 10 else 20 + notice_left q

-- A thread in the loop of `do_start_switch`.
abbrev pending_left : Pc → ℕ → ℕ
pending_left q d = if originates q then 63 else 60 + d

-- A bound for the thread with its data at `me`, which stands at the first place.
abbrev left : (me : ℕ) → Pc → Pc → Option ℕ → ℕ
left me (Pc.run f) q c = 0
left me (Pc.check f none) q c = 0
left me (Pc.check f (some t)) q c = pending_left q 2
left me (Pc.compare_target f t) q c = if me == t then 1 else pending_left q 1
left me (Pc.try_start f t) q c = pending_left q 0
left me (Pc.started f t) q c = 50
left me (Pc.store_to f t) q c = 49
left me (Pc.store_request f t) q c = 48
left me (Pc.wake f t) q c = 1 + asked_left q c
left me (Pc.wait f t) q c = asked_left q c
left me (Pc.finish f t r) q c = 9
left me (Pc.set_done f r) q c = 8
left me (Pc.request f r) q c = 7
left me (Pc.clear f r n) q c = 6
left me (Pc.publish f r n) q c = 5
left me (Pc.jump r) q c = 4
left me (Pc.wait_done f t) q c = 2

abbrev both_left : (o g : ℕ) → Pc → Pc → Shared → ℕ
both_left o g p q s =
    left o p q (s.threads.info g).switching_to + left g q p (s.threads.info o).switching_to

-- The thread is outside of all that is modelled, or about to load `should_switch_with_` there.
abbrev pub outside : Pc → Bool
outside (Pc.run f) = true
outside (Pc.check f none) = true
outside _ = false

module _ (o g : ℕ) (ne : o ≢ g) (s : Shared) where
  falls :
      (p q : Pc)
      → PcOk o g p q s
      → PcOk g o q p s
      → BothOk o g p q s
      → let r = access o inversion_checkpoint p s in both_left o g r.1 q r.0 ≤ both_left o g p q s
  unfolding access try_start_switch end_switch wake_up
  falls (Pc.run f) (Pc.run h) po qo both = ground arith
  falls _ _ po qo both = ground arith

  lives :
      (p q : Pc)
      → PcOk o g p q s
      → PcOk g o q p s
      → BothOk o g p q s
      → ((outside p ≡ true) × (outside q ≡ true))
        ⊎ (let r = access o inversion_checkpoint p s in
            both_left o g r.1 q r.0 < both_left o g p q s)
        ⊎ (let r = access g inversion_checkpoint q s in
            both_left o g p r.1 r.0 < both_left o g p q s)
  unfolding access try_start_switch end_switch wake_up
  lives (Pc.run f) (Pc.run h) po qo both = ground arith
  lives _ _ po qo both = ground arith

  stays_live :
      (p q : Pc)
      → PcOk o g p q s
      → PcOk g o q p s
      → BothOk o g p q s
      → (let r = access o inversion_checkpoint p s in both_left o g r.1 q r.0 < both_left o g p q s)
      → let r = access g inversion_checkpoint q s in
        both_left o g p r.1 r.0 ≡ both_left o g p q s
        → let r' = access o inversion_checkpoint p r.0 in
          both_left o g r'.1 r.1 r'.0 < both_left o g p r.1 r.0
  unfolding access try_start_switch end_switch wake_up
  stays_live (Pc.run f) (Pc.run h) po qo both lt e = ground arith
  stays_live _ _ po qo both lt e = ground arith

  stays_outside :
      (p q : Pc)
      → PcOk o g p q s
      → BothOk o g p q s
      → outside p ≡ true
      → outside q ≡ true
      → outside (access o inversion_checkpoint p s).1 ≡ true
  unfolding access try_start_switch end_switch wake_up
  stays_outside (Pc.run f) (Pc.run h) po both p' q' = ground arith
  stays_outside _ _ po both p' q' = ground arith

left_le : (me : ℕ) (p q : Pc) (c : Option ℕ) → left me p q c ≤ 63
left_le me (Pc.run f) (Pc.run h) c = ground arith
left_le me _ _ c = ground arith

-- Both threads go on; each makes an inversion checkpoint whenever it is outside.
abbrev pub go_on : Thread → State → State
go_on x s = step (x, inversion_checkpoint) s

abbrev pub measure : State → ℕ
measure s = both_left 0 1 (s.pc first) (s.pc second) s.shared

abbrev Done : State → Type 0
Done s = Inv s × (outside (s.pc first) ≡ true) × (outside (s.pc second) ≡ true)

pub measure_le : (s : State) → measure s ≤ 126
measure_le s = omega (
  arith,
  left_le 0 (s.pc first) (s.pc second) (s.shared.threads.info 1).switching_to,
  left_le 1 (s.pc second) (s.pc first) (s.shared.threads.info 0).switching_to,
)

pub go_on-falls : (x : Thread) (s : State) → Inv s → measure (go_on x s) ≤ measure s
unfolding step
go_on-falls first s inv =
    falls 0 1 (λ e. cc) s.shared (s.pc first) (s.pc second) inv.one inv.two inv.both
go_on-falls second s inv =
    let p = s.pc first in
    let q = s.pc second in
    omega (
      arith,
      falls 1 0 (λ e. cc) s.shared q p inv.two inv.one (swap-BothOk 0 1 p q s.shared inv.both),
    )

pub go_on_lives : (s : State) → Inv s → Done s ⊎ ((x : Thread) × (measure (go_on x s) < measure s))
unfolding step
go_on_lives s inv =
    elim (lives 0 1 (λ e. cc) s.shared (s.pc first) (s.pc second) inv.one inv.two inv.both) [
      | inl (p, q) ↦ inl (inv, p, q)
      | inr (inl lt) ↦ inr (first, lt)
      | inr (inr lt) ↦ inr (second, lt)
    ]

pub go_on_persists :
    (a b : Thread) (s : State)
    → Inv s
    → measure (go_on a s) < measure s
    → measure (go_on b s) ≡ measure s
    → (a ≡ b) ⊎ (measure (go_on a (go_on b s)) < measure (go_on b s))
unfolding step
go_on_persists first first s inv lt e = inl refl
go_on_persists second second s inv lt e = inl refl
go_on_persists first second s inv lt e =
    inr (stays_live 0 1 (λ d. cc) s.shared (s.pc first) (s.pc second) inv.one inv.two inv.both lt e)
go_on_persists second first s inv lt e =
    let p = s.pc first in
    let q = s.pc second in
    inr (
      omega (
        arith,
        stays_live 1 0 (λ d. cc) s.shared q p inv.two inv.one
            (swap-BothOk 0 1 p q s.shared inv.both) (omega arith) (omega arith),
      ))

go_on-Done : (x : Thread) (s : State) → Done s → Done (go_on x s)
unfolding step
go_on-Done first s (inv, p, q) = (
  step-Inv (first, inversion_checkpoint) s inv,
  stays_outside 0 1 (λ e. cc) s.shared (s.pc first) (s.pc second) inv.one inv.both p q,
  q,
)
go_on-Done second s (inv, p, q) = (
  step-Inv (second, inversion_checkpoint) s inv,
  p,
  stays_outside 1 0 (λ e. cc) s.shared (s.pc second) (s.pc first) inv.two
      (swap-BothOk 0 1 (s.pc first) (s.pc second) s.shared inv.both) q p,
)

-- From every reachable state, under every schedule with 126 windows in which both threads have a
-- turn, all switches come to their end, if each thread makes inversion checkpoints and asks for no
-- further switch: then both threads are outside of the code.
pub switch-Done :
    (plan : List (Thread × Action)) (rest : List Thread)
    → Fair 126 rest
    → let s = run_plan go_on rest (after plan) in
      (outside (s.pc first) ≡ true) × (outside (s.pc second) ≡ true)
switch-Done plan rest fair =
    let s = after plan in
    let done =
      circles-Done go_on Inv (λ x t inv. step-Inv (x, inversion_checkpoint) t inv) measure Done
        go_on-falls go_on_lives go_on_persists go_on-Done fair s (after-Inv plan) (measure_le s) in
    (done.1, done.2)
