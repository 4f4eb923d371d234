-- ===== src/Wakeup/Steps.antt =====
-- Every access keeps the invariant, while fewer than 2^30 tasks have been pushed.
use concore2full.Base.{
  ℕ, ◌+◌, ◌%◌, ◌^◌, ◌<◌, ◌≤◌, ◌≡◌, ◌≢◌, inl, inr, sym, ap, ◌∙◌, Bool-cases, arith, List, update,
  ◌==◌, ltb,
}
use concore2full.Schedule.{run, run-keeps}
use concore2full.Sum.{sum-map_update, sum_le, sum_term, sum_none}
use concore2full.Wakeup.{
  Config, Pool, Pc, load_num, dec_wake, Choice, go, State, access, step, start,
}
use concore2full.Wakeup.Invariant.{at_count, at_dec, at_notify, at_token, Counts, counts, PcOk}

-- What an access does to the counts.
pub record Moved (c : Counts) (p q : Pc) (c' : Counts) : Type 0 where
  pub counting : c'.counting + at_count p ≡ c.counting + at_count q
  pub taking : c'.taking + at_dec p ≡ c.taking + at_dec q
  pub notifying : c'.notifying + at_notify p ≡ c.notifying + at_notify q
  pub waking : c'.waking + at_token p ≡ c.waking + at_token q
  pub at_least : (at_count p ≤ c.counting) × (at_dec p ≤ c.taking) × (at_notify p ≤ c.notifying)
  pub few : (c'.counting < 2 ^ 30) × (c'.taking < 2 ^ 30)

abbrev pub Numbers : Counts → Pool → Type 0
Numbers c p =
    ((p.num_tasks + c.counting) % 2 ^ 32 ≡ (p.queued + c.taking) % 2 ^ 32)
    × (p.num_tasks < 2 ^ 32)
    × (p.queued ≤ p.pushed)
    × (p.wake_requests 0 + c.notifying + c.counting ≤ 1 + p.pushed)
    × (c.notifying + c.counting ≤ p.pushed)
    × (c.counting < 2 ^ 30)
    × (c.taking < 2 ^ 30)

module _ (config : Config) (some_object : 0 < config.size) (p : Pool) (c c' : Counts) where
  access-own :
      (k : ℕ) (a : Choice) (x : Pc)
      → k ≡ 0
      → (access config k a x p).0.pushed < 2 ^ 30
      → Moved c x (access config k a x p).1 c'
      → Numbers c p
      → PcOk x c p
      → PcOk (access config k a x p).1 c' (access config k a x p).0
  unfolding access
  access-own k go load_num z b m nums ok = ground arith
  access-own k _ _ z b m nums ok = ground arith

  access-Numbers :
      (k : ℕ) (a : Choice) (x : Pc)
      → (access config k a x p).0.pushed < 2 ^ 30
      → Moved c x (access config k a x p).1 c'
      → (k ≡ 0 → x ≡ dec_wake → 1 ≤ p.wake_requests 0)
      → Numbers c p
      → Numbers c' (access config k a x p).0
  unfolding access
  access-Numbers k go load_num b m some_wake nums = ground arith
  access-Numbers k _ _ b m some_wake nums = ground arith

  access-other :
      (k : ℕ) (a : Choice) (x y : Pc)
      → k ≢ 0
      → (access config k a x p).0.pushed < 2 ^ 30
      → Moved c x (access config k a x p).1 c'
      → Numbers c p
      → PcOk y c p
      → PcOk y c' (access config k a x p).0
  unfolding access
  access-other k go load_num load_num ne b m nums ok = ground arith
  access-other k _ _ _ ne b m nums ok = ground arith

at_places : (x : Pc) → (at_count x ≤ 1) × (at_dec x ≤ 1)
at_places load_num = ground arith
at_places _ = ground arith

-- The states that the threads can reach.
abbrev pub after : Config → List (ℕ × Choice) → State
after config plan = run (step config) plan (start config)

abbrev pub Bounded : State → Type 0
Bounded s = s.pool.pushed < 2 ^ 30

module _ (config : Config) (few : config.threads < 2 ^ 30) (some_object : 0 < config.size) where
  open config use {threads}

  pub record Inv (s : State) : Type 0 where
    pub numbers : Numbers (counts threads s.pc) s.pool
    pub zeroth : PcOk (s.pc 0) (counts threads s.pc) s.pool

  moved :
      (k : ℕ) (x : Pc) (pc : ℕ → Pc)
      → k < threads
      → Moved (counts threads pc) (pc k) x (counts threads (update pc k x))
  moved k x pc lt = record {
    counting = sum-map_update threads k x at_count pc lt;
    taking = sum-map_update threads k x at_dec pc lt;
    notifying = sum-map_update threads k x at_notify pc lt;
    waking = sum-map_update threads k x at_token pc lt;
    at_least = (
      sum_term threads k (λ j. at_count (pc j)) lt,
      sum_term threads k (λ j. at_dec (pc j)) lt,
      sum_term threads k (λ j. at_notify (pc j)) lt,
    );
    few = (
      omega (
        arith,
        sum_le threads (λ j. at_count (update pc k x j)) (λ j. (at_places (update pc k x j)).0),
      ),
      omega (
        arith,
        sum_le threads (λ j. at_dec (update pc k x j)) (λ j. (at_places (update pc k x j)).1),
      ),
    );
  }

  zeroth-requests :
      (k : ℕ) (pc : ℕ → Pc) (c : Counts) (p : Pool)
      → PcOk (pc 0) c p
      → k ≡ 0
      → pc k ≡ dec_wake
      → 1 ≤ p.wake_requests 0
  zeroth-requests k pc c p ok z e =
      let at : PcOk dec_wake c p = rw (sym (ap pc z) ∙ e) at ok in at.0

  step-Inv :
      (a : ℕ × Choice) (s : State) → Inv s → Bounded (step config a s) → Inv (step config a s)
  unfolding step
  step-Inv (k, a) s inv b = elim (Bool-cases (ltb k threads)) [
    | inr off ↦ rw off inv
    | inl on ↦
        let lt : k < threads = ground arith in
        let x = s.pc k in
        let c = counts threads s.pc in
        let r = access config k a x s.pool in
        let c' = counts threads (update s.pc k r.1) in
        let b' : r.0.pushed < 2 ^ 30 = rw on at b in
        let m = moved k r.1 s.pc lt in
        rw on (record {
          numbers =
              access-Numbers config some_object s.pool c c' k a x b' m
                (zeroth-requests k s.pc c s.pool inv.zeroth) inv.numbers;
          zeroth = elim (Bool-cases (0 == k)) [
            | inl own ↦
                let z : k ≡ 0 = ground arith in
                rw own (
                  access-own config some_object s.pool c c' k a x z b' m inv.numbers
                    (rw (ap s.pc z) inv.zeroth))
            | inr other ↦ rw other (
                access-other config some_object s.pool c c' k a x (s.pc 0) (ground arith) b' m
                  inv.numbers inv.zeroth)
          ];
        })
  ]

  access-pushed :
      (k : ℕ) (a : Choice) (x : Pc) (p : Pool) → p.pushed ≤ (access config k a x p).0.pushed
  unfolding access
  access-pushed k go load_num p = ground arith
  access-pushed k _ _ p = ground arith

  step-Bounded : (a : ℕ × Choice) (s : State) → Bounded (step config a s) → Bounded s
  unfolding step
  step-Bounded (k, a) s b = ground (arith, access-pushed k a (s.pc k) s.pool)

  start_pc :
      (k : ℕ)
      → let x = (start config).pc k in
        (at_count x ≡ 0) × (at_dec x ≡ 0) × (at_notify x ≡ 0) × (at_token x ≡ 0)
  start_pc k = ground arith

  start-Inv : Inv (start config)
  start-Inv =
      let c = sum_none threads (λ j. at_count ((start config).pc j)) (λ j lt. (start_pc j).0) in
      let d = sum_none threads (λ j. at_dec ((start config).pc j)) (λ j lt. (start_pc j).1) in
      let r = sum_none threads (λ j. at_notify ((start config).pc j)) (λ j lt. (start_pc j).2) in
      record { numbers = omega (arith, c, d, r); zeroth = ground arith }

  pub after-Inv : (plan : List (ℕ × Choice)) → Bounded (after config plan) → Inv (after config plan)
  after-Inv plan =
      run-keeps (step config) (λ s. Bounded s → Inv s)
        (λ a s keep b. step-Inv a s (keep (step-Bounded a s b)) b) plan (start config)
        (λ b. start-Inv)
