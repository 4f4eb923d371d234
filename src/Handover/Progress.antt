-- ===== src/Handover/Progress.antt =====
-- Every call on the pool ends.
use concore2full.Base.{
  ℕ, ◌+◌, ◌-◌, ◌*◌, ◌<◌, ◌≤◌, ◌≡◌, refl, ap, ◌≢◌, inl, inr, Bool, true, false, Bool-cases, List, [],
  ◌∷◌, arith, ◌==◌, ltb, if◌then◌else◌,
}
use concore2full.Schedule.{run, run-keeps}
use concore2full.WorkLine.{Ptr, Mem}
use concore2full.WorkLine.Lines.{IsPool}
use concore2full.Handover.{
  Pool, Result, Pc, user, clear, pick, try_line, force_push, count_up, read_line, lock_line,
  pop_line, down_got, down_runs, fault, State, Choice, go, busy, enqueue, work, access, begin,
  extract_locked, step, start,
}
use concore2full.Handover.Invariant.{Inv}
use concore2full.Handover.Steps.{after, after-Inv, step-Inv}
use concore2full.Handover.Safety.{no_fault}

-- The loops over the lines are within their bounds.
abbrev Range : ℕ → Pc → Type 0
Range count (try_line t index i) = i ≤ count
Range count (pop_line hint i) = i ≤ 2 * count
Range count _ = Unit

-- How many steps the thread has left in its call.
abbrev left : ℕ → Pc → ℕ
left count (clear t) = 5 + count
left count (pick t) = 4 + count
left count (try_line t index i) = 3 + count - i
left count (force_push t index) = 2
left count count_up = 1
left count (read_line t enqueued) = 3
left count (lock_line t w enqueued) = 2
left count (pop_line hint i) = 2 + 2 * count - i
left count (down_got t) = 1
left count (down_runs t) = 1
left count _ = 0

module _ (count k : ℕ) (p : Pool) where
  begin-Range : (c : Choice) (r : Result) → Range count (begin k c r p).1
  unfolding begin
  begin-Range go r = tt
  begin-Range (enqueue t) r = ground arith
  begin-Range (work hint) r = ground arith
  begin-Range _ r = tt

  locked-left :
      (t : Ptr) (w : ℕ) (e : Bool)
      → (left count (extract_locked k t w e p).1 ≤ 1) × Range count (extract_locked k t w e p).1
  unfolding extract_locked
  locked-left t w e = ground arith

  access-Range : (c : Choice) (x : Pc) → Range count x → Range count (access count k c x p).1
  unfolding access
  access-Range c (user r) o = begin-Range c r
  access-Range c (lock_line t w e) o = ground (arith, locked-left t w e)
  access-Range c _ o = ground arith

  -- A turn in which the lock is free brings the thread nearer to the end of the call.
  access-left : (x : Pc) → Range count x → left count (access count k go x p).1 ≤ left count x - 1
  unfolding access begin
  access-left (user r) o = ground arith
  access-left (lock_line t w e) o = ground (arith, locked-left t w e)
  access-left _ o = ground arith

  access-busy : (x : Pc) → Range count x → left count (access count k busy x p).1 ≤ left count x
  unfolding access begin
  access-busy (user r) o = ground arith
  access-busy (lock_line t w e) o = ground (arith, locked-left t w e)
  access-busy _ o = ground arith

abbrev pub free_turn : Choice → ℕ
free_turn go = 1
free_turn _ = 0

-- How many turns the thread has in the plan in which the lock that it needs is free.
abbrev pub turns : ℕ → List (ℕ × Choice) → ℕ
turns k [] = 0
turns k ((j, c) ∷ rest) = (if j == k then free_turn c else 0) + turns k rest

abbrev pub is_call : Choice → Bool
is_call go = false
is_call busy = false
is_call _ = true

-- The thread makes no further call in the plan.
abbrev pub Patient : ℕ → List (ℕ × Choice) → Type 0
Patient k [] = Unit
Patient k ((j, c) ∷ rest) = (j ≡ k → is_call c ≡ false) × Patient k rest

module _ (count threads k : ℕ) (lt : k < threads) where
  access-turn :
      (c : Choice) (x : Pc) (p : Pool)
      → is_call c ≡ false
      → Range count x
      → left count (access count k c x p).1 ≤ left count x - free_turn c
  access-turn go x p n o = access-left count k p x o
  access-turn busy x p n o = omega (arith, access-busy count k p x o)
  access-turn _ x p n o = cc

  own-left :
      (c : Choice) (s : State)
      → is_call c ≡ false
      → Range count (s.pc k)
      → Range count ((step count threads (k, c) s).pc k)
        × (left count ((step count threads (k, c) s).pc k) ≤ left count (s.pc k) - free_turn c)
  unfolding step
  own-left c s n o =
      let on : ltb k threads ≡ true = ground arith in
      let self : (k == k) ≡ true = ground arith in
      rw (on, self) (access-Range count k s.pool c (s.pc k) o, access-turn c (s.pc k) s.pool n o)

  other_pc : (j : ℕ) (c : Choice) (s : State) → j ≢ k → (step count threads (j, c) s).pc k ≡ s.pc k
  unfolding step
  other_pc j c s ne = ground arith

  run-left :
      (plan : List (ℕ × Choice)) (s : State)
      → Patient k plan
      → Range count (s.pc k)
      → Range count ((run (step count threads) plan s).pc k)
        × (left count ((run (step count threads) plan s).pc k) ≤ left count (s.pc k) - turns k plan)
  unfolding run
  run-left [] s w o = (o, omega arith)
  run-left ((j, c) ∷ rest) s (n, w) o = elim (Bool-cases (j == k)) [
    | inl e ↦
        let is : j ≡ k = ground arith in
        let (o', l) = own-left c s (n is) o in
        let (o'', l') = run-left rest (step count threads (k, c) s) w o' in
        rw (e, is) (o'', omega (arith, l, l'))
    | inr e ↦
        let same = other_pc j c s (ground arith) in
        let (o', l) = run-left rest (step count threads (j, c) s) w (rw same o) in
        rw e (o', omega (arith, l, ap (left count) same))
  ]

  user_of : (x : Pc) → Range count x → left count x ≡ 0 → x ≢ fault → (r : Result) × (x ≡ user r)
  user_of (user r) o z ne = (r, refl)
  user_of fault o z ne = absurd (ne refl)
  user_of count_up o z ne = absurd (omega (arith, z))
  user_of (try_line t index i) o z ne = absurd (omega (arith, z, o))
  user_of (pop_line hint i) o z ne = absurd (omega (arith, z, o))
  user_of _ o z ne = absurd (omega (arith, z))

  left_le : (x : Pc) → left count x ≤ 5 + 2 * count
  left_le (user r) = ground arith
  left_le _ = ground arith

module _ (count threads : ℕ) where
  abbrev AllRange : State → Type 0
  AllRange s = (j : ℕ) → Range count (s.pc j)

  step-AllRange : (a : ℕ × Choice) (s : State) → AllRange s → AllRange (step count threads a s)
  unfolding step
  step-AllRange (k, c) s o j = elim (Bool-cases (ltb k threads)) [
    | inr off ↦ rw off (o j)
    | inl on ↦ rw on (elim (Bool-cases (j == k)) [
      | inl e ↦
          let is : j ≡ k = ground arith in rw (e, is) (access-Range count k s.pool c (s.pc k) (o k))
      | inr e ↦ rw e (o j)
    ])
  ]

  -- Every call of a thread on the pool ends, whatever all threads have done before and the others do
  -- meanwhile, once the thread has had 2 * count + 5 turns in which the lock that it needs is free;
  -- `count` is the number of lines.
  pub call-Done :
      (m : Mem) (plan rest : List (ℕ × Choice)) (k : ℕ)
      → 0 < count
      → IsPool m (λ _. [])
      → k < threads
      → Patient k rest
      → 5 + 2 * count ≤ turns k rest
      → (r : Result) × ((run (step count threads) rest (after count threads m plan)).pc k ≡ user r)
  call-Done m plan rest k some_line is lt patient enough =
      let s = after count threads m plan in
      let inv = after-Inv count threads m plan some_line is in
      let o : Range count (s.pc k) =
        run-keeps (step count threads) AllRange step-AllRange plan (start m) (λ j. tt) k in
      let e = run (step count threads) rest s in
      let inv' =
        run-keeps (step count threads) (Inv count threads) (step-Inv count threads some_line) rest s
          inv in
      let (o', l) = run-left count threads k lt rest s patient o in
      user_of count threads k lt (e.pc k) o'
        (omega (arith, l, enough, left_le count threads k lt (s.pc k)))
        (no_fault count threads e inv' k (e.pc k) refl)
