-- ===== src/BulkFrame/Steps.antt =====
-- Every access keeps the invariant, while `completed_tasks_` does not wrap around.
use concore2full.Base.{
  ap, ◌∙◌, ℕ, ◌+◌, ◌%◌, ◌≤◌, ◌<◌, ◌^◌, ◌≡◌, refl, ◌≢◌, ◌⊎◌, inl, inr, Bool-cases, arith, List,
  update, ◌==◌,
}
use concore2full.Schedule.{run}
use concore2full.BulkFrame.{Frame, Pc, idle, State, spawn, access, step}
use concore2full.BulkFrame.Invariant.{TaskOk, SlotOk, PcOk, Inv}
use concore2full.Sum.{sum, sum-update, sum_le, sum_full, sum_zero}

-- An access settles nothing, or one task, or `await`.
Settles : Frame → Frame → Type 0
Settles f g =
    ((g.settled ≡ f.settled) × (g.finalized ≡ f.finalized))
    ⊎ ((i : ℕ) × (i ≤ f.count)
        × (g.settled ≡ update f.settled i (f.settled i + 1))
        × (g.finalized ≡ (f.finalized + 1) % 2 ^ 32))

abbrev pub Bounded : State → Type 0
Bounded s = s.frame.completions ≤ 2 ^ 32

module _ (k : ℕ) (f : Frame) where
  access-own :
      (p : Pc)
      → (access k p f).0.completions ≤ 2 ^ 32
      → PcOk k p f
      → TaskOk k f
      → ((i : ℕ) → TaskOk i f)
      → ((x : ℕ) → SlotOk x f)
      → PcOk k (access k p f).1 (access k p f).0
  unfolding access
  access-own idle b p t ts sl = ground arith
  access-own (Pc.try_task i) b p t ts sl = ground (arith, ts i)
  access-own (Pc.read_slot own index) b p t ts sl = ground (arith, sl index)
  access-own _ b p t ts sl = ground arith

  access-Task : (p : Pc) (i : ℕ) → PcOk k p f → TaskOk i f → TaskOk i (access k p f).0
  unfolding access
  access-Task idle i p t = ground arith
  access-Task _ i p t = ground arith

  access-Slot : (p : Pc) (x : ℕ) → PcOk k p f → SlotOk x f → SlotOk x (access k p f).0
  unfolding access
  access-Slot idle x p t = ground arith
  access-Slot _ x p t = ground arith

  access-others :
      (p q : Pc) (j : ℕ)
      → j ≢ k
      → (access k p f).0.completions ≤ 2 ^ 32
      → ((i : ℕ) → f.finalized ≡ f.count + 1 → i ≤ f.count → f.settled i ≡ 1)
      → PcOk k p f
      → PcOk j q f
      → PcOk j q (access k p f).0
  unfolding access
  access-others idle idle j ne b full p q = ground arith
  access-others (Pc.finalize own index next) (Pc.jump c) j ne b full p q = ground (arith, full k)
  access-others (Pc.in_finalize i) (Pc.jump c) j ne b full p q = ground (arith, full i)
  access-others _ _ j ne b full p q = ground arith

  access-Settles : (p : Pc) → PcOk k p f → Settles f (access k p f).0
  unfolding access Settles
  access-Settles idle p = inl (ground arith)
  access-Settles (Pc.finalize own index next) p = inr (k, ground arith, refl, refl)
  access-Settles (Pc.in_finalize i) p = inr (i, ground arith, refl, refl)
  access-Settles _ p = inl (ground arith)

  pub access-count :
      (p : Pc) → ((access k p f).0.count ≡ f.count) × (f.completions ≤ (access k p f).0.completions)
  unfolding access
  access-count idle = ground arith
  access-count _ = ground arith

-- What was settled is summed up in `finalized_tasks_`.
Settles-sum :
    (f g : Frame)
    → Settles f g
    → f.count < 2 ^ 31
    → g.count ≡ f.count
    → ((i : ℕ) → g.settled i ≤ 1)
    → f.finalized ≡ sum (f.count + 1) f.settled
    → g.finalized ≡ sum (g.count + 1) g.settled
unfolding Settles
Settles-sum f g (inl (same, kept)) small e le h = rw (e, same, kept) h
Settles-sum f g (inr (i, lt, more, inc)) small e le h = rw e (
    omega (
      arith,
      h,
      inc,
      sum-update (f.count + 1) i (f.settled i + 1) f.settled (omega arith),
      sum_le (f.count + 1) g.settled le,
      ap (sum (f.count + 1)) more,
    ))

pub full :
    (f : Frame) (i : ℕ)
    → f.finalized ≡ sum (f.count + 1) f.settled
    → ((j : ℕ) → f.settled j ≤ 1)
    → f.finalized ≡ f.count + 1
    → i ≤ f.count
    → f.settled i ≡ 1
full f i h le e lt = sum_full (f.count + 1) i f.settled le (omega (arith, h, e)) (omega arith)

pub step-Inv :
    (count k : ℕ) (s : State)
    → (Bounded s → Inv count s)
    → Bounded (step k s)
    → Inv count (step k s)
unfolding step
step-Inv count k s at b =
    let p = s.thread k in
    let f = s.frame in
    let g = (access k p f).0 in
    let (same, more) = access-count k f p in
    let inv = at (omega (arith, more, b)) in
    let tasks = λ (i : ℕ). access-Task k f p i (inv.thread k) (inv.task i) in
    record {
      task = tasks;
      slot = λ x. access-Slot k f p x (inv.thread k) (inv.slot x);
      finalized =
          Settles-sum f g (access-Settles k f p (inv.thread k)) inv.small same (λ i. (tasks i).0)
            inv.finalized;
      same = same ∙ inv.same;
      small = omega (arith, same, inv.small);
      thread = λ j. elim (Bool-cases (j == k)) [
        | inl e ↦
            let is : j ≡ k = ground arith in
            rw is (ground (arith, access-own k f p b (inv.thread k) (inv.task k) inv.task inv.slot))
        | inr e ↦ rw e (
            access-others k f p (s.thread j) j (ground arith) b
              (λ i. full f i inv.finalized (λ n. (inv.task n).0)) (inv.thread k) (inv.thread j))
      ];
    }

-- The states that the threads can reach after `spawn`.
abbrev pub after : ℕ → List ℕ → State
after count plan = run step plan (spawn count)

spawn-thread : (count k : ℕ) → PcOk k ((spawn count).thread k) (spawn count).frame
unfolding spawn
spawn-thread count k = ground arith

pub spawn-Inv : (count : ℕ) → count < 2 ^ 31 → Inv count (spawn count)
unfolding spawn
spawn-Inv count lt = record {
  thread = λ k. spawn-thread count k;
  task = λ i. ground arith;
  slot = λ x e. cc;
  finalized = omega (arith, sum_zero (count + 1));
  same = refl;
  small = lt;
}
