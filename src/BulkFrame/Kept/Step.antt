-- ===== src/BulkFrame/Kept/Step.antt =====
-- Every access keeps what `Live` says.
use concore2full.Base.{
  ℕ, ◌<◌, ◌≤◌, ◌≡◌, sym, ap, ◌∙◌, ◌≢◌, ◌⊎◌, inl, inr, false, Bool-cases, none, some, arith,
  update_same, ◌==◌, ltb,
}
use concore2full.BulkFrame.{State, access, step, is_null}
use concore2full.BulkFrame.Steps.{Bounded, step-Inv, access-count}
use concore2full.BulkFrame.Count.{access-taken, access-buried, access-gone, access-past}
use concore2full.BulkFrame.Live.{
  storing, Apart, LivePc, LiveSlot, LiveTask, live-own, live-others, live-Apart, live-Slot,
  live-Task, live-await, live-stored, live-started, LiveLast, live-owner, last-own, last-others,
}
use concore2full.BulkFrame.Kept.{
  Counts, Live, fits, within, room, counted, access-completions, beyond,
}

small_enough : (count k : ℕ) (s : State) → Live count s → Bounded (step k s)
unfolding step
small_enough count k s l =
    omega (arith, access-completions k s.frame (s.thread k), fits count s l, l.inv.small)

module _ (k : ℕ) (s : State) where
  stepped : (j : ℕ) → j ≢ k → (step k s).thread j ≡ s.thread j
  unfolding step
  stepped j ne = ground arith

  stepped_own : (step k s).thread k ≡ (access k (s.thread k) s.frame).1
  unfolding step
  stepped_own = ground arith

  pub stepped-count : (step k s).frame.count ≡ s.frame.count
  unfolding step
  stepped-count = (access-count k s.frame (s.thread k)).0

module _ (count k : ℕ) (s : State) (l : Live count s) (le : k ≤ s.frame.count) where
  step-counts : Counts (step k s).frame (step k s).thread
  unfolding step
  step-counts =
      let p = s.thread k in
      let f = s.frame in
      let o = l.inv.thread k in
      counted k (access k p f).1 f (access k p f).0 s.thread (access-count k f p).0 le
        (access-past k f l.inv.task p o (fits count s l))
        (access-buried k f l.inv.task p o (l.at k) (l.slots f.count) (within count s l))
        (access-gone k f l.inv.task p o (fits count s l))
        (access-taken k f l.inv.task p o (omega (arith, within count s l, l.inv.small))) l.counts

  step-at : (j : ℕ) → LivePc j ((step k s).thread j) (step k s).frame
  unfolding step
  step-at j =
      let p = s.thread k in
      let f = s.frame in
      let o = l.inv.thread k in
      elim (Bool-cases (j == k)) [
        | inl e ↦
            let is : j ≡ k = ground arith in
            rw is (
              ground (
                arith,
                live-own k f l.inv.small (fits count s l) (within count s l) p o (l.at k)
                    (room count s l k le) (l.slots f.started) (l.slots f.completions),
              ))
        | inr e ↦
            let ne : j ≢ k = ground arith in
            rw e (
              live-others k f l.inv.small (fits count s l) (within count s l) p (s.thread j) j ne o
                (l.inv.thread j) (l.apart k j (λ i. ne (sym i))) (l.at k) (l.at j)
                (room count s l k le))
      ]

  step-slots : (x : ℕ) → LiveSlot x (step k s).frame
  unfolding step
  step-slots x =
      live-Slot k s.frame l.inv.small (fits count s l) (within count s l) (s.thread k) x
        (l.inv.thread k) (l.at k) (l.slots x) (room count s l k le)

  Apart-kept :
      (j : ℕ)
      → j ≢ k
      → Apart ((step k s).thread k) (s.thread j) × Apart (s.thread j) ((step k s).thread k)
  Apart-kept j ne = rw (stepped_own k s) (
      live-Apart k s.frame l.inv.small (fits count s l) (within count s l) (s.thread k) (s.thread j)
        j (l.at j) (l.apart k j (λ e. ne (sym e))) (l.apart j k ne))

  step-Apart : (i j : ℕ) → i ≢ j → Apart ((step k s).thread i) ((step k s).thread j)
  step-Apart i j ne = elim (Bool-cases (i == k)) [
    | inl e ↦
        let is : i ≡ k = ground arith in
        let other : j ≢ k = λ h. ne (is ∙ sym h) in
        rw (is, stepped k s j other) (Apart-kept j other).0
    | inr e ↦
        let one : i ≢ k = ground arith in
        rw (stepped k s i one) (elim (Bool-cases (j == k)) [
          | inl h ↦ let is : j ≡ k = ground arith in rw is (Apart-kept i one).1
          | inr h ↦ let other : j ≢ k = ground arith in rw (stepped k s j other) (l.apart i j ne)
        ])
  ]

  tasks_own :
      (i : ℕ) → k ≡ s.frame.count → LiveTask i (access k (s.thread k) s.frame).1 (step k s).frame
  unfolding step
  tasks_own i is =
      let here : s.thread s.frame.count ≡ s.thread k = ap s.thread (sym is) in
      live-await k s.frame l.inv.small (fits count s l) (within count s l) (s.thread k) i is
        (l.inv.thread k) (rw here at (l.tasks i))

  tasks_other : (i : ℕ) → k ≢ s.frame.count → LiveTask i (s.thread s.frame.count) (step k s).frame
  unfolding step
  tasks_other i ne =
      live-Task k s.frame l.inv.small (fits count s l) (within count s l) (s.thread k)
        (s.thread s.frame.count) i ne (l.inv.thread k) (l.tasks i)

  await_at : (step k s).thread (step k s).frame.count ≡ (step k s).thread s.frame.count
  await_at = ap (step k s).thread (stepped-count k s)

  step-tasks : (i : ℕ) → LiveTask i ((step k s).thread (step k s).frame.count) (step k s).frame
  step-tasks i = rw await_at (elim (Bool-cases (s.frame.count == k)) [
    | inl e ↦
        let is : s.frame.count ≡ k = ground arith in
        rw (ap (step k s).thread is, stepped_own k s) (tasks_own i (sym is))
    | inr e ↦
        let ne : s.frame.count ≢ k = ground arith in
        rw (stepped k s s.frame.count ne) (tasks_other i (λ h. ne (sym h)))
  ])

  kept_stored :
      (x : ℕ)
      → (is_null (s.frame.threads x) ≡ false) ⊎ (storing (s.thread k) ≡ some x)
      → is_null ((step k s).frame.threads x) ≡ false
  unfolding step
  kept_stored x =
      live-stored k s.frame l.inv.small (fits count s l) (within count s l) (s.thread k) x

  newly :
      (x : ℕ)
      → x < (step k s).frame.started
      → (x < s.frame.started) ⊎ (storing (access k (s.thread k) s.frame).1 ≡ some x)
  unfolding step
  newly x = live-started k s.frame l.inv.small (fits count s l) (within count s l) (s.thread k) x

  step-occupied :
      (x : ℕ)
      → x < (step k s).frame.started
      → (is_null ((step k s).frame.threads x) ≡ false)
        ⊎ ((j : ℕ) × (storing ((step k s).thread j) ≡ some x))
  step-occupied x lt = elim (newly x lt) [
    | inr now ↦ inr (k, ap storing (stepped_own k s) ∙ now)
    | inl old ↦ elim (l.occupied x old) [
      | inl there ↦ inl (kept_stored x (inl there))
      | inr (j, e) ↦ elim (Bool-cases (j == k)) [
        | inl h ↦
            let is : j ≡ k = ground arith in
            inl (kept_stored x (inr (ap (λ i. storing (s.thread i)) (sym is) ∙ e)))
        | inr h ↦ inr (j, ap storing (stepped k s j (ground arith)) ∙ e)
      ]
    ]
  ]

  step-owner :
      (step k s).frame.count < (step k s).frame.completions
      → (step k s).frame.owner (step k s).frame.count ≢ none
  unfolding step
  step-owner =
      live-owner k s.frame l.inv.small (fits count s l) (within count s l) (s.thread k) l.owner

  step-last : (j : ℕ) → LiveLast j ((step k s).thread j) (step k s).frame
  unfolding step
  step-last j =
      let p = s.thread k in
      let f = s.frame in
      elim (Bool-cases (j == k)) [
        | inl e ↦
            let is : j ≡ k = ground arith in
            rw is (
              ground (
                arith,
                last-own k f l.inv.small (fits count s l) (within count s l) p (l.inv.thread k)
                    (l.at k) (l.slots f.count) (l.last k),
              ))
        | inr e ↦
            let ne : j ≢ k = ground arith in
            rw e (
              last-others k f l.inv.small (fits count s l) (within count s l) p (s.thread j) j ne
                (l.last j))
      ]

  own-Live : Live count (step k s)
  own-Live = record {
    inv = step-Inv count k s (λ _. l.inv) (small_enough count k s l);
    counts = step-counts;
    at = step-at;
    apart = step-Apart;
    slots = step-slots;
    tasks = step-tasks;
    owner = step-owner;
    last = step-last;
    occupied = step-occupied;
  }

-- A step that changes neither the frame nor the place of the thread changes nothing.
pub step_same :
    (k : ℕ) (s : State) → access k (s.thread k) s.frame ≡ (s.frame, s.thread k) → step k s ≡ s
unfolding step
step_same k s e = rw e (ap (λ g. record s { thread = g }) (update_same s.thread k))

pub step-Live : (count k : ℕ) (s : State) → Live count s → Live count (step k s)
step-Live count k s l = elim (Bool-cases (ltb s.frame.count k)) [
  | inr le ↦ own-Live count k s l (ground arith)
  | inl lt ↦
      let none_there =
        beyond k s.frame (s.thread k) (l.inv.thread k) (l.inv.task k) (ground arith) in
      rw (step_same k s none_there) l
]
