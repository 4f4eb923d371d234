-- ===== src/Pinpoint/Returns.antt =====
-- That a flow which reverts a snapshot gets to the end of the scope.
use concore2full.Base.{
  ℕ, ◌<◌, ◌≤◌, ◌≡◌, refl, ap, ◌∙◌, ◌≢◌, ◌⊎◌, inl, inr, true, false, Bool-cases, Option, none, some,
  List, arith,
}
use concore2full.Schedule.{run, run-keeps, Fair, circles-Done}
use concore2full.Switch
use concore2full.Switch.{Thread, first, second, address, Pc, Shared}
use concore2full.Switch.Invariant.{PcOk}
use concore2full.Switch.Safety.{flow_of, Complete}
use concore2full.Switch.Progress
use concore2full.Pinpoint.{State, Act, body}
use concore2full.Pinpoint.Safety.{after}
use concore2full.Pinpoint.Flows.{Full, step-Full, after-Full}
use concore2full.Pinpoint.Progress.{
  go_on, Ends, two_moves, measure, remaining, falls_at_end, falls_with_switch, go_on-falls,
  go_on-remaining, why_falls,
}

-- A thread that is outside of a switch, with its flow, stands at one of two places.
at_rest :
    (p : Pc) (c : Option ℕ)
    → Switch.Progress.outside p ≡ true
    → (p ≡ Pc.run (flow_of p c)) ⊎ (p ≡ Pc.check (flow_of p c) none)
at_rest (Pc.run f) c e = inl refl
at_rest (Pc.check f none) c e = inr refl
at_rest (Pc.check f (some t)) c e = absurd (ground arith)
at_rest _ c e = absurd (ground arith)

-- A flow that is about to look for a request from outside has no goal, and so does not revert.
no_check :
    (o g f t : ℕ) (p q : Pc) (s : Shared) → p ≡ Pc.check f none → PcOk o g p q s → s.goal f ≢ some t
no_check o g f t p q s e po goal =
    let none_there : PcOk o g (Pc.check f none) q s = rw e at po in ground (arith, none_there)

not_checking :
    (x : Thread) (s : State) (f : ℕ)
    → Full s
    → s.reverting f ≡ true
    → s.switch.pc x ≢ Pc.check f none
not_checking first s f full r e =
    let (t, ts, is, goal) = full.ok.reverts f r in
    let inv = full.ok.switch_ok in
    no_check 0 1 f (address t) (s.switch.pc first) (s.switch.pc second) s.switch.shared e inv.one
      goal
not_checking second s f full r e =
    let (t, ts, is, goal) = full.ok.reverts f r in
    let inv = full.ok.switch_ok in
    no_check 1 0 f (address t) (s.switch.pc second) (s.switch.pc first) s.switch.shared e inv.two
      goal

at_rest-Ends :
    (x : Thread) (s : State) (f : ℕ) (c : Option ℕ)
    → Full s
    → s.reverting f ≡ true
    → Switch.Progress.outside (s.switch.pc x) ≡ true
    → flow_of (s.switch.pc x) c ≡ f
    → Ends x s
at_rest-Ends x s f c full r out own = elim (at_rest (s.switch.pc x) c out) [
  | inl e ↦ (f, e ∙ ap Pc.run own, r)
  | inr e ↦ absurd (not_checking x s f full r (e ∙ ap (λ h. Pc.check h none) own))
]

-- Each of the two flows is on one of the threads.
flow_placed :
    (s : Switch.State) (f : ℕ)
    → Complete s
    → f < 2
    → (flow_of (s.pc first) (s.shared.threads.info 0).switching_to ≡ f)
      ⊎ (flow_of (s.pc second) (s.shared.threads.info 1).switching_to ≡ f)
unfolding Complete
flow_placed s f c lt = ground (arith, c, lt)

reverts-Ends :
    (s : State) (f : ℕ)
    → Full s
    → s.reverting f ≡ true
    → Switch.Progress.outside (s.switch.pc first) ≡ true
    → Switch.Progress.outside (s.switch.pc second) ≡ true
    → (x : Thread) × Ends x s
reverts-Ends s f full r p q = elim (flow_placed s.switch f full.complete (full.few f r)) [
  | inl own ↦
      (first, at_rest-Ends first s f (s.switch.shared.threads.info 0).switching_to full r p own)
  | inr own ↦
      (second, at_rest-Ends second s f (s.switch.shared.threads.info 1).switching_to full r q own)
]

abbrev Done : State → Type 0
Done s = (f : ℕ) → s.reverting f ≡ false

live : (s : State) → Full s → Done s ⊎ ((x : Thread) × (measure (go_on x s) < measure s))
live s full = elim (Switch.Progress.go_on_lives s.switch full.ok.switch_ok) [
  | inr (x, lt) ↦ inr (x, falls_with_switch x s full lt)
  | inl (inv, p, q) ↦ elim (Bool-cases (s.reverting 0)) [
    | inl r ↦ let (x, e) = reverts-Ends s 0 full r p q in inr (x, falls_at_end x s full e)
    | inr r0 ↦ elim (Bool-cases (s.reverting 1)) [
      | inl r ↦ let (x, e) = reverts-Ends s 1 full r p q in inr (x, falls_at_end x s full e)
      | inr r1 ↦ inl (λ f. elim (Bool-cases (s.reverting f)) [
        | inr r ↦ r
        | inl r ↦ absurd (ground (arith, full.few f r))
      ])
    ]
  ]
]

go_on-Full : (x : Thread) (s : State) → Full s → Full (go_on x s)
unfolding go_on
go_on-Full x s full = step-Full (x, body Switch.Action.inversion_checkpoint) s full

other_pc : (a b : Thread) (s : Switch.State) → (a ≡ b) ⊎ ((Switch.Progress.go_on b s).pc a ≡ s.pc a)
unfolding Switch.step
other_pc first first s = inl refl
other_pc second second s = inl refl
other_pc first second s = inr refl
other_pc second first s = inr refl

-- A thread that can lower the measure still can after a step of the other one that does not.
persists :
    (a b : Thread) (s : State)
    → Full s
    → measure (go_on a s) < measure s
    → measure (go_on b s) ≡ measure s
    → (a ≡ b) ⊎ (measure (go_on a (go_on b s)) < measure (go_on b s))
persists a b s full lt e = elim (go_on-falls b s full) [
  | inl lower ↦ absurd (omega arith)
  | inr (is, _) ↦ elim (why_falls a s full lt) [
    | inl (f, at_f, r) ↦ elim (other_pc a b s.switch) [
      | inl same ↦ inl same
      | inr stays ↦
          inr (falls_at_end a (go_on b s) (go_on-Full b s full) (f, rw is (stays ∙ at_f), rw is r))
    ]
    | inr moves ↦
        let level = ap measure is in
        elim (Switch.Progress.go_on_persists a b s.switch full.ok.switch_ok moves (omega arith)) [
          | inl same ↦ inl same
          | inr still ↦ inr (falls_with_switch a (go_on b s) (go_on-Full b s full) (rw is still))
        ]
  ]
]

at_most : (x : Thread) (s : State) → Full s → measure (go_on x s) ≤ measure s
at_most x s full = elim (go_on-falls x s full) [ inl lt ↦ omega arith | inr (_, le) ↦ le ]

still_Done : (x : Thread) (s : State) → Done s → Done (go_on x s)
still_Done x s done f = elim (two_moves x s) [
  | inl ((h, _, r), is) ↦ absurd (ground (arith, done h))
  | inr (_, is) ↦ rw is (done f)
]

measure_le : (s : State) → measure s ≤ 128
measure_le s = ground (arith, Switch.Progress.measure_le s.switch)

module _ (s0 : State) where
  abbrev Same : State → Type 0
  Same s = (f : ℕ) → remaining s f ≡ remaining s0 f

  go_on-Same : (x : Thread) (s : State) → Full s × Same s → Full (go_on x s) × Same (go_on x s)
  go_on-Same x s (full, same) = (go_on-Full x s full, λ f. go_on-remaining x s full f ∙ same f)

-- From every reachable state, under every schedule with 128 windows in which both threads have a
-- turn, each flow that is in the destructor of a scope gets to its end, and leaves that scope and no
-- other one, if the flows that are not make inversion checkpoints and nothing else.
pub sync_execute-returns :
    (plan : List (Thread × Act)) (rest : List Thread) (f : ℕ)
    → Fair 128 rest
    → let s = after plan in
      let s' = run go_on rest s in (s'.reverting f ≡ false) × (s'.snapshots f ≡ remaining s f)
sync_execute-returns plan rest f fair =
    let s = after plan in
    let full = after-Full plan in
    let done : Done (run go_on rest s) =
      circles-Done go_on Full go_on-Full measure Done at_most live persists still_Done fair s full
        (measure_le s) in
    let (_, same) =
      run-keeps go_on (λ u. Full u × Same s u) (go_on-Same s) rest s (full, λ f. refl) in
    (done f, let e = same f in ground (arith, done f, e))
