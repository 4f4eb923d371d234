-- ===== src/Pinpoint/Safety.antt =====
-- Where a scope with a snapshot ends.
use concore2full.Base.{
  ℕ, ◌≡◌, refl, sym, ap, ◌∙◌, ◌≢◌, inl, inr, Bool, true, false, Bool-cases, some, List, [], ◌∷◌,
  arith, ◌==◌,
}
use concore2full.Schedule.{run, run-keeps}
use concore2full.Switch
use concore2full.Switch.{Thread, first, second, address, Pc}
use concore2full.Switch.Steps.{Inv, step-Inv, start-Inv}
use concore2full.Switch.Safety.{run-lands, step-goal, revert-goal}
use concore2full.Pinpoint.{
  State, Act, snapshot, body, leave, advance, end_scope, revert_first, outside, at, step, start,
}

-- Each scope has ended on the thread of its snapshot.
abbrev pub AllBack : List (Thread × Thread) → Type 0
AllBack [] = Unit
AllBack ((x, t) ∷ more) = (x ≡ t) × AllBack more

-- The flow is on its way to the thread of its innermost snapshot.
abbrev pub Reverts : ℕ → State → Type 0
Reverts f s =
    (t : Thread) × (ts : List Thread) × (s.snapshots f ≡ t ∷ ts)
    × (s.switch.shared.goal f ≡ some (address t))

pub record Ok (s : State) : Type 0 where
  pub switch_ok : Inv s.switch
  pub reverts : (f : ℕ) → s.reverting f ≡ true → Reverts f s
  back : AllBack s.ended

address_of : (x t : Thread) → address x ≡ address t → x ≡ t
address_of first first e = refl
address_of second second e = refl
address_of _ _ e = cc

other_flow : (f h : ℕ) → (h == f) ≡ false → Pc.run f ≢ Pc.run h
other_flow f h e is = ground arith

module _ (x : Thread) (s : State) (ok : Ok s) where
  -- An access that leaves the goals of the flows that revert.
  advances :
      (a : Switch.Action)
      → ((f : ℕ) → s.reverting f ≡ true → s.switch.pc x ≢ Pc.run f)
      → Ok (advance x a s)
  advances a ne = record {
    switch_ok = step-Inv (x, a) s.switch ok.switch_ok;
    reverts = λ f r.
        let (t, ts, e, goal) = ok.reverts f r in
        (t, ts, e, step-goal x a s.switch f (ne f r) ∙ goal);
    back = ok.back;
  }

  ends :
      (f : ℕ) (l : List Thread)
      → s.switch.pc x ≡ Pc.run f
      → s.reverting f ≡ true
      → s.snapshots f ≡ l
      → Ok (end_scope x f l s)
  ends f [] e r is = ok
  ends f (t ∷ ts) e r is =
      let (t', ts', is', goal) = ok.reverts f r in
      let same : t ≡ t' = ground (arith, sym is ∙ is') in
      let lands = run-lands s.switch x f (address t') ok.switch_ok e goal in
      record {
        switch_ok = ok.switch_ok;
        reverts = λ h r'. elim (Bool-cases (h == f)) [
          | inl own ↦ absurd (ground arith)
          | inr other ↦ rw other (ok.reverts h (rw other at r'))
        ];
        back = (address_of x t (sym lands ∙ ap address (sym same)), ok.back);
      }

  leaves :
      (f : ℕ) (l : List Thread)
      → s.switch.pc x ≡ Pc.run f
      → s.reverting f ≡ false
      → s.snapshots f ≡ l
      → Ok (revert_first x f l s)
  leaves f [] e r is = ok
  leaves f (t ∷ ts) e r is = record {
    switch_ok = step-Inv (x, Switch.Action.revert t) s.switch ok.switch_ok;
    reverts = λ h r'. elim (Bool-cases (h == f)) [
      | inl own ↦
          let same : h ≡ f = ground arith in rw same (t, ts, is, revert-goal x t s.switch f e)
      | inr other ↦
          let (t', ts', is', goal) = ok.reverts h (rw other at r') in
          (
            t',
            ts',
            is',
            step-goal x (Switch.Action.revert t) s.switch h (λ q. other_flow f h other (sym e ∙ q))
                ∙ goal,
          )
    ];
    back = ok.back;
  }

  quiet_flow :
      (f : ℕ)
      → s.switch.pc x ≡ Pc.run f
      → s.reverting f ≡ false
      → (h : ℕ) → s.reverting h ≡ true
      → s.switch.pc x ≢ Pc.run h
  quiet_flow f e r h r' q = ground (arith, sym e ∙ q)

  outside-Ok :
      (f : ℕ) (a : Act) (b : Bool)
      → s.switch.pc x ≡ Pc.run f
      → s.reverting f ≡ b
      → Ok (outside x f a b s)
  unfolding outside
  outside-Ok f a true e r = ends f (s.snapshots f) e r refl
  outside-Ok f snapshot false e r = record {
    switch_ok = ok.switch_ok;
    reverts = λ h r'. elim (Bool-cases (h == f)) [
      | inl own ↦ absurd (ground arith)
      | inr other ↦ rw other (ok.reverts h r')
    ];
    back = ok.back;
  }
  outside-Ok f (body a) false e r = advances a (quiet_flow f e r)
  outside-Ok f leave false e r = leaves f (s.snapshots f) e r refl

  at-Ok : (a : Act) (p : Pc) → s.switch.pc x ≡ p → Ok (at x a p s)
  at-Ok a (Pc.run f) e = outside-Ok f a (s.reverting f) e refl
  at-Ok a (Pc.try_start f t) e = advances Switch.Action.work (λ h r q. ground (arith, sym e ∙ q))
  at-Ok a _ e = advances Switch.Action.work (λ h r q. ground (arith, sym e ∙ q))

pub step-Ok : (a : Thread × Act) (s : State) → Ok s → Ok (step a s)
unfolding step
step-Ok (x, a) s ok = at-Ok x s ok a (s.switch.pc x) refl

pub start-Ok : Ok start
start-Ok = record { switch_ok = start-Inv; reverts = λ f e. cc; back = tt }

-- The states that the two threads can reach.
abbrev pub after : List (Thread × Act) → State
after plan = run step plan start

-- `sync_execute`, `thread_main` and the end of the global pool come out on the thread on which they
-- took their snapshot, also where they are nested, whatever switches their flow and the other one
-- take part in meanwhile.
pub sync_execute-lands : (plan : List (Thread × Act)) → AllBack (after plan).ended
sync_execute-lands plan =
    (run-keeps step Ok step-Ok plan start
      (record { switch_ok = start-Inv; reverts = λ f e. cc; back = tt })).back
