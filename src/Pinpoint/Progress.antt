-- ===== src/Pinpoint/Progress.antt =====
-- How far the two threads are from the ends of the scopes that their flows are leaving.
use concore2full.Base.{
  ℕ, ◌+◌, ◌<◌, ◌≤◌, ◌≡◌, refl, sym, ap, ◌∙◌, ◌≢◌, ◌⊎◌, inl, inr, Bool, true, Bool-cases, List, [],
  ◌∷◌, arith, ◌==◌, if◌then◌else◌,
}
use concore2full.Switch
use concore2full.Switch.{Thread, first, second, address, Pc, access, Shared}
use concore2full.Switch.Progress
use concore2full.Pinpoint.{State, body, end_scope, outside, step, advance}
use concore2full.Pinpoint.Flows.{Full}

-- Both threads go on: a flow that is through with a revert leaves the scope, another one makes an
-- inversion checkpoint.
unfoldable pub go_on : Thread → State → State
unfolding step outside
go_on x s = step (x, body Switch.Action.inversion_checkpoint) s

same_access :
    (me : ℕ) (p : Pc) (s : Shared)
    → ((f : ℕ) → p ≢ Pc.run f)
    → access me Switch.Action.work p s ≡ access me Switch.Action.inversion_checkpoint p s
unfolding access
same_access me (Pc.run f) s ne = absurd (ne f refl)
same_access me _ s ne = ground arith

-- The thread is at the end of a revert.
abbrev pub Ends : Thread → State → Type 0
Ends x s = (f : ℕ) × (s.switch.pc x ≡ Pc.run f) × (s.reverting f ≡ true)

-- The step of a thread ends a scope, or is one of Switch.
abbrev pub Goes : Thread → State → Type 0
Goes x s =
    ((e : Ends x s) × (go_on x s ≡ end_scope x e.0 (s.snapshots e.0) s))
    ⊎ ((¬ Ends x s) × (go_on x s ≡ record s { switch = Switch.Progress.go_on x s.switch }))

same_step :
    (x : Thread) (s : Switch.State)
    → ((f : ℕ) → s.pc x ≢ Pc.run f)
    → Switch.step (x, Switch.Action.work) s ≡ Switch.Progress.go_on x s
unfolding Switch.step
same_step x s ne = rw (same_access (address x) (s.pc x) s.shared ne) refl

advances_on :
    (x : Thread) (s : State)
    → ((f : ℕ) → s.switch.pc x ≢ Pc.run f)
    → advance x Switch.Action.work s ≡ record s { switch = Switch.Progress.go_on x s.switch }
advances_on x s ne = ap (λ w. record s { switch = w }) (same_step x s.switch ne)

two_moves_at : (x : Thread) (s : State) (p : Pc) → s.switch.pc x ≡ p → Goes x s
unfolding go_on step outside
two_moves_at x s (Pc.run f) e = elim (Bool-cases (s.reverting f)) [
  | inl r ↦ inl ((f, e, r), rw e (rw r refl))
  | inr r ↦ inr (λ (h, q, r'). ground (arith, sym e ∙ q), rw e (rw r refl))
]
two_moves_at x s (Pc.try_start f t) e = inr (
  λ (h, q, r). ground (arith, sym e ∙ q),
  rw e (advances_on x s (λ h q. ground (arith, sym e ∙ q))),
)
two_moves_at x s _ e = inr (
  λ (h, q, r). ground (arith, sym e ∙ q),
  rw e (advances_on x s (λ h q. ground (arith, sym e ∙ q))),
)

pub two_moves : (x : Thread) (s : State) → Goes x s
two_moves x s = two_moves_at x s (s.switch.pc x) refl

-- The scopes of the flow that a revert which is under way leaves open.
abbrev pub remaining_of : Bool → List Thread → List Thread
remaining_of true (t ∷ ts) = ts
remaining_of _ l = l

abbrev pub remaining : State → ℕ → List Thread
remaining s f = remaining_of (s.reverting f) (s.snapshots f)

abbrev one_if : Bool → ℕ
one_if b = if b then 1 else 0

abbrev pub measure : State → ℕ
measure s = Switch.Progress.measure s.switch + one_if (s.reverting 0) + one_if (s.reverting 1)

module _ (x : Thread) (s : State) (full : Full s) where
  end_scope-measure :
      (f : ℕ) (l : List Thread)
      → s.reverting f ≡ true
      → s.snapshots f ≡ l
      → measure (end_scope x f l s) < measure s
  end_scope-measure f [] r e =
      let (t, ts, e', g) = full.ok.reverts f r in ground (arith, sym e ∙ e')
  end_scope-measure f (t ∷ ts) r e = ground (arith, r, full.few f r)

  end_scope-remaining :
      (f h : ℕ) (l : List Thread)
      → s.reverting f ≡ true
      → s.snapshots f ≡ l
      → remaining (end_scope x f l s) h ≡ remaining s h
  end_scope-remaining f h [] r e = refl
  end_scope-remaining f h (t ∷ ts) r e = elim (Bool-cases (h == f)) [
    | inl own ↦ let same : h ≡ f = ground arith in rw same (rw r (rw e (ground arith)))
    | inr other ↦ rw other refl
  ]

  pub falls_at_end : Ends x s → measure (go_on x s) < measure s
  falls_at_end here = elim (two_moves x s) [
    | inl ((h, e, r), is) ↦ rw is (end_scope-measure h (s.snapshots h) r refl)
    | inr (away, is) ↦ absurd (away here)
  ]

  -- Where the step of Switch lowers its measure, so does the one here.
  pub falls_with_switch :
      Switch.Progress.measure (Switch.Progress.go_on x s.switch) < Switch.Progress.measure s.switch
      → measure (go_on x s) < measure s
  falls_with_switch lt = elim (two_moves x s) [
    | inl ((h, e, r), is) ↦ rw is (end_scope-measure h (s.snapshots h) r refl)
    | inr (away, is) ↦ rw is (omega arith)
  ]

  -- A step that does not lower the measure is one of Switch.
  pub go_on-falls :
      (measure (go_on x s) < measure s)
      ⊎ ((go_on x s ≡ record s { switch = Switch.Progress.go_on x s.switch })
          × (measure (go_on x s) ≤ measure s))
  go_on-falls = elim (two_moves x s) [
    | inl ((h, e, r), is) ↦ inl (rw is (end_scope-measure h (s.snapshots h) r refl))
    | inr (away, is) ↦
        inr (is, rw is (omega (arith, Switch.Progress.go_on-falls x s.switch full.ok.switch_ok)))
  ]

  pub go_on-remaining : (h : ℕ) → remaining (go_on x s) h ≡ remaining s h
  go_on-remaining h = elim (two_moves x s) [
    | inl ((f, e, r), is) ↦ rw is (end_scope-remaining f h (s.snapshots f) r refl)
    | inr (away, is) ↦ rw is refl
  ]

  -- A step that lowers the measure does it because it ends a scope or moves the switch on.
  pub why_falls :
      measure (go_on x s) < measure s
      → Ends x s
        ⊎ (Switch.Progress.measure (Switch.Progress.go_on x s.switch)
            < Switch.Progress.measure s.switch)
  why_falls lt = elim (two_moves x s) [
    | inl (here, is) ↦ inl here
    | inr (away, is) ↦ inr (let m = ap measure is in omega arith)
  ]
