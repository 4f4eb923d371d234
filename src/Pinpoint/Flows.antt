-- ===== src/Pinpoint/Flows.antt =====
-- Which flows are in a revert.
use concore2full.Base.{
  ℕ, ◌<◌, ◌≡◌, refl, ap, ◌∙◌, ◌⊎◌, inl, inr, Bool, true, false, Bool-cases, List, [], ◌∷◌, arith,
  ◌==◌,
}
use concore2full.Schedule.{run-keeps}
use concore2full.Switch
use concore2full.Switch.{Thread, first, second, Pc}
use concore2full.Switch.Safety.{flow_of, Complete, step-Complete}
use concore2full.Pinpoint.{
  State, Act, snapshot, body, leave, end_scope, revert_first, outside, at, step, start,
}
use concore2full.Pinpoint.Safety.{Ok, step-Ok, start-Ok, after}

-- `Ok`, and the flows are the two of the threads.
pub record Full (s : State) : Type 0 where
  pub ok : Ok s
  pub complete : Complete s.switch
  pub few : (f : ℕ) → s.reverting f ≡ true → f < 2

run_few : (x : Thread) (s : Switch.State) (f : ℕ) → Complete s → s.pc x ≡ Pc.run f → f < 2
unfolding Complete
run_few first s f c e =
    ground (arith, c, e, ap (λ p. flow_of p (s.shared.threads.info 0).switching_to) e)
run_few second s f c e =
    ground (arith, c, e, ap (λ p. flow_of p (s.shared.threads.info 1).switching_to) e)

-- What a step does to the switch and to who reverts.
abbrev Effect : Thread → State → State → Type 0
Effect x s s' =
    ((s'.switch ≡ s.switch) ⊎ ((a : Switch.Action) × (s'.switch ≡ Switch.step (x, a) s.switch)))
    × ((f : ℕ) → s'.reverting f ≡ true → (s.reverting f ≡ true) ⊎ (s.switch.pc x ≡ Pc.run f))

module _ (x : Thread) (s : State) where
  end_effect : (f : ℕ) (l : List Thread) → Effect x s (end_scope x f l s)
  end_effect f [] = (inl refl, λ h r. inl r)
  end_effect f (t ∷ ts) = (inl refl, λ h r. inl (ground arith))

  revert_effect :
      (f : ℕ) (l : List Thread) → s.switch.pc x ≡ Pc.run f → Effect x s (revert_first x f l s)
  revert_effect f [] e = (inl refl, λ h r. inl r)
  revert_effect f (t ∷ ts) e = (
    inr (Switch.Action.revert t, refl),
    λ h r. elim (Bool-cases (h == f)) [
      | inl own ↦ let same : f ≡ h = ground arith in inr (e ∙ ap Pc.run same)
      | inr other ↦ inl (rw other at r)
    ],
  )

  outside_effect :
      (f : ℕ) (a : Act) (b : Bool) → s.switch.pc x ≡ Pc.run f → Effect x s (outside x f a b s)
  unfolding outside
  outside_effect f a true e = end_effect f (s.snapshots f)
  outside_effect f snapshot false e = (inl refl, λ h r. inl r)
  outside_effect f (body a) false e = (inr (a, refl), λ h r. inl r)
  outside_effect f leave false e = revert_effect f (s.snapshots f) e

  at_effect : (a : Act) (p : Pc) → s.switch.pc x ≡ p → Effect x s (at x a p s)
  at_effect a (Pc.run f) e = outside_effect f a (s.reverting f) e
  at_effect a (Pc.try_start f t) e = (inr (Switch.Action.work, refl), λ h r. inl r)
  at_effect a _ e = (inr (Switch.Action.work, refl), λ h r. inl r)

pub step-Full : (a : Thread × Act) (s : State) → Full s → Full (step a s)
unfolding step
step-Full (x, a) s full =
    let (sw, rev) = at_effect x s a (s.switch.pc x) refl in
    record {
      ok = step-Ok (x, a) s full.ok;
      complete = elim sw [
        | inl e ↦ rw e full.complete
        | inr (b, e) ↦ rw e (step-Complete (x, b) s.switch (full.ok.switch_ok, full.complete)).1
      ];
      few = λ f r. elim (rev f r) [
        | inl before ↦ full.few f before
        | inr e ↦ run_few x s.switch f full.complete e
      ];
    }

pub after-Full : (plan : List (Thread × Act)) → Full (after plan)
unfolding Complete
after-Full plan =
    run-keeps step Full step-Full plan start
      (record { ok = start-Ok; complete = inl refl; few = λ f e. cc })
