-- ===== src/Switch/Steps.antt =====
-- Every access of one of the two threads keeps the invariant.
use concore2full.Base.{ℕ, ◌≡◌, ◌≢◌, ◌⊎◌, inl, inr, refl, arith, List}
use concore2full.Schedule.{run as run_plan, run-keeps}
use concore2full.Switch.{
  Thread, first, second, address, Shared, Pc, State, start, Action, work, revert, access, step,
}
use concore2full.Switch.Invariant.{PcOk, BothOk}

module _ (o g : ℕ) (ne : o ≢ g) (s : Shared) where
  access-own :
      (a : Action) (p q : Pc)
      → ((x : Thread) → (address x ≡ o) ⊎ (address x ≡ g))
      → PcOk o g p q s
      → PcOk g o q p s
      → BothOk o g p q s
      → PcOk o g (access o a p s).1 q (access o a p s).0
  unfolding access
  access-own work (Pc.run f) (Pc.run h) two po qo both = ground arith
  access-own (revert x) (Pc.run f) _ two po qo both = ground (arith, two x)
  access-own _ _ _ two po qo both = ground arith

  access-other :
      (a : Action) (p q : Pc)
      → PcOk o g p q s
      → PcOk g o q p s
      → BothOk o g p q s
      → PcOk g o q (access o a p s).1 (access o a p s).0
  unfolding access
  access-other work (Pc.run f) (Pc.run h) po qo both = ground arith
  access-other _ _ _ po qo both = ground arith

  access-both :
      (a : Action) (p q : Pc)
      → PcOk o g p q s
      → PcOk g o q p s
      → BothOk o g p q s
      → BothOk o g (access o a p s).1 q (access o a p s).0
  unfolding access
  access-both work (Pc.run f) (Pc.run h) po qo both = ground arith
  access-both _ _ _ po qo both = ground arith

pub swap-BothOk : (o g : ℕ) (p q : Pc) (s : Shared) → BothOk o g p q s → BothOk g o q p s
swap-BothOk o g (Pc.run f) (Pc.run h) s both = ground arith
swap-BothOk o g _ _ s both = ground arith

pub record Inv (s : State) : Type 0 where
  pub one : PcOk 0 1 (s.pc first) (s.pc second) s.shared
  pub two : PcOk 1 0 (s.pc second) (s.pc first) s.shared
  pub both : BothOk 0 1 (s.pc first) (s.pc second) s.shared

address-cases : (x : Thread) → (address x ≡ 0) ⊎ (address x ≡ 1)
address-cases first = inl refl
address-cases second = inr refl

address-cases' : (x : Thread) → (address x ≡ 1) ⊎ (address x ≡ 0)
address-cases' first = inr refl
address-cases' second = inl refl

pub step-Inv : (a : Thread × Action) (s : State) → Inv s → Inv (step a s)
unfolding step
step-Inv (first, a) s inv =
    let p = s.pc first in
    let q = s.pc second in
    record {
      one = access-own 0 1 (λ e. cc) s.shared a p q address-cases inv.one inv.two inv.both;
      two = access-other 0 1 (λ e. cc) s.shared a p q inv.one inv.two inv.both;
      both = access-both 0 1 (λ e. cc) s.shared a p q inv.one inv.two inv.both;
    }
step-Inv (second, a) s inv =
    let p = s.pc first in
    let q = s.pc second in
    let both = swap-BothOk 0 1 p q s.shared inv.both in
    record {
      one = access-other 1 0 (λ e. cc) s.shared a q p inv.two inv.one both;
      two = access-own 1 0 (λ e. cc) s.shared a q p address-cases' inv.two inv.one both;
      both =
          swap-BothOk 1 0 (access 1 a q s.shared).1 p (access 1 a q s.shared).0
            (access-both 1 0 (λ e. cc) s.shared a q p inv.two inv.one both);
    }

-- The states that the two threads can reach.
abbrev pub after : List (Thread × Action) → State
after plan = run_plan step plan start

pub start-Inv : Inv start
start-Inv = record {
  one = inl refl;
  two = inl refl;
  both = (refl, refl, λ e. cc, λ e. ((refl, refl), (refl, refl)), λ e. cc);
}

pub after-Inv : (plan : List (Thread × Action)) → Inv (after plan)
after-Inv plan = run-keeps step Inv step-Inv plan start start-Inv
