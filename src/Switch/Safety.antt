-- ===== src/Switch/Safety.antt =====
-- What the two threads of a switch promise in every interleaving.
use concore2full.Base.{
  ℕ, ◌≡◌, ◌≢◌, ◌⊎◌, inl, refl, Bool, true, false, Option, none, some, List, arith, if◌then◌else◌,
}
use concore2full.Schedule.{run-keeps}
use concore2full.ThreadInfo.{try_start_switch, end_switch, wake_up}
use concore2full.Switch.{
  Thread, first, second, address, after_request, Shared, Pc, State, start, Action, work, access,
  step,
}
use concore2full.Switch.Invariant.{PcOk, BothOk}
use concore2full.Switch.Steps.{Inv, step-Inv, start-Inv, swap-BothOk, after, after-Inv}

-- The flow that a thread has: the one that it runs or is about to run, or, between its request and
-- the answer, the one that it has suspended.
abbrev pub flow_of : Pc → Option ℕ → ℕ
flow_of (Pc.run f) c = f
flow_of (Pc.try_start f t) c = f
flow_of (Pc.check f t) c = f
flow_of (Pc.compare_target f t) c = f
flow_of (Pc.started f t) c = f
flow_of (Pc.store_to f t) c = f
flow_of (Pc.store_request f t) c = f
flow_of (Pc.wake f t) none = f
flow_of (Pc.wake f t) (some h) = h
flow_of (Pc.wait f t) none = f
flow_of (Pc.wait f t) (some h) = h
flow_of (Pc.finish f t r) c = r
flow_of (Pc.set_done f r) c = r
flow_of (Pc.request f o) c = f
flow_of (Pc.clear f o n) c = f
flow_of (Pc.publish f o n) c = f
flow_of (Pc.jump r) c = r
flow_of (Pc.wait_done f t) c = f

abbrev pub is_publish : Pc → Bool
is_publish (Pc.publish f o n) = true
is_publish _ = false

-- The flows of both threads: all that an observer of the switch sees.
abbrev pub view : State → ℕ × ℕ
view s = (
  flow_of (s.pc first) (s.shared.threads.info 0).switching_to,
  flow_of (s.pc second) (s.shared.threads.info 1).switching_to,
)

abbrev pub exchanged : ℕ × ℕ → ℕ × ℕ
exchanged v = (v.1, v.0)

access-view :
    (o g : ℕ) (a : Action) (p q : Pc) (s : Shared)
    → o ≢ g
    → PcOk o g p q s
    → PcOk g o q p s
    → BothOk o g p q s
    → let r = access o a p s in
      let v = flow_of p (s.threads.info o).switching_to in
      let w = flow_of q (s.threads.info g).switching_to in
      (flow_of r.1 (r.0.threads.info o).switching_to ≡ (if is_publish p then w else v))
      × (flow_of q (r.0.threads.info g).switching_to ≡ (if is_publish p then v else w))
unfolding access try_start_switch end_switch wake_up
access-view o g work (Pc.run f) (Pc.run h) s ne po qo both = ground arith
access-view o g _ _ _ s ne po qo both = ground arith

-- One access exchanges the two flows if it is the one by which the asked thread publishes its own
-- continuation, and changes neither otherwise.
step-view :
    (x : Thread) (a : Action) (s : State)
    → Inv s
    → view (step (x, a) s) ≡ (if is_publish (s.pc x) then exchanged (view s) else view s)
unfolding step
step-view first a s inv =
    let p = s.pc first in
    let q = s.pc second in
    ground (arith, access-view 0 1 a p q s.shared (λ e. cc) inv.one inv.two inv.both)
step-view second a s inv =
    let p = s.pc first in
    let q = s.pc second in
    ground (
      arith,
      access-view 1 0 a q p s.shared (λ e. cc) inv.two inv.one
          (swap-BothOk 0 1 p q s.shared inv.both),
    )

-- The two threads have the two flows.
unfoldable pub Complete : State → Type 0
Complete s = (view s ≡ (0, 1)) ⊎ (view s ≡ (1, 0))

pub step-Complete :
    (a : Thread × Action) (s : State) → Inv s × Complete s → Inv s × Complete (step a s)
unfolding Complete
step-Complete (x, a) s (inv, done) = (inv, ground (arith, step-view x a s inv))

-- In every interleaving the two threads have the two flows, one each, and an access leaves each
-- where it is, except that the access by which a thread publishes its own continuation exchanges
-- them: the whole handshake is one atomic exchange to whoever sees only the flows.
pub switch-exchange :
    (plan : List (Thread × Action)) (x : Thread) (a : Action)
    → ((view (after plan) ≡ (0, 1)) ⊎ (view (after plan) ≡ (1, 0)))
      × (view (step (x, a) (after plan)) ≡ (
          if is_publish ((after plan).pc x)
          then exchanged (view (after plan))
          else view (after plan)))
unfolding Complete
switch-exchange plan x a = (
  (run-keeps step (λ s. Inv s × Complete s) (λ b s i. (step-Inv b s i.0, (step-Complete b s i).1))
      plan start (start-Inv, inl refl)).1,
  step-view x a (after plan) (after-Inv plan),
)

asserts :
    (o g : ℕ) (p q : Pc) (s : Shared)
    → o ≢ g
    → PcOk o g p q s
    → PcOk g o q p s
    → ((f t : ℕ) → p ≡ Pc.wait_done f t → t ≡ o)
      × ((f r : ℕ) → p ≡ Pc.request f r → (r ≢ o) × ((s.threads.info o).switching_to ≢ none))
      × ((f r : ℕ) (c : Option ℕ) → p ≡ Pc.jump f → s.cont f ≡ after_request r c → r ≡ o)
      × ((f t : ℕ) → p ≡ Pc.started f t → t ≢ o)
asserts o g (Pc.run f) (Pc.run h) s ne po qo = (
  λ f' t e. ground arith,
  λ f' r e. ground arith,
  λ f' r c e d. ground arith,
  λ f' t e. ground arith,
)
asserts o g _ _ s ne po qo = (
  λ f' t e. ground arith,
  λ f' r e. ground arith,
  λ f' r c e d. ground arith,
  λ f' t e. ground arith,
)

abbrev pub other : Thread → Thread
other first = second
other second = first

-- The assertions of `switch_to` and `requested_switch_with` hold in every interleaving: a flow
-- comes out of `switch_to` on the target, a thread is asked by another one and finds the
-- continuation that it has been given, and a flow comes out of `requested_switch_with` on the
-- thread that asked. A thread never starts a switch with itself.
pub switch-asserts :
    (plan : List (Thread × Action)) (x : Thread)
    → let s = (after plan).shared in
      let p = (after plan).pc x in
      ((f t : ℕ) → p ≡ Pc.wait_done f t → t ≡ address x)
      × ((f r : ℕ)
          → p ≡ Pc.request f r
          → (r ≢ address x) × ((s.threads.info (address x)).switching_to ≢ none))
      × ((f r : ℕ) (c : Option ℕ) → p ≡ Pc.jump f → s.cont f ≡ after_request r c → r ≡ address x)
      × ((f t : ℕ) → p ≡ Pc.started f t → t ≢ address x)
switch-asserts plan first =
    let s = after plan in
    asserts 0 1 (s.pc first) (s.pc second) s.shared (λ e. cc) (after-Inv plan).one
      (after-Inv plan).two
switch-asserts plan second =
    let s = after plan in
    asserts 1 0 (s.pc second) (s.pc first) s.shared (λ e. cc) (after-Inv plan).two
      (after-Inv plan).one

lands :
    (o g f t : ℕ) (p q : Pc) (s : Shared)
    → p ≡ Pc.run f
    → PcOk o g p q s
    → s.goal f ≡ some t
    → t ≡ o
lands o g f t p q s e po goal = let i : PcOk o g (Pc.run f) q s = rw e at po in ground arith

pub run-lands :
    (s : State) (x : Thread) (f t : ℕ)
    → Inv s
    → s.pc x ≡ Pc.run f
    → s.shared.goal f ≡ some t
    → t ≡ address x
run-lands s first f t inv e goal = lands 0 1 f t (s.pc first) (s.pc second) s.shared e inv.one goal
run-lands s second f t inv e goal = lands 1 0 f t (s.pc second) (s.pc first) s.shared e inv.two goal

-- A flow that is outside again after `revert` runs on the thread that it asked for, whatever
-- switches it took part in on the way.
revert-lands :
    (plan : List (Thread × Action)) (x : Thread) (f t : ℕ)
    → (after plan).pc x ≡ Pc.run f
    → (after plan).shared.goal f ≡ some t
    → t ≡ address x
revert-lands plan x f t = run-lands (after plan) x f t (after-Inv plan)

access-goal :
    (me : ℕ) (a : Action) (p : Pc) (s : Shared) (f : ℕ)
    → p ≢ Pc.run f
    → (access me a p s).0.goal f ≡ s.goal f
unfolding access
access-goal me work (Pc.run h) s f ne = ground arith
access-goal me _ _ s f ne = ground arith

-- Only what the flow itself does outside changes its goal.
pub step-goal :
    (x : Thread) (a : Action) (s : State) (f : ℕ)
    → s.pc x ≢ Pc.run f
    → (step (x, a) s).shared.goal f ≡ s.shared.goal f
unfolding step
step-goal x a s f = access-goal (address x) a (s.pc x) s.shared f

-- A flow that asks to revert has the thread as its goal.
pub revert-goal :
    (x t : Thread) (s : State) (f : ℕ)
    → s.pc x ≡ Pc.run f
    → (step (x, Action.revert t) s).shared.goal f ≡ some (address t)
unfolding step access
revert-goal x t s f e = rw e (ground arith)
