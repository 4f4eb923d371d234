-- ===== src/Switch/Invariant.antt =====
-- What holds at each place where the two threads of a switch can stand.
use concore2full.Base.{ℕ, ◌≡◌, ◌≢◌, ◌⊎◌, Bool, true, false, ◌||◌, Option, none, some}
use concore2full.ThreadInfo.{Info}
use concore2full.Switch.{Cont, after_switch, after_request, Shared, Pc}

-- The thread has started a switch and has not ended it.
abbrev pub originates : Pc → Bool
originates (Pc.started _ _) = true
originates (Pc.store_to _ _) = true
originates (Pc.store_request _ _) = true
originates (Pc.wake _ _) = true
originates (Pc.wait _ _) = true
originates (Pc.finish _ _ _) = true
originates _ = false

-- The thread has asked the other one for a switch, and has no continuation from it yet.
abbrev pub asks : Pc → Bool
asks (Pc.wake _ _) = true
asks (Pc.wait _ _) = true
asks _ = false

-- The flow that the thread runs, or is about to run.
abbrev pub holds : Pc → Option ℕ
holds (Pc.store_request _ _) = none
holds (Pc.wake _ _) = none
holds (Pc.wait _ _) = none
holds (Pc.run f) = some f
holds (Pc.try_start f _) = some f
holds (Pc.check f _) = some f
holds (Pc.compare_target f _) = some f
holds (Pc.started f _) = some f
holds (Pc.store_to f _) = some f
holds (Pc.finish _ _ r) = some r
holds (Pc.set_done _ r) = some r
holds (Pc.request f _) = some f
holds (Pc.clear f _ _) = some f
holds (Pc.publish f _ _) = some f
holds (Pc.jump r) = some r
holds (Pc.wait_done f _) = some f

-- The flow whose `done` flag the thread is going to set.
abbrev pub will_finish : Pc → Option ℕ
will_finish (Pc.wake f _) = some f
will_finish (Pc.wait f _) = some f
will_finish (Pc.finish f _ _) = some f
will_finish (Pc.set_done f _) = some f
will_finish _ = none

-- No switch is under way for the thread.
abbrev pub Quiet : Info → Type 0
Quiet i = (i.should_switch_with ≡ none) × (i.switching_to ≡ none)

-- The continuation that the thread `g` leaves for `o` when `o` has asked for it.
abbrev pub Left : (o g f : ℕ) → Cont → Option ℕ → Type 0
Left o g f (after_switch _) goal = ⊥
Left o g f (after_request o' none) goal = (o' ≡ o) × (goal ≡ none)
Left o g f (after_request o' (some t)) goal = (o' ≡ o) × (goal ≡ some t) × (t ≡ o)

-- The thread `g` has taken over the flow `f`, and waits for `o` to finish.
abbrev pub Takes : (g f : ℕ) → Pc → Type 0
Takes g f (Pc.jump n) = n ≡ f
Takes g f (Pc.wait_done n t) = n ≡ f
Takes g f _ = ⊥

-- How far the target `g` has come with the request of `o`, which has suspended `f`.
abbrev pub Answers : (o g f : ℕ) → Pc → Info → Info → Shared → Type 0
Answers o g f (Pc.request h o') io ig s =
    (o' ≡ o) × (h ≢ f) × (ig.switching_to ≡ some f) × (io.switching_to ≡ none)
Answers o g f (Pc.clear h o' n) io ig s =
    (o' ≡ o) × (h ≢ f) × (n ≡ f) × (ig.switching_to ≡ some f) × (io.switching_to ≡ none)
Answers o g f (Pc.publish h o' n) io ig s =
    (o' ≡ o) × (h ≢ f) × (n ≡ f) × (ig.switching_to ≡ none) × (io.switching_to ≡ none)
Answers o g f (Pc.jump n) io ig s =
    ((n ≢ f) × (ig.switching_to ≡ some f) × (io.switching_to ≡ none))
    ⊎ ((n ≡ f)
        × (ig.switching_to ≡ none)
        × ((h : ℕ) × (io.switching_to ≡ some h) × (h ≢ f) × Left o g h (s.cont h) (s.goal h)))
Answers o g f (Pc.wait_done n t) io ig s =
    ((n ≢ f) × (ig.switching_to ≡ some f) × (io.switching_to ≡ none))
    ⊎ ((n ≡ f)
        × (ig.switching_to ≡ none)
        × ((h : ℕ) × (io.switching_to ≡ some h) × (h ≢ f) × Left o g h (s.cont h) (s.goal h)))
Answers o g f p io ig s = (holds p ≢ some f) × (ig.switching_to ≡ some f) × (io.switching_to ≡ none)

-- What holds where the thread `o` stands at `p`, and the other one, `g`, at `q`.
abbrev pub PcOk : (o g : ℕ) → Pc → Pc → Shared → Type 0
PcOk o g (Pc.run f) q s = (s.goal f ≡ none) ⊎ (s.goal f ≡ some o)
PcOk o g (Pc.try_start f t) q s = (t ≡ g) × (s.goal f ≡ some t)
PcOk o g (Pc.check f none) q s = s.goal f ≡ none
PcOk o g (Pc.check f (some t)) q s = (t ≡ g) × (s.goal f ≡ some t)
PcOk o g (Pc.compare_target f t) q s = ((t ≡ o) ⊎ (t ≡ g)) × (s.goal f ≡ some t)
PcOk o g (Pc.started f t) q s =
    (t ≡ g) × (s.goal f ≡ some t) × Quiet (s.threads.info o) × Quiet (s.threads.info g)
PcOk o g (Pc.store_to f t) q s =
    (t ≡ g)
    × (s.goal f ≡ some t)
    × Quiet (s.threads.info o)
    × Quiet (s.threads.info g)
    × (s.cont f ≡ after_switch g)
    × (s.done f ≡ false)
PcOk o g (Pc.store_request f t) q s =
    (t ≡ g)
    × (s.goal f ≡ some t)
    × Quiet (s.threads.info o)
    × ((s.threads.info g).should_switch_with ≡ none)
    × ((s.threads.info g).switching_to ≡ some f)
    × (s.cont f ≡ after_switch g)
    × (s.done f ≡ false)
    × (holds q ≢ some f)
PcOk o g (Pc.wake f t) q s =
    (t ≡ g)
    × (s.goal f ≡ some t)
    × ((s.threads.info o).should_switch_with ≡ none)
    × ((s.threads.info g).should_switch_with ≡ some o)
    × (s.cont f ≡ after_switch g)
    × (s.done f ≡ false)
    × Answers o g f q (s.threads.info o) (s.threads.info g) s
PcOk o g (Pc.wait f t) q s =
    (t ≡ g)
    × (s.goal f ≡ some t)
    × ((s.threads.info o).should_switch_with ≡ none)
    × ((s.threads.info g).should_switch_with ≡ some o)
    × (s.cont f ≡ after_switch g)
    × (s.done f ≡ false)
    × Answers o g f q (s.threads.info o) (s.threads.info g) s
PcOk o g (Pc.finish f t r) q s =
    (t ≡ g)
    × (s.goal f ≡ some t)
    × ((s.threads.info o).should_switch_with ≡ none)
    × ((s.threads.info g).should_switch_with ≡ some o)
    × ((s.threads.info g).switching_to ≡ none)
    × (s.cont f ≡ after_switch g)
    × (s.done f ≡ false)
    × (r ≢ f)
    × Left o g r (s.cont r) (s.goal r)
    × Takes g f q
PcOk o g (Pc.set_done f r) q s =
    (s.goal f ≡ some g)
    × (s.cont f ≡ after_switch g)
    × (s.done f ≡ false)
    × (r ≢ f)
    × Left o g r (s.cont r) (s.goal r)
    × Takes g f q
PcOk o g (Pc.request f r) q s = (asks q ≡ true) × Left g o f (s.cont f) (s.goal f)
PcOk o g (Pc.clear f r n) q s = (asks q ≡ true) × Left g o f (s.cont f) (s.goal f)
PcOk o g (Pc.publish f r n) q s = (asks q ≡ true) × Left g o f (s.cont f) (s.goal f)
PcOk o g (Pc.jump r) q s =
    ((s.cont r ≡ after_switch o)
      × (s.goal r ≡ some o)
      × ((s.done r ≡ true) ⊎ (will_finish q ≡ some r)))
    ⊎ Left o g r (s.cont r) (s.goal r)
PcOk o g (Pc.wait_done f t) q s =
    (t ≡ o)
    × (s.cont f ≡ after_switch o)
    × (s.goal f ≡ some o)
    × ((s.done f ≡ true) ⊎ (will_finish q ≡ some f))

-- What holds of the two threads together.
abbrev pub BothOk : (o g : ℕ) → Pc → Pc → Shared → Type 0
BothOk o g p q s =
    ((s.threads.info o).is_currently_switching ≡ (originates p || originates q))
    × ((s.threads.info g).is_currently_switching ≡ (originates p || originates q))
    × (originates p ≡ true → originates q ≡ false)
    × ((originates p || originates q) ≡ false → Quiet (s.threads.info o) × Quiet (s.threads.info g))
    × (holds p ≡ holds q → holds p ≡ none)
