-- ===== src/Pinpoint.antt =====
-- Work that must end on the thread on which it began: `sync_execute`
-- (include/concore2full/sync_execute.h), `thread_main` (src/thread_pool.cpp) and the end of
-- `global_thread_pool_wrapper` (include/concore2full/global_thread_pool.h). Each takes a
-- `thread_snapshot` and reverts it when it is through. They are around the flows of Switch, on two
-- threads, and may be nested in a flow. A flow takes its snapshots and ends its scopes outside of a
-- switch only, in `Pc.run`; in between, any access of Switch may happen. Profiling is left out.
pub mod Safety
pub mod Flows
pub mod Progress
pub mod Returns
mod Tests
use concore2full.Base.{ℕ, Bool, true, false, List, [], ◌∷◌, update}
use concore2full.Switch
use concore2full.Switch.{Thread, Pc}

-- `snapshots f` are the snapshots on the stack of the flow `f`, the innermost first, and `reverting f`
-- says that the flow is in the `revert` of the innermost. The code does not store `ended`: for each
-- scope that has ended, the thread on which it did, and the one of the snapshot.
pub record State : Type 0 where
  pub switch : Switch.State
  pub snapshots : ℕ → List Thread
  pub reverting : ℕ → Bool
  pub ended : List (Thread × Thread)

-- What a flow does next, outside of a switch: it takes a snapshot, runs a part of the work, or comes to
-- the end of a scope.
pub data Act : Type 0 where
  snapshot : Act
  body : Switch.Action → Act
  leave : Act

-- One access of the thread in the switch.
abbrev pub advance : Thread → Switch.Action → State → State
advance x a s = record s { switch = Switch.step (x, a) s.switch }

-- The scope of the snapshot `t` has ended on the thread `x`.
abbrev pub end_scope : Thread → (f : ℕ) → List Thread → State → State
end_scope x f [] s = s
end_scope x f (t ∷ ts) s = record s {
  snapshots = update s.snapshots f ts;
  reverting = update s.reverting f false;
  ended = (x, t) ∷ s.ended;
}

-- The destructor of the scope: `t_.revert()`.
abbrev pub revert_first : Thread → (f : ℕ) → List Thread → State → State
revert_first x f [] s = s
revert_first x f (t ∷ ts) s = record (advance x (Switch.Action.revert t) s) {
  reverting = update s.reverting f true;
}

-- The flow `f`, on the thread `x`, is outside of a switch.
unfoldable pub outside : Thread → (f : ℕ) → Act → (reverted : Bool) → State → State
outside x f a true s = end_scope x f (s.snapshots f) s
outside x f snapshot false s = record s { snapshots = update s.snapshots f (x ∷ s.snapshots f) }
outside x f (body a) false s = advance x a s
outside x f leave false s = revert_first x f (s.snapshots f) s

abbrev pub at : Thread → Act → Pc → State → State
at x a (Pc.run f) s = outside x f a (s.reverting f) s
at x a _ s = advance x Switch.Action.work s

unfoldable pub step : Thread × Act → State → State
unfolding outside
step (x, a) s = at x a (s.switch.pc x) s

abbrev pub start : State
start = record { switch = Switch.start; snapshots = λ _. []; reverting = λ _. false; ended = [] }
