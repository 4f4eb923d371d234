-- ===== src/Switch.antt =====
-- The exchange of control flows between two threads: `switch_to`, `check_for_thread_switch` and what
-- they call (src/thread_info.cpp), `thread_snapshot::revert` (src/thread_snapshot.cpp) and
-- `inversion_checkpoint` (src/this_thread.cpp), interleaved at each access to what the threads
-- share. Each thread may start a switch, or be asked for one, again and again. `thread_info`s and
-- the operations under the global mutex are those of ThreadInfo, which gives a flow the data of
-- the thread that it runs on; a control flow is a number, and so is the address of a thread's data.
pub mod Invariant
pub mod Steps
pub mod Safety
pub mod Progress
mod Tests
use concore2full.Base.{
  ℕ, Bool, true, false, Option, none, some, List, [], ◌∷◌, ◌==◌, if◌then◌else◌, update,
}
use concore2full.ThreadInfo.{Info, Threads, set_info, try_start_switch, end_switch, wake_up}

pub data Thread : Type 0 where
  first second : Thread

-- The address of the `thread_info` of a thread.
abbrev pub address : Thread → ℕ
address first = 0
address second = 1

-- Where a suspended flow goes on: behind the `callcc` of `switch_to` with its target, or behind that
-- of `requested_switch_with`, which was called from the loop of `do_start_switch` for a target, or
-- from outside of `switch_to`.
pub data Cont : Type 0 where
  after_switch : (target : ℕ) → Cont
  after_request : (originator : ℕ) (caller : Option ℕ) → Cont

-- `done` is the flag on the stack of `switch_to`, and `cont` where each flow was suspended last.
-- The code does not store `goal`, the thread that the flow's last call asked for, if it was
-- `revert`.
pub record Shared : Type 0 where
  pub threads : Threads
  pub done : ℕ → Bool
  pub cont : ℕ → Cont
  pub goal : ℕ → Option ℕ

-- Where a thread stands, with the flow that it runs or that it has just suspended. From `run` on it
-- is `do_start_switch` and `switch_to`, from `request` on `requested_switch_with`; `jump` switches
-- to a continuation.
pub data Pc : Type 0 where
  run : (flow : ℕ) → Pc
  try_start : (flow target : ℕ) → Pc
  check : (flow : ℕ) (caller : Option ℕ) → Pc
  compare_target started store_to store_request wake wait : (flow target : ℕ) → Pc
  finish : (flow target next : ℕ) → Pc
  set_done : (flow next : ℕ) → Pc
  request : (flow originator : ℕ) → Pc
  clear publish : (flow originator next : ℕ) → Pc
  jump : (next : ℕ) → Pc
  wait_done : (flow target : ℕ) → Pc

-- What a flow does next outside of the code that is modelled.
pub data Action : Type 0 where
  work inversion_checkpoint : Action
  revert : Thread → Action

-- Where a flow goes on when a thread jumps to it.
abbrev pub resume : ℕ → Cont → Pc
resume f (after_switch target) = wait_done f target
resume f (after_request originator none) = run f
resume f (after_request originator (some target)) = compare_target f target

abbrev pub set_switching_to : ℕ → Option ℕ → Threads → Threads
set_switching_to a c = set_info a (λ i. record i { switching_to = c })

-- What follows the test of `should_switch_with_`.
abbrev pub requested : ℕ → Option ℕ → Option ℕ → Shared → Shared × Pc
requested f caller (some originator) s =
    (record s { cont = update s.cont f (after_request originator caller) }, request f originator)
requested f (some target) none s = (s, compare_target f target)
requested f none none s = (s, run f)

-- What follows a load of `switching_to_` by the originator.
abbrev pub waited : ℕ → ℕ → Option ℕ → Pc
waited f target none = wait f target
waited f target (some next) = finish f target next

-- What follows the load of `switching_to_` by the target: null is not a continuation.
abbrev pub next_for_us : ℕ → ℕ → Option ℕ → Pc
next_for_us f originator none = request f originator
next_for_us f originator (some next) = clear f originator next

-- One access of the thread with its data at `me`.
unfoldable pub access : (me : ℕ) → Action → Pc → Shared → Shared × Pc
unfolding try_start_switch end_switch wake_up
access me work (run f) s = (record s { goal = update s.goal f none }, run f)
access me inversion_checkpoint (run f) s = (record s { goal = update s.goal f none }, check f none)
access me (revert x) (run f) s = (
  record s { goal = update s.goal f (some (address x)) },
  if address x == me then run f else try_start f (address x),
)
access me _ (try_start f target) s =
    let r = try_start_switch me target s.threads in
    (record s { threads = r.1 }, if r.0 then started f target else check f (some target))
access me _ (check f caller) s = requested f caller (s.threads.info me).should_switch_with s
access me _ (compare_target f target) s = (s, if me == target then run f else try_start f target)
access me _ (started f target) s = if me == target then (s, run f) else (
  record s { done = update s.done f false; cont = update s.cont f (after_switch target) },
  store_to f target,
)
access me _ (store_to f target) s =
    (record s { threads = set_switching_to target (some f) s.threads }, store_request f target)
access me _ (store_request f target) s = (
  record s { threads = set_info target (λ i. record i { should_switch_with = some me }) s.threads },
  wake f target,
)
access me _ (wake f target) s =
    (record s { threads = set_info target wake_up s.threads }, wait f target)
access me _ (wait f target) s = (s, waited f target (s.threads.info me).switching_to)
access me _ (finish f target next) s =
    (record s { threads = end_switch me target s.threads }, set_done f next)
access me _ (set_done f next) s = (record s { done = update s.done f true }, jump next)
access me _ (request f originator) s =
    (s, next_for_us f originator (s.threads.info me).switching_to)
access me _ (clear f originator next) s =
    (record s { threads = set_switching_to me none s.threads }, publish f originator next)
access me _ (publish f originator next) s =
    (record s { threads = set_switching_to originator (some f) s.threads }, jump next)
access me _ (jump next) s = (s, resume next (s.cont next))
access me _ (wait_done f target) s = (s, if s.done f then run f else wait_done f target)

pub record State : Type 0 where
  pub shared : Shared
  pub pc : Thread → Pc

abbrev pub set_pc : (Thread → Pc) → Thread → Pc → Thread → Pc
set_pc pcs first p first = p
set_pc pcs first p second = pcs second
set_pc pcs second p first = pcs first
set_pc pcs second p second = p

-- A thread makes an access, with what it does next if it is outside.
unfoldable pub step : Thread × Action → State → State
unfolding access
step (x, a) s =
    let r = access (address x) a (s.pc x) s.shared in
    record s { shared = r.0; pc = set_pc s.pc x r.1 }

abbrev fresh : Info
fresh = record {
  thread_id = 0;
  should_switch_with = none;
  is_currently_switching = false;
  switching_to = none;
  sleeping_counter = 0;
}

-- Each thread runs its own flow.
abbrev pub start : State
start = record {
  shared = record {
    threads = record { info = λ _. fresh; g_threads = 0 ∷ 1 ∷ [] };
    done = λ _. false;
    cont = λ _. after_switch 0;
    goal = λ _. none;
  };
  pc = λ x. run (address x);
}
