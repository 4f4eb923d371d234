-- ===== src/SharedFrame.antt =====
-- `future<shared_frame<...>>` (include/concore2full/future.h,
-- include/concore2full/detail/shared_frame.h): the futures that `copyable_spawn` hands out and their
-- copies, which own one frame together, and the worker, which owns no part of it. The futures are
-- numbered in the order in which they are made; `await` is called at most once on each, and a future
-- is dropped any time but during its own `await`. `std::shared_ptr` is its number of owners.
pub mod Owners
pub mod Safety
mod Tests
use concore2full.Base.{
  ℕ, ◌+◌, ◌-◌, Bool, true, false, Option, some, if◌then◌else◌, ◌==◌, ◌||◌, update,
}
use concore2full.CopyableFrame.{
  State, spawn, step, Agent, Cont, caller, AwaitPc, arrive, returned, WorkerPc,
}

-- `frame` is what the shared pointers point to, `made` the number of futures that there have been,
-- `alive` those of them that exist, and `freed` says that the frame has been destroyed.
pub record Shared : Type 0 where
  pub frame : State
  pub made : ℕ
  pub alive : ℕ → Bool
  pub use_count : ℕ
  pub freed : Bool

-- The constructor of the future, which makes the frame and spawns the computation.
abbrev pub make_future : Shared
make_future = record { frame = spawn; made = 1; alive = λ k. k == 0; use_count = 1; freed = false }

abbrev pub is_returned : AwaitPc → Bool
is_returned returned = true
is_returned _ = false

-- The worker goes on as the caller `k`.
abbrev pub resumes : ℕ → WorkerPc → Bool
resumes k (WorkerPc.jump (some (caller j))) = j == k
resumes k _ = false

-- The call of `await` on the future `k` has come back.
abbrev pub has_returned : ℕ → State → Bool
has_returned k s = is_returned (s.awaiter k) || resumes k s.worker

abbrev pub is_arrive : AwaitPc → Bool
is_arrive arrive = true
is_arrive _ = false

-- Nobody is within `await` on the future `k`: it has not been called, or has come back.
abbrev pub at_rest : ℕ → State → Bool
at_rest k s = is_arrive (s.awaiter k) || has_returned k s

-- The copy of a future is one more owner.
unfoldable pub copy_future : Shared → Shared
copy_future s = record s {
  made = s.made + 1;
  alive = update s.alive s.made true;
  use_count = s.use_count + 1;
}

-- The last owner that goes destroys the frame.
unfoldable pub drop_future : ℕ → Shared → Shared
drop_future k s = record s {
  alive = update s.alive k false;
  use_count = s.use_count - 1;
  freed = s.use_count - 1 == 0;
}

pub data Action : Type 0 where
  access : Agent → Action
  copy drop : ℕ → Action

-- One access to the frame, in `await` on a future that exists or in the worker; a copy of a future
-- that exists; or the end of a future, within which there is no call of its `await`.
unfoldable pub act : ℕ → Action → Shared → Shared
act v (access (Agent.awaiter k)) s =
    if s.alive k then record s { frame = step v (Agent.awaiter k) s.frame } else s
act v (access Agent.worker) s = record s { frame = step v Agent.worker s.frame }
act v (copy k) s = if s.alive k then copy_future s else s
act v (drop k) s = if s.alive k then (if at_rest k s.frame then drop_future k s else s) else s
