-- ===== src/BulkFrame/Weights.antt =====
-- What a thread, a task and a slot of a bulk frame count for.
use concore2full.Base.{ℕ}
use concore2full.BulkFrame.{
  Slot, tombstone, Place, queued, extracted, Pc, occupy, in_occupy, in_store,
}

-- The thread has added to `completed_tasks_`, and has not gone back to add again.
abbrev pub past : Pc → ℕ
past (Pc.wait_slot _ _) = 1
past (Pc.read_slot _ _) = 1
past (Pc.finalize _ _ _) = 1
past (Pc.wait_final _) = 1
past (Pc.jump _) = 1
past _ = 0

-- The thread has found a continuation.
abbrev pub gone : Pc → ℕ
gone (Pc.finalize _ _ _) = 1
gone (Pc.wait_final _) = 1
gone (Pc.jump _) = 1
gone _ = 0

-- The thread has taken a task, and not yet occupied a slot for it.
abbrev pub occupies : Pc → ℕ
occupies occupy = 1
occupies (in_occupy _) = 1
occupies _ = 0

-- The thread has extracted a task, and not yet stored a tombstone for it.
abbrev pub in_place : Pc → ℕ
in_place (in_occupy _) = 1
in_place (in_store _ _) = 1
in_place _ = 0

abbrev pub is_taken : Place → ℕ
is_taken queued = 0
is_taken _ = 1

abbrev pub is_extracted : Place → ℕ
is_extracted extracted = 1
is_extracted _ = 0

abbrev pub buried : Slot → ℕ
buried tombstone = 1
buried _ = 0
