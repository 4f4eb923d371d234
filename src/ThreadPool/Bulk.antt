-- ===== src/ThreadPool/Bulk.antt =====
-- `enqueue_bulk` on a pool, whatever locks other threads hold.
use concore2full.Base.{
  ℕ, ◌+◌, ◌≡◌, refl, ◌≢◌, inl, inr, Bool, false, Option, none, some, List, [], ◌∷◌, arith, has,
  Distinct, Bool-cases, update, ◌==◌,
}
use concore2full.WorkLine.{Ptr, null, Mem}
use concore2full.WorkLine.Chain.{IsFree}
use concore2full.WorkLine.Lines.{IsPool}
use concore2full.ThreadPool.{ThreadPool, enqueue, enqueue_bulk}
use concore2full.ThreadPool.Count.{Holds}
use concore2full.ThreadPool.Enqueue.{enqueue-Holds}

-- The lines `after` are the lines `before` with the tasks put, one after the other, each in front
-- of some line.
abbrev Pushed : List Ptr → (before after : ℕ → List Ptr) → Type 0
Pushed [] before after = before ≡ after
Pushed (t ∷ rest) before after = (w : ℕ) × Pushed rest (update before w (t ∷ before w)) after

-- The tasks are none of the null pointer, and on no line.
abbrev AllFree : List Ptr → (ℕ → List Ptr) → Type 0
AllFree [] lines = Unit
AllFree (t ∷ rest) lines = (t ≢ null) × ((w : ℕ) → has t (lines w) ≡ false) × AllFree rest lines

-- A task that is on no line belongs to none.
off-IsFree :
    (m : Mem) (lines : ℕ → List Ptr) (t : Ptr)
    → IsPool m lines
    → t ≢ null
    → ((w : ℕ) → has t (lines w) ≡ false)
    → IsFree m t
off-IsFree m lines t is ne off = record { ne_null = ne; off = owner (m.task t).worker_data refl }
  where
    owner : (d : Option ℕ) → (m.task t).worker_data ≡ d → (m.task t).worker_data ≡ none
    owner none e = e
    owner (some w) e = absurd (ground (arith, (is w).complete t e, off w))

AllFree-update :
    (ts : List Ptr) (lines : ℕ → List Ptr) (w : ℕ) (t : Ptr)
    → has t ts ≡ false
    → AllFree ts lines
    → AllFree ts (update lines w (t ∷ lines w))
AllFree-update [] lines w t out free = tt
AllFree-update (s ∷ rest) lines w t out (ne, off, free) = (
  ne,
  λ v. elim (Bool-cases (v == w)) [ inl e ↦ rw e (ground (arith, off w)) | inr e ↦ rw e (off v) ],
  AllFree-update rest lines w t (ground arith) free,
)

-- `enqueue_bulk` puts its tasks, which are different ones on no line, in their order each in front
-- of one of the lines, and keeps the pool in order, whichever locks are taken at each of them; and so
-- does `enqueue` with one task.
enqueue_bulk-Holds :
    (busy : ℕ → ℕ → Bool) (ts : List Ptr) (p : ThreadPool) (lines : ℕ → List Ptr)
    → Holds p lines
    → Distinct ts
    → AllFree ts lines
    → (lines' : ℕ → List Ptr) × Pushed ts lines lines' × Holds (enqueue_bulk busy ts p) lines'
unfolding enqueue_bulk
enqueue_bulk-Holds busy [] p lines h d free = (lines, refl, h)
enqueue_bulk-Holds busy (t ∷ rest) p lines h (out, d) (ne, off, free) =
    let (w, lt, h') =
      enqueue-Holds p lines h t (busy 0) (off-IsFree p.mem lines t h.is_pool ne off) in
    let (lines', pushed, held) =
      enqueue_bulk-Holds (λ k. busy (k + 1)) rest (enqueue (busy 0) t p)
        (update lines w (t ∷ lines w)) h' d (AllFree-update rest lines w t out free) in
    (lines', (w, pushed), held)
