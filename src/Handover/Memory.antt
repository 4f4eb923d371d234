-- ===== src/Handover/Memory.antt =====
-- What the operations on a line do to `worker_data_` of each task, and to the number of tasks.
use concore2full.Base.{
  ℕ, ◌≡◌, refl, ap, ◌∙◌, ◌≢◌, inl, inr, Bool, true, Bool-cases, Option, none, some, List, [], ◌∷◌,
  arith, ◌==◌, if◌then◌else◌, has,
}
use concore2full.WorkLine
use concore2full.WorkLine.{
  Ptr, null, Link, nowhere, stack_of, next_of, Mem, load, store, unlink_rest, push_unprotected,
  pop_unprotected, try_push, try_pop,
}
use concore2full.WorkLine.Chain.{Chain, IsLine}
use concore2full.WorkLine.Lines.{first, rest}
use concore2full.ThreadPool.{clear_links}

abbrev pub worker_data : Mem → Ptr → Option ℕ
worker_data m a = (m.task a).worker_data

pub worker_data-clear_links :
    (m : Mem) (t a : Ptr) → worker_data (clear_links t m) a ≡ worker_data m a
worker_data-clear_links m t a = ground arith

pub worker_data-push_unprotected :
    (w : ℕ) (t : Ptr) (m : Mem) (a : Ptr)
    → worker_data (push_unprotected w t m) a ≡ (if a == t then some w else worker_data m a)
unfolding push_unprotected
worker_data-push_unprotected w t m a = ground arith

worker_data-pop_unprotected :
    (w : ℕ) (m : Mem) (a : Ptr)
    → (pop_unprotected w m).0 ≢ null
    → worker_data (pop_unprotected w m).1 a
      ≡ (if a == (pop_unprotected w m).0 then none else worker_data m a)
unfolding pop_unprotected
worker_data-pop_unprotected w m a ne = ground arith

pub worker_data-try_pop :
    (locked : Bool) (w : ℕ) (m : Mem) (a : Ptr)
    → (try_pop locked w m).0 ≢ null
    → worker_data (try_pop locked w m).1 a
      ≡ (if a == (try_pop locked w m).0 then none else worker_data m a)
unfolding try_pop
worker_data-try_pop locked w m a ne = ground (arith, worker_data-pop_unprotected w m a)

worker_data-store :
    (l : Link) (q : Ptr) (m m' : Mem) (a : Ptr)
    → store l q m ≡ some m'
    → worker_data m' a ≡ worker_data m a
worker_data-store nowhere q m m' a e = cc
worker_data-store (stack_of w) q m m' a e = ground arith
worker_data-store (next_of t) q m m' a e = ground arith

worker_data-unlink_rest :
    (t : Ptr) (m : Mem) (a : Ptr)
    → worker_data (unlink_rest t m).1 a ≡ (if a == t then none else worker_data m a)
worker_data-unlink_rest t m a = ground arith

extract-stored :
    (t : Ptr) (m : Mem) (a : Ptr) (r : Bool × Mem) (w : ℕ) (o : Option Mem)
    → store (m.task t).prev_link (m.task t).next m ≡ o
    → worker_data m t ≡ some w
    → WorkLine.extract_task t m ≡ some r
    → worker_data r.1 a ≡ (if a == t then none else worker_data m a)
unfolding WorkLine.extract_task
extract-stored t m a r w none e d runs = ground arith
extract-stored t m a r w (some m') e d runs = ground (
  arith,
  worker_data-store (m.task t).prev_link (m.task t).next m m' a,
  worker_data-unlink_rest t m' a,
)

pub worker_data-extract_task :
    (t : Ptr) (m : Mem) (a : Ptr) (r : Bool × Mem) (w : ℕ)
    → worker_data m t ≡ some w
    → WorkLine.extract_task t m ≡ some r
    → worker_data r.1 a ≡ (if a == t then none else worker_data m a)
worker_data-extract_task t m a r w =
    extract-stored t m a r w (store (m.task t).prev_link (m.task t).next m) refl

-- The back link of a task on a line leads to it.
load-Chain :
    (m : Mem) (w : ℕ) (l : Link) (xs : List Ptr) (t : Ptr)
    → Chain m w l xs
    → has t xs ≡ true
    → load m (m.task t).prev_link ≡ t
load-Chain m w l [] t c i = cc
load-Chain m w l (x ∷ xs) t c i = elim (Bool-cases (t == x)) [
  | inl same ↦ let is : t ≡ x = ground arith in rw is (ap (load m) c.2 ∙ c.0)
  | inr other ↦ load-Chain m w (next_of x) xs t c.4 (ground arith)
]

pub load-prev_link :
    (m : Mem) (w : ℕ) (xs : List Ptr) (t : Ptr)
    → IsLine m w xs
    → worker_data m t ≡ some w
    → load m (m.task t).prev_link ≡ t
load-prev_link m w xs t is e = load-Chain m w (stack_of w) xs t is.chain (is.complete t e)

-- A task that is popped is that of a line that is not empty.
pub first-has :
    (xs : List Ptr) → first xs ≢ null → (has (first xs) xs ≡ true) × (xs ≡ first xs ∷ rest xs)
first-has [] ne = absurd (ne refl)
first-has (x ∷ xs) ne = (ground arith, refl)
