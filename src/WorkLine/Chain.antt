-- ===== src/WorkLine/Chain.antt =====
-- What a line stands for: the tasks on it, first to last, and what each link must hold.
use concore2full.Base.{
  ℕ, ◌≡◌, ◌≢◌, ◌⊎◌, inl, inr, true, false, none, some, List, [], ◌∷◌, arith, has, Distinct,
}
use concore2full.WorkLine.{Ptr, null, Link, stack_of, next_of, Task, Mem, load}

-- From the link `l` on, line `w` holds the tasks `xs`.
abbrev pub Chain : Mem → ℕ → Link → List Ptr → Type 0
Chain m w l [] = load m l ≡ null
Chain m w l (x ∷ xs) =
    (load m l ≡ x)
    × (x ≢ null)
    × ((m.task x).prev_link ≡ l)
    × ((m.task x).worker_data ≡ some w)
    × Chain m w (next_of x) xs

-- Line `w` holds the tasks `xs`, and they are all that name the line as theirs.
pub record IsLine (m : Mem) (w : ℕ) (xs : List Ptr) : Type 0 where
  pub chain : Chain m w (stack_of w) xs
  pub distinct : Distinct xs
  pub complete : (t : Ptr) → (m.task t).worker_data ≡ some w → has t xs ≡ true

-- A task that is on no line.
pub record IsFree (m : Mem) (t : Ptr) : Type 0 where
  pub ne_null : t ≢ null
  pub off : (m.task t).worker_data ≡ none

module _ (m : Mem) (w : ℕ) where
  pub Chain-worker_data :
      (l : Link) (xs : List Ptr) (t : Ptr)
      → Chain m w l xs
      → has t xs ≡ true
      → (m.task t).worker_data ≡ some w
  Chain-worker_data l [] t c i = cc
  Chain-worker_data l (x ∷ xs) t c i = ground (arith, Chain-worker_data (next_of x) xs t)

  pub Chain-ne_null :
      (l : Link) (xs : List Ptr) (t : Ptr) → Chain m w l xs → has t xs ≡ true → t ≢ null
  Chain-ne_null l [] t c i = cc
  Chain-ne_null l (x ∷ xs) t c i = ground (arith, Chain-ne_null (next_of x) xs t)

  -- A task of a line is on it.
  pub IsLine-worker_data :
      {xs : List Ptr} (t : Ptr) → IsLine m w xs → has t xs ≡ true → (m.task t).worker_data ≡ some w
  IsLine-worker_data {xs} t is i = Chain-worker_data (stack_of w) xs t is.chain i

  -- A task that is on no line, or on another one, is not on this one.
  pub IsLine-not_has :
      {xs : List Ptr} (t : Ptr) → IsLine m w xs → (m.task t).worker_data ≢ some w → has t xs ≡ false
  IsLine-not_has {xs} t is off = ground (arith, IsLine-worker_data t is)

-- What a chain reads of a task.
pub record SameLinks (t u : Task) : Type 0 where
  pub next : t.next ≡ u.next
  pub prev_link : t.prev_link ≡ u.prev_link
  pub worker_data : t.worker_data ≡ u.worker_data

-- A chain survives any change that spares its first link and its own tasks.
pub Chain-frame :
    (m n : Mem) (w : ℕ) (l : Link) (xs : List Ptr)
    → Chain m w l xs
    → load n l ≡ load m l
    → ((t : Ptr) → has t xs ≡ true → SameLinks (n.task t) (m.task t))
    → Chain n w l xs
Chain-frame m n w l [] c first same = ground arith
Chain-frame m n w l (x ∷ xs) c first same = (
  ground arith,
  c.1,
  ground (arith, same x),
  ground (arith, same x),
  Chain-frame m n w (next_of x) xs c.4 (ground (arith, same x)) (λ t i. ground (arith, same t)),
)

-- The first task of a line, if there is one, is a task of the line.
pub first_cases :
    (m : Mem) (w : ℕ) (xs : List Ptr)
    → Chain m w (stack_of w) xs
    → (m.tasks_stack w ≡ null)
      ⊎ ((m.tasks_stack w ≢ null) × ((m.task (m.tasks_stack w)).worker_data ≡ some w))
first_cases m w [] c = inl c
first_cases m w (x ∷ xs) c = inr (ground arith, ground arith)

-- A line survives any change that spares its stack and its tasks, and adds no task to it.
pub IsLine-frame :
    (m n : Mem) (w : ℕ) {xs : List Ptr}
    → IsLine m w xs
    → n.tasks_stack w ≡ m.tasks_stack w
    → ((t : Ptr) → (m.task t).worker_data ≡ some w → SameLinks (n.task t) (m.task t))
    → ((t : Ptr) → (n.task t).worker_data ≡ some w → (m.task t).worker_data ≡ some w)
    → IsLine n w xs
IsLine-frame m n w {xs} is first same none_new = record {
  chain =
      Chain-frame m n w (stack_of w) xs is.chain first
        (λ t i. same t (IsLine-worker_data m w t is i));
  distinct = is.distinct;
  complete = λ t e. is.complete t (none_new t e);
}
