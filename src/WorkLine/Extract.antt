-- ===== src/WorkLine/Extract.antt =====
-- `extract_task` against the list that the line stands for.
use concore2full.Base.{
  ℕ, ◌≡◌, refl, ◌∙◌, ◌≢◌, ◌⊎◌, inl, inr, true, none, some, List, [], ◌∷◌, arith, ◌==◌, has,
  Distinct, Bool-cases, erase, has-erase, Distinct-erase,
}
use concore2full.WorkLine.{
  Ptr, null, Link, nowhere, stack_of, next_of, Mem, load, extract_task, store, unlink_rest,
}
use concore2full.WorkLine.Chain.{
  Chain, IsLine, IsFree, Chain-frame, IsLine-worker_data, Chain-ne_null, IsLine-frame,
}

-- `n` is `m` with task `t` taken out from behind the link `l`.
pub record Unlinked (m n : Mem) (t : Ptr) (l : Link) : Type 0 where
  at : load n l ≡ (m.task t).next
  others : (k : Link) → k ≢ l → load n k ≡ load m k
  prev : (a : Ptr) → a ≢ t → a ≢ (m.task t).next → (n.task a).prev_link ≡ (m.task a).prev_link
  next_prev : (m.task t).next ≢ null → (m.task t).next ≢ t → (n.task (m.task t).next).prev_link ≡ l
  worker_data : (a : Ptr) → a ≢ t → (n.task a).worker_data ≡ (m.task a).worker_data
  off : (n.task t).worker_data ≡ none

module _ (m : Mem) (w : ℕ) where
  -- The link that leads to a task of a chain is the chain's first, or that of another task.
  prev_cases :
      (l : Link) (xs : List Ptr) (t : Ptr)
      → Chain m w l xs
      → has t xs ≡ true
      → ((m.task t).prev_link ≡ l)
        ⊎ ((y : Ptr) × ((m.task t).prev_link ≡ next_of y) × (has y xs ≡ true))
  prev_cases l [] t c i = cc
  prev_cases l (x ∷ xs) t c i = elim (Bool-cases (t == x)) [
    | inl same ↦ inl (ground arith)
    | inr other ↦ elim (prev_cases (next_of x) xs t c.4 (ground arith)) [
      | inl e ↦ inr (x, e, ground arith)
      | inr (y, e, j) ↦ inr (y, e, ground arith)
    ]
  ]

  -- No task of a chain is its own predecessor.
  prev-ne_self :
      (l : Link) (xs : List Ptr) (t : Ptr)
      → Chain m w l xs
      → Distinct xs
      → l ≢ next_of t
      → has t xs ≡ true
      → (m.task t).prev_link ≢ next_of t
  prev-ne_self l [] t c d ne i = cc
  prev-ne_self l (x ∷ xs) t c d ne i = elim (Bool-cases (t == x)) [
    | inl same ↦ ground arith
    | inr other ↦ prev-ne_self (next_of x) xs t c.4 d.1 (ground arith) (ground arith)
  ]

  -- What follows a task of a chain is null or a task of the chain.
  next_cases :
      (l : Link) (xs : List Ptr) (t : Ptr)
      → Chain m w l xs
      → has t xs ≡ true
      → ((m.task t).next ≡ null) ⊎ (has (m.task t).next xs ≡ true)
  next_cases l [] t c i = cc
  next_cases l (x ∷ []) t c i = ground arith
  next_cases l (x ∷ y ∷ xs) t c i = ground (arith, next_cases (next_of x) (y ∷ xs) t c.4)

  module _ (n : Mem) (t : Ptr) {pl : Link} (u : Unlinked m n t pl)
      (is_prev : (m.task t).prev_link ≡ pl) where
    open u use {at, others, prev, next_prev, worker_data}

    -- The rest of a chain behind a task other than `t`, where no link to it is written.
    Unlinked-rest :
        (y : Ptr) (xs : List Ptr)
        → Chain m w (next_of y) xs
        → pl ≢ next_of y
        → ((z : Ptr) → has z xs ≡ true → (z ≢ t) × (z ≢ (m.task t).next) × (pl ≢ next_of z))
        → Chain n w (next_of y) xs
    Unlinked-rest y xs c ne apart =
        Chain-frame m n w (next_of y) xs c (others (next_of y) (ground arith)) λ z i. record {
          next = others (next_of z) (ground (arith, apart z));
          prev_link = prev z (ground (arith, apart z)) (ground (arith, apart z));
          worker_data = worker_data z (ground (arith, apart z));
        }

    -- `t` is the first task.
    Unlinked-first :
        (l : Link) (x : Ptr) (xs : List Ptr)
        → t ≡ x
        → Chain m w l (x ∷ xs)
        → Distinct (x ∷ xs)
        → ((y : Ptr) → has y (x ∷ xs) ≡ true → l ≢ next_of y)
        → Chain n w l xs
    Unlinked-first l x [] e c d apart = ground (arith, at)
    Unlinked-first l x (y ∷ xs) e c d apart = (
      ground (arith, at),
      c.4.1,
      ground (arith, next_prev),
      ground (arith, worker_data y),
      Unlinked-rest y xs c.4.4 (ground (arith, apart y)) (λ z i. ground (arith, apart z)),
    )

    -- `t` comes later: the link to it is not the chain's first, nor is what follows it.
    later :
        (l : Link) (x : Ptr) (xs : List Ptr)
        → Chain m w l (x ∷ xs)
        → Distinct (x ∷ xs)
        → ((y : Ptr) → has y (x ∷ xs) ≡ true → l ≢ next_of y)
        → has t xs ≡ true
        → (l ≢ pl) × (x ≢ t) × (x ≢ (m.task t).next)
    later l x xs c d apart i = elim (prev_cases (next_of x) xs t c.4 i) [
      | inl e ↦ (ground (arith, apart x), ground arith, ground (arith, next_cases (next_of x) xs t))
      | inr (y, e, j) ↦
          (ground (arith, apart y), ground arith, ground (arith, next_cases (next_of x) xs t))
    ]

    pub Unlinked-Chain :
        (l : Link) (xs : List Ptr)
        → Chain m w l xs
        → Distinct xs
        → ((y : Ptr) → has y xs ≡ true → l ≢ next_of y)
        → has t xs ≡ true
        → Chain n w l (erase t xs)
    Unlinked-Chain l [] c d apart i = cc
    Unlinked-Chain l (x ∷ xs) c d apart i = elim (Bool-cases (t == x)) [
      | inl same ↦ rw same (Unlinked-first l x xs (ground arith) c d apart)
      | inr other ↦
          let far = later l x xs c d apart (ground arith) in
          rw other (
            others l far.0 ∙ c.0,
            c.1,
            prev x far.1 far.2 ∙ c.2,
            worker_data x far.1 ∙ c.3,
            Unlinked-Chain (next_of x) xs c.4 d.1 (λ y j. ground arith) (ground arith),
          )
    ]

  module _ (t : Ptr) where
    -- The memory after `extract_task` has found `t` behind the link `l`.
    unlinked : Link → Mem
    unlinked l = elim (store l (m.task t).next m) [ none ↦ m | some m' ↦ (unlink_rest t m').1 ]

    unlinked-Unlinked :
        (l : Link)
        → l ≢ nowhere
        → l ≢ next_of t
        → (m.task t).prev_link ≡ l
        → Unlinked m (unlinked l) t l
    unfolding unlinked
    unlinked-Unlinked nowhere ne off e = absurd (ne refl)
    unlinked-Unlinked (stack_of v) ne off e = record {
      at = ground arith;
      others = elim [
        | nowhere ↦ λ _. refl
        | stack_of u ↦ λ far. ground arith
        | next_of p ↦ λ far. ground arith
      ];
      prev = λ a q r. ground arith;
      next_prev = λ q r. ground arith;
      worker_data = λ a q. ground arith;
      off = ground arith;
    }
    unlinked-Unlinked (next_of y) ne off e = record {
      at = ground arith;
      others = elim [
        | nowhere ↦ λ _. refl
        | stack_of u ↦ λ far. ground arith
        | next_of p ↦ λ far. ground arith
      ];
      prev = λ a q r. ground arith;
      next_prev = λ q r. ground arith;
      worker_data = λ a q. ground arith;
      off = ground arith;
    }

module _ (m : Mem) (w : ℕ) (t : Ptr) (xs : List Ptr) (is : IsLine m w xs)
    (i : has t xs ≡ true) where
  abbrev after : Mem
  after = unlinked m w t (m.task t).prev_link

  link_cases :
      ((m.task t).prev_link ≡ stack_of w)
      ⊎ ((y : Ptr) × ((m.task t).prev_link ≡ next_of y) × (has y xs ≡ true))
  link_cases = prev_cases m w (stack_of w) xs t is.chain i

  after-Unlinked : Unlinked m after t (m.task t).prev_link
  after-Unlinked =
      unlinked-Unlinked m w t (m.task t).prev_link (ground (arith, link_cases))
        (prev-ne_self m w (stack_of w) xs t is.chain is.distinct (λ e. cc) i) refl

  extract-runs : extract_task t m ≡ some (true, after)
  unfolding extract_task unlinked
  extract-runs = ground (arith, link_cases, IsLine-worker_data m w t is i)

  extract-IsLine : IsLine after w (erase t xs)
  extract-IsLine = record {
    chain =
        Unlinked-Chain m w after t after-Unlinked refl (stack_of w) xs is.chain is.distinct
          (λ y j. cc) i;
    distinct = Distinct-erase t xs is.distinct;
    complete = λ a e.
        ground (
          arith,
          has-erase a t xs,
          is.complete a,
          after-Unlinked.off,
          after-Unlinked.worker_data a,
        );
  }

  extract-others : (v : ℕ) (ys : List Ptr) → v ≢ w → IsLine m v ys → IsLine after v ys
  extract-others v ys ne other =
      let far : (a : Ptr) → (m.task a).worker_data ≡ some v → a ≢ t =
        λ a e. ground (arith, IsLine-worker_data m w t is i) in
      IsLine-frame m after v other (after-Unlinked.others (stack_of v) (ground (arith, link_cases)))
        (λ a e. record {
          next =
              after-Unlinked.others (next_of a)
                (ground (arith, link_cases, IsLine-worker_data m w a is));
          prev_link = after-Unlinked.prev a (far a e) (
              ground (
                arith,
                next_cases m w (stack_of w) xs t is.chain i,
                IsLine-worker_data m w a is,
                Chain-ne_null m v (stack_of v) ys a other.chain (other.complete a e),
              ));
          worker_data = after-Unlinked.worker_data a (far a e);
        })
        (λ a e. ground (arith, after-Unlinked.off, after-Unlinked.worker_data a))

  -- `extract_task` at a task of a line.
  pub extract_task-IsLine :
      (n : Mem) × (extract_task t m ≡ some (true, n))
      × IsLine n w (erase t xs)
      × IsFree n t
      × ((v : ℕ) (ys : List Ptr) → v ≢ w → IsLine m v ys → IsLine n v ys)
  extract_task-IsLine = (
    after,
    extract-runs,
    extract-IsLine,
    record { ne_null = Chain-ne_null m w (stack_of w) xs t is.chain i; off = after-Unlinked.off },
    extract-others,
  )
