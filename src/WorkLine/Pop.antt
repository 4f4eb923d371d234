-- ===== src/WorkLine/Pop.antt =====
-- `pop_unprotected` against the list that the line stands for.
use concore2full.Base.{ℕ, ◌≡◌, ◌≢◌, List, [], ◌∷◌, arith, Distinct}
use concore2full.WorkLine.{Ptr, null, stack_of, next_of, Mem, pop_unprotected}
use concore2full.WorkLine.Chain.{Chain, IsLine, IsFree, Chain-frame, first_cases, IsLine-frame}

module _ (m : Mem) (w : ℕ) where
  abbrev popped : Mem
  popped = (pop_unprotected w m).1

  pop-Chain :
      (x : Ptr) (xs : List Ptr)
      → Chain m w (stack_of w) (x ∷ xs)
      → Distinct (x ∷ xs)
      → Chain popped w (stack_of w) xs
  unfolding pop_unprotected
  pop-Chain x [] c d = ground arith
  pop-Chain x (y ∷ xs) c d = (
    ground arith,
    ground arith,
    ground arith,
    ground arith,
    Chain-frame m popped w (next_of y) xs c.4.4 (ground arith) (λ z i. ground arith),
  )

  -- On a line that is not empty `pop_unprotected` returns the first task and takes it off the
  -- line, so that it is on no line; the other lines stay as they are.
  pub pop_unprotected-IsLine :
      (x : Ptr) (xs : List Ptr)
      → IsLine m w (x ∷ xs)
      → ((pop_unprotected w m).0 ≡ x)
        × IsLine (pop_unprotected w m).1 w xs
        × IsFree (pop_unprotected w m).1 x
        × ((v : ℕ) (ys : List Ptr) → v ≢ w → IsLine m v ys → IsLine (pop_unprotected w m).1 v ys)
  unfolding pop_unprotected
  pop_unprotected-IsLine x xs is =
      let second = first_cases popped w xs (pop-Chain x xs is.chain is.distinct) in
      (
        ground (arith, is.chain),
        record {
          chain = pop-Chain x xs is.chain is.distinct;
          distinct = is.distinct.1;
          complete = λ y e. ground (arith, is.complete y, is.chain);
        },
        record { ne_null = is.chain.1; off = ground (arith, is.chain) },
        λ v ys ne other.
            IsLine-frame m popped v other (ground arith) (λ y e. ground (arith, is.chain, second))
              (λ y e. ground (arith, is.chain)),
      )

  -- On an empty line it returns null and changes nothing.
  pub pop_unprotected-empty : IsLine m w [] → pop_unprotected w m ≡ (null, m)
  unfolding pop_unprotected
  pop_unprotected-empty is = rw (is.chain)
