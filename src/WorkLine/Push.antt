-- ===== src/WorkLine/Push.antt =====
-- `push_unprotected` against the list that the line stands for.
use concore2full.Base.{ℕ, ◌≡◌, ◌≢◌, false, List, [], ◌∷◌, arith, has, Distinct}
use concore2full.WorkLine.{Ptr, null, stack_of, next_of, Mem, push_unprotected}
use concore2full.WorkLine.Chain.{
  Chain, IsLine, IsFree, Chain-frame, IsLine-not_has, first_cases, IsLine-frame,
}

module _ (m : Mem) (w : ℕ) (t : Ptr) where
  abbrev pushed : Mem
  pushed = push_unprotected w t m

  push-Chain :
      (xs : List Ptr)
      → Chain m w (stack_of w) xs
      → Distinct xs
      → has t xs ≡ false
      → t ≢ null
      → Chain pushed w (stack_of w) (t ∷ xs)
  unfolding push_unprotected
  push-Chain [] c d out ne = ground arith
  push-Chain (x ∷ xs) c d out ne = (
    ground arith,
    ne,
    ground arith,
    ground arith,
    (
      ground arith,
      c.1,
      ground arith,
      ground arith,
      Chain-frame m pushed w (next_of x) xs c.4 (ground arith) (λ y i. ground arith),
    ),
  )

  -- `push_unprotected` puts a task that is on no line in front of line `w`, and leaves the
  -- other lines as they are.
  pub push_unprotected-IsLine :
      (xs : List Ptr)
      → IsLine m w xs
      → IsFree m t
      → IsLine (push_unprotected w t m) w (t ∷ xs)
        × ((v : ℕ) (ys : List Ptr) → v ≢ w → IsLine m v ys → IsLine (push_unprotected w t m) v ys)
  unfolding push_unprotected
  push_unprotected-IsLine xs is free =
      let out = IsLine-not_has m w t is (λ e. ground (arith, free.off)) in
      (
        record {
          chain = push-Chain xs is.chain is.distinct out free.ne_null;
          distinct = (out, is.distinct);
          complete = λ y e. ground (arith, is.complete y, first_cases m w xs is.chain);
        },
        λ v ys ne other.
            IsLine-frame m pushed v other (ground arith)
              (λ y e. ground (arith, first_cases m w xs is.chain, free.off))
              (λ y e. ground (arith, first_cases m w xs is.chain)),
      )
