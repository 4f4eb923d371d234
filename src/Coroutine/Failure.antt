-- ===== src/Coroutine/Failure.antt =====
-- `callcc` when the allocator of the stack may fail.
use concore2full.Base.{
  ℕ, ◌≡◌, refl, sym, ap, ◌∙◌, ◌≢◌, ◌⊎◌, inl, inr, Bool, true, false, Bool-cases, some, arith, ◌==◌,
}
use concore2full.Coroutine.{Code, MainFunction, finish, start_coroutine, callcc, bad_alloc}
use concore2full.Coroutine.Context.{ContextApi, IsLawful, Shared, call, one, calls}
use concore2full.Coroutine.Laws.{Entered, control_at, allocates, enters}
use concore2full.Stack

-- The first call of `callcc` throws, and has changed neither the continuations nor the blocks nor the
-- cells.
pub Throws :
    (api : ContextApi) (size sizeof alignof malloced : ℕ) (main : MainFunction) (rest : ℕ → Code)
    → Shared api
    → Type 0
Throws api size sizeof alignof malloced main rest s =
    one api size malloced (callcc sizeof alignof main rest, s) ≡ (bad_alloc, s)

-- After three calls the function is entered with a new continuation, which goes on behind `callcc`.
pub Enters :
    (api : ContextApi) (size sizeof alignof malloced : ℕ) (main : MainFunction) (rest : ℕ → Code)
    → Shared api
    → Type 0
Enters api size sizeof alignof malloced main rest s =
    (c : ℕ) × (s' : Shared api) × (calls api size malloced 3 (callcc sizeof alignof main rest, s)
      ≡ (main c (finish (some (control_at size malloced sizeof alignof))), s'))
    × Entered api malloced s s' rest c

is_throw : Code → Bool
is_throw bad_alloc = true
is_throw _ = false

module _ (api : ContextApi) (lawful : IsLawful api) (size sizeof alignof : ℕ) where
  null-Throws :
      (malloced : ℕ) (main : MainFunction) (rest : ℕ → Code) (s : Shared api)
      → malloced ≡ 0
      → Throws api size sizeof alignof malloced main rest s
  unfolding Throws call callcc Stack.allocate
  null-Throws malloced main rest s e = rw e refl

  start_ne_bad_alloc :
      (malloced : ℕ) (main : MainFunction) (rest : ℕ → Code) (s : Shared api)
      → malloced ≢ 0
      → Throws api size sizeof alignof malloced main rest s
      → ⊥
  unfolding Throws is_throw start_coroutine
  start_ne_bad_alloc malloced main rest s ok e =
      let x = allocates api lawful size malloced sizeof alignof ok main rest s in
      let y = ap (λ r. is_throw r.0) (sym x ∙ e) in cc

  stack-Enters :
      (malloced : ℕ) (main : MainFunction) (rest : ℕ → Code) (s : Shared api)
      → malloced ≢ 0
      → Enters api size sizeof alignof malloced main rest s
  unfolding Enters calls
  stack-Enters malloced main rest s ok =
      enters api lawful size malloced sizeof alignof ok main rest s

  -- If `malloc` returns null, `callcc` throws `bad_alloc`: the function is not called, and neither the
  -- continuations nor the blocks nor the cells have changed. Otherwise `callcc` does not throw: the
  -- function is entered on the new stack, with a continuation that goes on behind the call; all
  -- continuations of before are still there, and the stack is the only new block. This is for every
  -- context library with the documented behaviour.
  pub callcc-Throws :
      (malloced : ℕ) (main : MainFunction) (rest : ℕ → Code) (s : Shared api)
      → ((malloced ≡ 0) × Throws api size sizeof alignof malloced main rest s)
        ⊎ ((malloced ≢ 0)
            × Enters api size sizeof alignof malloced main rest s
            × (Throws api size sizeof alignof malloced main rest s → ⊥))
  callcc-Throws malloced main rest s = elim (Bool-cases (malloced == 0)) [
    | inl e ↦ let is : malloced ≡ 0 = ground arith in inl (is, null-Throws malloced main rest s is)
    | inr e ↦
        let ok : malloced ≢ 0 = ground arith in
        inr (ok, stack-Enters malloced main rest s ok, start_ne_bad_alloc malloced main rest s ok)
  ]
