-- ===== src/Coroutine/Context.antt =====
-- The context library, a submodule that is not part of the source, as a parameter with the
-- documented behaviour of its calls; and a machine of threads that share it.
use concore2full.Base.{ℕ, zero, suc, ◌≡◌, ◌≢◌, Option, none, some, List, ◌∷◌, erase, update}
use concore2full.Stack
use concore2full.Stack.{Control, StackSpace}
use concore2full.Coroutine.{
  Transfer, Top, Code, returned, bad_alloc, fault, allocate, make_fcontext, jump_fcontext,
  ontop_fcontext, store, load,
}

-- `point w c` is where the continuation `c` goes on, if it is one.
pub record ContextApi : Type 1 where
  pub World : Type 0
  pub point : World → ℕ → Option (Transfer → Code)
  pub make : (sp size : ℕ) → (entry : Transfer → Code) → World → ℕ × World
  pub jump : (to : ℕ) → Option Control → (here : Transfer → Code) → World → Code × World
  pub ontop :
      (to : ℕ)
      → Option Control
      → (Transfer → Top)
      → (here : Transfer → Code) → World
      → Option ℕ × Code × World

-- `w'` has the one new continuation `c`, which goes on at `p`, and besides those of `w` it may only
-- have lost `to`.
pub record Added (api : ContextApi) (w w' : api.World) (to c : ℕ) (p : Transfer → Code)
    : Type 0 where
  pub ne_null : c ≢ 0
  pub is_new : api.point w c ≡ none
  pub here : api.point w' c ≡ some p
  pub others : (j : ℕ) → j ≢ c → j ≢ to → api.point w' j ≡ api.point w j

-- `make_fcontext` makes a continuation of the function. `jump_fcontext` makes one of the running flow
-- and goes on at another, which gets it with the data; `ontop_fcontext` does the same, and there calls
-- the function first and passes on its result.
pub record IsLawful (api : ContextApi) : Type 0 where
  pub make_lem :
      (sp size : ℕ) (entry : Transfer → Code) (w : api.World)
      → let r = api.make sp size entry w in Added api w r.1 r.0 r.0 entry
  pub jump_lem :
      (to : ℕ) (control : Option Control) (here p : Transfer → Code) (w : api.World)
      → api.point w to ≡ some p
      → (c : ℕ) × (w' : api.World) × Added api w w' to c here
        × (api.jump to control here w ≡ (p (record { fctx = c; control = control }), w'))
  pub ontop_lem :
      (to : ℕ) (control : Option Control) (top : Transfer → Top) (here p : Transfer → Code)
      (w : api.World)
      → api.point w to ≡ some p
      → (c : ℕ) × (w' : api.World) × Added api w w' to c here
        × (let r = top (record { fctx = c; control = control }) in
            api.ontop to control top here w ≡ (r.freed, p r.transfer, w'))

module _ (api : ContextApi) where
  -- What the threads share: the continuations, the blocks that are allocated, and the user's cells.
  pub record Shared : Type 0 where
    pub world : api.World
    pub blocks : List ℕ
    pub cells : ℕ → ℕ

  abbrev free_block : Option ℕ → List ℕ → List ℕ
  free_block none blocks = blocks
  free_block (some b) blocks = erase b blocks

  abbrev allocated :
      (malloced : ℕ) → (Option StackSpace → Code) → Shared → Option StackSpace → Code × Shared
  allocated malloced rest s none = (rest none, s)
  allocated malloced rest s (some stack) =
      (rest (some stack), record s { blocks = malloced ∷ s.blocks })

  -- The next call of a flow, where the allocator has stacks of `size` bytes and `malloc` returns
  -- `malloced`.
  unfoldable pub call : (size malloced : ℕ) → Code → Shared → Code × Shared
  unfolding Stack.allocate
  call size malloced returned s = (returned, s)
  call size malloced bad_alloc s = (bad_alloc, s)
  call size malloced fault s = (fault, s)
  call size malloced (allocate rest) s = allocated malloced rest s (Stack.allocate size malloced)
  call size malloced (make_fcontext sp stack_size entry rest) s =
      let r = api.make sp stack_size entry s.world in (rest r.0, record s { world = r.1 })
  call size malloced (jump_fcontext to control here) s =
      let r = api.jump to control here s.world in (r.0, record s { world = r.1 })
  call size malloced (ontop_fcontext to control top here) s =
      let r = api.ontop to control top here s.world in
      (r.1, record s { world = r.2; blocks = free_block r.0 s.blocks })
  call size malloced (store cell value rest) s =
      (rest, record s { cells = update s.cells cell value })
  call size malloced (load cell rest) s = (rest (s.cells cell), s)

  abbrev pub one : (size malloced : ℕ) → Code × Shared → Code × Shared
  one size malloced x = call size malloced x.0 x.1

  -- A thread makes a number of calls.
  unfoldable pub calls : (size malloced : ℕ) → ℕ → Code × Shared → Code × Shared
  unfolding call
  calls size malloced zero x = x
  calls size malloced (suc n) x = calls size malloced n (one size malloced x)
