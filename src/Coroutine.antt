-- ===== src/Coroutine.antt =====
-- `callcc`, `resume` and the life of a coroutine: include/concore2full/detail/callcc.h and
-- include/concore2full/detail/create_stackfull_coroutine.h. Code is written in the style that passes
-- on what comes next: a flow is the data of its next call to the context library, to the allocator
-- or to memory, with the rest as a function of the result. The control structure is passed in place
-- of its address. The context library is a parameter, in Coroutine.Context.
pub mod Context
pub mod Laws
pub mod Exchange
pub mod Failure
mod Tests
use concore2full.Base.{ℕ, Option, none, some, if◌then◌else◌, ◌==◌}
use concore2full.Stack.{StackSpace, Control, allocate_stack, stack_end, useful_size, destroy}

-- `transfer_t`: a continuation, where 0 is null, and the data.
pub record Transfer : Type 0 where
  pub fctx : ℕ
  pub control : Option Control

abbrev pub nulls : Transfer
nulls = record { fctx = 0; control = none }

-- What a function that runs on top of another flow does: the address that it frees, and what the
-- flow gets.
pub record Top : Type 0 where
  pub freed : Option ℕ
  pub transfer : Transfer

-- What a flow does next. `returned` is its end, `bad_alloc` the exception, and `fault` an assertion
-- that fails. `store` and `load` are the accesses of the user's code to shared continuations.
pub data Code : Type 0 where
  returned bad_alloc fault : Code
  allocate : (Option StackSpace → Code) → Code
  make_fcontext : (sp size : ℕ) → (entry : Transfer → Code) → (ℕ → Code) → Code
  jump_fcontext : (to : ℕ) → Option Control → (Transfer → Code) → Code
  ontop_fcontext : (to : ℕ) → Option Control → (Transfer → Top) → (Transfer → Code) → Code
  store : (cell value : ℕ) → Code → Code
  load : (cell : ℕ) → (ℕ → Code) → Code

-- `context_function`: what is called with a continuation, and what it returns one to.
abbrev pub MainFunction : Type 0
MainFunction = ℕ → (ℕ → Code) → Code

-- `execution_context_exit`.
unfoldable pub execution_context_exit : Transfer → Top
unfolding destroy
execution_context_exit t = record {
  freed = elim t.control [ none ↦ none | some control ↦ some (destroy control) ];
  transfer = nulls;
}

-- The end of `execution_context_entry`, when the main function has returned `fctx`.
unfoldable pub finish : Option Control → (fctx : ℕ) → Code
unfolding execution_context_exit
finish control fctx =
    if fctx == 0 then fault else ontop_fcontext fctx control execution_context_exit (λ _. fault)

-- `execution_context_entry`.
unfoldable pub execution_context_entry : MainFunction → Transfer → Code
unfolding finish
execution_context_entry main t = elim t.control [
  | none ↦ fault
  | some control ↦ if t.fctx == 0 then fault else main t.fctx (finish (some control))
]

module _ (sizeof alignof : ℕ) where
  -- `create_stackfull_coroutine`, with a stack that the allocator has returned.
  unfoldable pub start_coroutine : StackSpace → MainFunction → (ℕ → Code) → Code
  unfolding allocate_stack stack_end useful_size execution_context_entry
  start_coroutine stack main rest =
      let control = allocate_stack sizeof alignof stack in
      make_fcontext (stack_end control) (useful_size control) (execution_context_entry main)
        λ ctx. if ctx == 0 then fault else jump_fcontext ctx (some control) (λ t. rest t.fctx)

  unfoldable pub create_stackfull_coroutine : MainFunction → (ℕ → Code) → Code
  unfolding start_coroutine
  create_stackfull_coroutine main rest = allocate λ allocated. elim allocated [
    | none ↦ bad_alloc
    | some stack ↦ start_coroutine stack main rest
  ]

  unfoldable pub callcc : MainFunction → (ℕ → Code) → Code
  unfolding create_stackfull_coroutine
  callcc main rest = create_stackfull_coroutine main rest

unfoldable pub resume : (continuation : ℕ) → (ℕ → Code) → Code
resume continuation rest =
    if continuation == 0 then fault else jump_fcontext continuation none (λ t. rest t.fctx)
