-- ===== src/Stack.antt =====
-- The stacks of coroutines: include/concore2full/stack/simple_stack_allocator.h,
-- include/concore2full/detail/stack_control_structure.h and `allocate_stack` of
-- include/concore2full/detail/create_stackfull_coroutine.h. Addresses are numbers; what `malloc`
-- returns, the size and the alignment of the control structure are arguments.
pub mod Layout
mod Tests
use concore2full.Base.{ℕ, ◌+◌, ◌-◌, ◌/◌, ◌%◌, Option, none, some, ◌==◌, if◌then◌else◌}

-- `stack_t`: `sp` is the end of the memory.
pub record StackSpace : Type 0 where
  pub size : ℕ
  pub sp : ℕ

-- `simple_stack_allocator::allocate`, for an allocator of the given size; `none` is `bad_alloc`.
unfoldable pub allocate : (size : ℕ) (malloced : ℕ) → Option StackSpace
allocate size malloced =
    if malloced == 0 then none else some (record { size = size; sp = malloced + size })

-- `simple_stack_allocator::deallocate`: the address that is given to `free`.
unfoldable pub deallocate : StackSpace → ℕ
deallocate stack = stack.sp - stack.size

-- `x & ~a`, for a power of two `a`: the one bit of `a` is cleared.
unfoldable pub and_not : ℕ → ℕ → ℕ
and_not x a = if x / a % 2 == 1 then x - a else x

-- `stack_control_structure`, at the address `self`.
pub record Control : Type 0 where
  pub self : ℕ
  pub stack : StackSpace

-- `allocate_stack`, on a stack that the allocator returned.
unfoldable pub allocate_stack : (sizeof alignof : ℕ) → StackSpace → Control
unfolding and_not
allocate_stack sizeof alignof stack = record {
  self = and_not (stack.sp - sizeof) alignof;
  stack = stack;
}

abbrev pub gap : ℕ
gap = 64

unfoldable pub stack_end : Control → ℕ
stack_end c = c.self - gap

unfoldable pub stack_begin : Control → ℕ
stack_begin c = c.stack.sp - c.stack.size

unfoldable pub useful_size : Control → ℕ
unfolding stack_end stack_begin
useful_size c = stack_end c - stack_begin c

-- `destroy`: the stack is saved, the object destructed, and the stack deallocated.
unfoldable pub destroy : Control → ℕ
unfolding deallocate
destroy c = deallocate c.stack
