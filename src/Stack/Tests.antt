-- ===== src/Stack/Tests.antt =====
-- The layout of a stack at concrete sizes.
use Prim.Native.Nat.{bit_and}
use concore2full.Base.{
  ℕ, zero, suc, ◌+◌, ◌-◌, ◌^◌, ◌%◌, ◌≤◌, ◌≡◌, refl, Bool, true, ◌&&◌, arith, ◌==◌,
}
use concore2full.Stack.{
  StackSpace, allocate, and_not, allocate_stack, stack_begin, stack_end, useful_size, destroy, gap,
}
use concore2full.Stack.Layout.{allocate_stack-fits}

-- A stack of 1 MB at 4096.
abbrev megabyte : ℕ
megabyte = 1_048_576

abbrev stack : StackSpace
stack = record { size = megabyte; sp = 4096 + megabyte }

allocate_stack-fits_example :
    let c = allocate_stack 48 8 stack in
    (stack_begin c ≡ 4096)
    × (stack_begin c + useful_size c ≡ stack_end c)
    × (stack_end c + gap ≡ c.self)
    × (c.self + 48 ≤ 4096 + megabyte)
    × (destroy c ≡ 4096)
    × (c.self % 8 ≡ (4096 + megabyte - 48) % 8)
unfolding allocate
allocate_stack-fits_example =
    allocate_stack-fits megabyte 4096 48 8 (omega arith) (omega arith) (omega arith) refl

-- With a size that is no multiple of the alignment the control structure is not aligned.
unaligned_run : (allocate_stack 44 8 stack).self % 8 ≡ 4
unfolding allocate_stack
unaligned_run = refl

-- `and_not` is the mask on machine words.
agree : ℕ → ℕ → Bool
agree zero k = true
agree (suc x) k = agree x k && (and_not x (2 ^ k) == bit_and x (255 - 2 ^ k))

and_not_table : (agree 256 0 && agree 256 3 && agree 256 4 && agree 256 7) ≡ true
unfolding agree and_not
and_not_table = refl
