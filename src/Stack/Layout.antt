-- ===== src/Stack/Layout.antt =====
-- Where the control structure and the useful stack lie in the memory of a coroutine.
use concore2full.Base.{
  ℕ, ◌+◌, ◌-◌, ◌/◌, ◌%◌, ◌<◌, ◌≤◌, ◌≡◌, refl, sym, inl, inr, Bool-cases, ◌≢◌, some, arith, ◌==◌,
}
use native.Mathlib.Nat.{div-add-mod, mod-eq-sub-mod}
use concore2full.Stack.{
  StackSpace, allocate, deallocate, and_not, allocate_stack, stack_end, stack_begin, useful_size,
  destroy, gap,
}

-- Clearing the bit of a power of two lowers a number by at most that power, and leaves its
-- remainder.
and_not_lem :
    (x a : ℕ) → 0 < a → (and_not x a ≤ x) × (x ≤ and_not x a + a) × (and_not x a % a ≡ x % a)
unfolding and_not
and_not_lem x a pos = elim (Bool-cases (x / a % 2 == 1)) [
  | inl on ↦
      let some_a : 0 < x / a = ground arith in
      let small : a ≤ x = grind (arith, div-add-mod x a) in
      rw on (omega arith, omega arith, sym (mod-eq-sub-mod small))
  | inr off ↦ rw off (omega arith, omega arith, refl)
]

module _ (size malloced sizeof alignof : ℕ) (ok : malloced ≢ 0) (pos : 0 < alignof)
    (room : sizeof + alignof + gap ≤ size) {stack : StackSpace}
    (got : allocate size malloced ≡ some stack) where
  -- The memory holds, in this order and without overlap, the useful stack, a gap of 64 bytes and
  -- the control structure; `destroy` gives back the block that was allocated; and the address of
  -- the control structure has the remainder by its alignment that it had before the mask.
  pub allocate_stack-fits :
      let c = allocate_stack sizeof alignof stack in
      (stack_begin c ≡ malloced)
      × (stack_begin c + useful_size c ≡ stack_end c)
      × (stack_end c + gap ≡ c.self)
      × (c.self + sizeof ≤ malloced + size)
      × (destroy c ≡ malloced)
      × (c.self % alignof ≡ (malloced + size - sizeof) % alignof)
  unfolding allocate deallocate allocate_stack stack_end stack_begin useful_size destroy
  allocate_stack-fits =
      let e : stack ≡ record { size = size; sp = malloced + size } = ground arith in
      rw e (
        let (low, high, same) = and_not_lem (malloced + size - sizeof) alignof pos in
        (omega arith, omega arith, omega arith, omega arith, omega arith, same))
