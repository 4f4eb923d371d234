-- ===== src/BulkFrame/Layout.antt =====
-- Where the tasks and the slots of a bulk frame lie in the memory that `allocate` asks for.
use concore2full.Base.{ℕ, refl, some, ◌+◌, ◌*◌, ◌-◌, ◌%◌, ◌^◌, ◌<◌, ◌≤◌, ◌≡◌, arith}
use concore2full.BulkFrame.{
  frame_size, tasks_at, threads_at, allocate_size, base_frame, from_base_frame,
}

-- The last element of an array ends where the array ends, and two elements do not overlap.
element_below : (i n size : ℕ) → i < n → i * size + size ≤ n * size
element_below i n size lt = grind arith

small_product : (n size : ℕ) → n ≤ 2 ^ 31 → size ≤ 2 ^ 16 → n * size ≤ 2 ^ 47
small_product n size a b = grind arith

-- `n` elements of `size` bytes from `base` on lie one behind the other, between `base` and `end`.
abbrev pub InRow : (base size n end : ℕ) → Type 0
InRow base size n end =
    ((i : ℕ) → i < n → (base ≤ base + i * size) × (base + i * size + size ≤ end))
    × ((i j : ℕ) → i < j → j < n → base + i * size + size ≤ base + j * size)

row : (base size n end : ℕ) → base + n * size ≤ end → InRow base size n end
row base size n end fits = (
  λ i lt. (omega arith, omega (arith, element_below i n size lt)),
  λ i j lt below. omega (arith, element_below i j size lt),
)

module _ (size_struct size_task size_slot size_full offset count self : ℕ)
    (fits : size_struct + offset ≤ size_full) (small : size_full ≤ 2 ^ 16)
    (task_small : size_task ≤ 2 ^ 16) (slot_small : size_slot ≤ 2 ^ 16)
    (some_tasks : count + 1 < 2 ^ 31) where
  -- For fewer than 2^31 - 1 tasks and types of at most 2^16 bytes, `frame_size` overflows nowhere and
  -- has a result, and the memory at `self` that `allocate` asks for holds in this order, without
  -- overlap: the frame, the tasks, and one slot more than there are tasks, each of them; and
  -- `to_execute` finds the frame again.
  pub bulk_frame_fits :
      (size : ℕ) × (frame_size size_struct size_task size_slot count ≡ some size)
      × (let p = base_frame offset self in
          let tasks = tasks_at size_struct p in
          let slots = threads_at size_struct size_task count p in
          (size ≡ size_struct + count * size_task + (count + 1) * size_slot)
          × (from_base_frame offset p ≡ self)
          × (p + size_struct ≤ tasks)
          × InRow tasks size_task count slots
          × InRow slots size_slot (count + 1) (self + allocate_size size_full size_struct size))
  unfolding frame_size tasks_at threads_at allocate_size base_frame from_base_frame
  bulk_frame_fits =
      let t = small_product count size_task (omega arith) task_small in
      let c = small_product (count + 1) size_slot (omega arith) slot_small in
      let p = self + offset in
      let size = size_struct + count * size_task + (count + 1) * size_slot in
      (
        size,
        ground (arith, some_tasks, t, c),
        (
          refl,
          omega arith,
          omega arith,
          row (p + size_struct) size_task count (p + size_struct + count * size_task) (omega arith),
          row (p + size_struct + count * size_task) size_slot (count + 1)
              (self + (size_full - size_struct + size) % 2 ^ 64) (omega (arith, t, c)),
        ),
      )
