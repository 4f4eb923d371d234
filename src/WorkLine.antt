-- ===== src/WorkLine.antt =====
-- `class work_line` of include/concore2full/thread_pool.h and src/thread_pool.cpp, over the tasks
-- of include/concore2full/c/task.h: an intrusive stack, linked in both directions through shared
-- memory. A task is named by its address, 0 for a null pointer; a line by a number.
pub mod Chain
pub mod Extract
pub mod Lines
pub mod Pop
pub mod Push
mod Tests
use concore2full.Base.{
  ℕ, zero, suc, Bool, true, false, ◌&&◌, Option, none, some, ◌==◌, if◌then◌else◌,
}

abbrev pub Ptr : Type 0
Ptr = ℕ

abbrev pub null : Ptr
null = 0

-- A `concore2full_task**`: null, the `tasks_stack_` of a line, or the `next_` of a task.
pub data Link : Type 0 where
  nowhere : Link
  stack_of : ℕ → Link
  next_of : Ptr → Link

-- `struct concore2full_task`; `worker_data_` is null or points to a line.
pub record Task : Type 0 where
  pub task_function : ℕ
  pub next : Ptr
  pub prev_link : Link
  pub worker_data : Option ℕ

-- The memory that the lines share: the tasks, and the `tasks_stack_` of each line.
pub record Mem : Type 0 where
  pub task : Ptr → Task
  pub tasks_stack : ℕ → Ptr

abbrev pub set_task : Ptr → (Task → Task) → Mem → Mem
set_task p f m = record m { task = λ a. if a == p then f (m.task a) else m.task a }

abbrev pub set_next : Ptr → Ptr → Mem → Mem
set_next p q = set_task p (λ t. record t { next = q })

abbrev pub set_prev_link : Ptr → Link → Mem → Mem
set_prev_link p l = set_task p (λ t. record t { prev_link = l })

abbrev pub set_worker_data : Ptr → Option ℕ → Mem → Mem
set_worker_data p d = set_task p (λ t. record t { worker_data = d })

abbrev pub set_tasks_stack : ℕ → Ptr → Mem → Mem
set_tasks_stack w p m = record m { tasks_stack = λ v. if v == w then p else m.tasks_stack v }

-- `*l`, null where `l` is null.
abbrev pub load : Mem → Link → Ptr
load m nowhere = null
load m (stack_of w) = m.tasks_stack w
load m (next_of p) = (m.task p).next

-- `*l = p`. A write through a null pointer is a fault, `none`.
abbrev pub store : Link → Ptr → Mem → Option Mem
store nowhere p m = none
store (stack_of w) p m = some (set_tasks_stack w p m)
store (next_of t) p m = some (set_next t p m)

-- `tasks_stack_->prev_link_ = l`, if there is a first task.
abbrev pub relink_first : ℕ → Link → Mem → Mem
relink_first w l m = if m.tasks_stack w == null then m else set_prev_link (m.tasks_stack w) l m

unfoldable pub push_unprotected : ℕ → Ptr → Mem → Mem
push_unprotected w t m =
    let m1 = set_worker_data t (some w) m in
    let m2 = set_next t (m1.tasks_stack w) m1 in
    let m3 = relink_first w (next_of t) m2 in
    let m4 = set_prev_link t (stack_of w) m3 in set_tasks_stack w t m4

unfoldable pub pop_unprotected : ℕ → Mem → Ptr × Mem
pop_unprotected w m =
    if m.tasks_stack w == null
    then (null, m)
    else (let res = m.tasks_stack w in
        let m1 = set_tasks_stack w (m.task res).next m in
        let m2 = relink_first w (stack_of w) m1 in
        let m3 = set_prev_link res nowhere m2 in (res, set_worker_data res none m3))

-- What follows the first write of `extract_task`.
abbrev pub unlink_rest : Ptr → Mem → Bool × Mem
unlink_rest t m =
    let nx = (m.task t).next in
    let m1 = if nx == null then m else set_prev_link nx (m.task t).prev_link m in
    let m2 = set_worker_data t none m1 in (true, set_prev_link t nowhere m2)

-- `work_line::extract_task`, by a caller that has the lock of the line.
unfoldable pub extract_task : Ptr → Mem → Option (Bool × Mem)
extract_task t m = elim ((m.task t).worker_data) [
  | some _ ↦ elim (store (m.task t).prev_link (m.task t).next m) [
    | none ↦ none
    | some m' ↦ some (unlink_rest t m')
  ]
  | none ↦ some (false, m)
]

-- A lock that is free is taken and given back within the operation; `locked` says that another
-- thread has it.
unfoldable pub try_push : (locked : Bool) → ℕ → Ptr → Mem → Bool × Mem
unfolding push_unprotected
try_push locked w t m = if locked then (false, m) else (true, push_unprotected w t m)

unfoldable pub try_pop : (locked : Bool) → ℕ → Mem → Ptr × Mem
unfolding pop_unprotected
try_pop locked w m =
    if locked then (null, m) else if m.tasks_stack w == null then (null, m) else pop_unprotected w m

same_link : Link → Link → Bool
same_link nowhere nowhere = true
same_link (stack_of w) (stack_of v) = w == v
same_link (next_of p) (next_of q) = p == q
same_link _ _ = false

is_line : ℕ → Option ℕ → Bool
is_line w none = false
is_line w (some v) = v == w

-- `check_list`: the assertions at each task from `cur` on; `none` if the list is longer than the
-- fuel.
unfoldable pub check_list : ℕ → Mem → Ptr → ℕ → Option Bool
unfolding same_link is_line
check_list zero m cur w = none
check_list (suc fuel) m cur w =
    let rest = check_list fuel m (m.task cur).next w in
    if cur == null
    then some true
    else if (load m (m.task cur).prev_link == cur) && is_line w (m.task cur).worker_data
    then rest
    else some false
