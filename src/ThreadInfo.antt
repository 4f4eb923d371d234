-- ===== src/ThreadInfo.antt =====
-- The data that each thread has for the switching of control flows, and the list of all threads:
-- src/thread_info.h and the registry, the flags and the sleep counter of src/thread_info.cpp, with
-- src/sleep_helper.cpp. A `thread_info` is named by its address, a control flow by a number.
pub mod Registry
pub mod Sleep
pub mod Counter
pub mod Parking
mod Tests
use concore2full.Base.{
  ℕ, zero, suc, ◌+◌, ◌%◌, ◌^◌, Bool, true, false, not, ◌&&◌, Option, none, some, List, [], ◌∷◌,
  ◌++◌, ◌==◌, if◌then◌else◌,
}

-- `thread_info`.
pub record Info : Type 0 where
  pub thread_id : ℕ
  pub should_switch_with : Option ℕ
  pub is_currently_switching : Bool
  pub switching_to : Option ℕ
  pub sleeping_counter : ℕ

-- The memory of all `thread_info`s, and `g_threads`.
pub record Threads : Type 0 where
  pub info : ℕ → Info
  pub g_threads : List ℕ

abbrev pub set_info : ℕ → (Info → Info) → Threads → Threads
set_info a f t = record t { info = λ b. if b == a then f (t.info b) else t.info b }

-- `add_thread` and `remove_thread`.
unfoldable pub add_thread : ℕ → Threads → Threads
add_thread a t = record t { g_threads = t.g_threads ++ (a ∷ []) }

unfoldable pub erase_first : ℕ → List ℕ → List ℕ
erase_first a [] = []
erase_first a (b ∷ rest) = if b == a then rest else b ∷ erase_first a rest

unfoldable pub remove_thread : ℕ → Threads → Threads
unfolding erase_first
remove_thread a t = record t { g_threads = erase_first a t.g_threads }

-- `thread_info::thread_info`, for the thread-local object at the address `a`, which the thread `id`
-- makes where it first uses it.
unfoldable pub construct_info : (a id : ℕ) → Threads → Threads
unfolding add_thread
construct_info a id t = add_thread a (
    set_info a
      (λ _. record {
        thread_id = id;
        should_switch_with = none;
        is_currently_switching = false;
        switching_to = none;
        sleeping_counter = 0;
      })
      t)

-- `find_thread`.
unfoldable pub find_in : ℕ → (ℕ → Info) → List ℕ → Option ℕ
find_in id info [] = none
find_in id info (a ∷ rest) = if (info a).thread_id == id then some a else find_in id info rest

unfoldable pub find_thread : ℕ → Threads → Option ℕ
unfolding find_in
find_thread id t = find_in id t.info t.g_threads

-- `get_current_thread_info`, where the code sees the `tls_thread_info` at the address `tls` and
-- runs on the thread `id`.
unfoldable pub get_current_thread_info : (tls id : ℕ) → Threads → ℕ × Threads
unfolding find_thread add_thread
get_current_thread_info tls id t =
    if (t.info tls).thread_id == id then (tls, t) else elim (find_thread id t) [
      | some a ↦ (a, t)
      | none ↦ (tls, add_thread tls (set_info tls (λ i. record i { thread_id = id }) t))
    ]

-- `try_start_switch`, under the global mutex.
unfoldable pub try_start_switch : (current target : ℕ) → Threads → Bool × Threads
try_start_switch current target t =
    if not (t.info current).is_currently_switching && not (t.info target).is_currently_switching
    then (
      true,
      set_info target (λ i. record i { is_currently_switching = true })
          (set_info current (λ i. record i { is_currently_switching = true }) t),
    )
    else (false, t)

-- `end_switch`, under the global mutex.
unfoldable pub end_switch : (originator target : ℕ) → Threads → Threads
end_switch originator target t =
    let t1 = set_info originator (λ i. record i { switching_to = none }) t in
    let t2 = set_info originator (λ i. record i { is_currently_switching = false }) t1 in
    let t3 = set_info target (λ i. record i { is_currently_switching = false }) t2 in
    set_info target (λ i. record i { should_switch_with = none }) t3

-- `prepare_sleep`, the `fetch_add` of `wake_up`, and whether the `wait` of `sleep` blocks when it
-- compares. Blocking and `notify_one` are in Sleep.
unfoldable pub prepare_sleep : Info → ℕ
prepare_sleep i = i.sleeping_counter

unfoldable pub wake_up : Info → Info
wake_up i = record i { sleeping_counter = (i.sleeping_counter + 1) % 2 ^ 32 }

unfoldable pub sleep_waits : Info → (sleep_id : ℕ) → Bool
sleep_waits i sleep_id = i.sleeping_counter == sleep_id

-- `sleep_helper`: the thread that it was made on, and the counter of that thread then.
pub record SleepHelper : Type 0 where
  pub current_thread : ℕ
  pub sleep_id : ℕ

unfoldable pub make_sleep_helper : (me : ℕ) → Threads → SleepHelper
unfolding prepare_sleep
make_sleep_helper me t = record { current_thread = me; sleep_id = prepare_sleep (t.info me) }

unfoldable pub get_wakeup_token : SleepHelper → Option ℕ
get_wakeup_token h = some h.current_thread

-- Whether the `sleep` that ends `sleep_helper::sleep` blocks when it compares.
unfoldable pub still_sleeps : SleepHelper → Threads → Bool
unfolding sleep_waits
still_sleeps h t = sleep_waits (t.info h.current_thread) h.sleep_id
