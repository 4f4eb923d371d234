-- ===== src/ProfilingAtomic.antt =====
-- `profiling::atomic` (include/concore2full/profiling_atomic.h) for `uint32_t`: each operation of the
-- atomic also emits a trace, if the build has profiling. Values are 32-bit patterns; `volatile` and
-- the memory orders make no difference to a single thread.
pub mod Laws
mod Tests
use Prim.Native.Nat.{bit_and, bit_or, bit_xor}
use concore2full.Base.{
  ℕ, ◌+◌, ◌-◌, ◌%◌, ◌^◌, Bool, true, false, ◌&&◌, not, Option, none, some, List, [], ◌∷◌, ◌==◌,
  if◌then◌else◌,
}

-- The names that the operations emit.
pub data Name : Type 0 where
  store load exchange : Name
  compare_exchange_success compare_exchange_fail : (weak : Bool) → Name
  wait notify_one notify_all fetch_add fetch_sub fetch_and fetch_or fetch_xor : Name

pub record Event : Type 0 where
  pub name : Name
  pub counter : ℕ

-- The atomic, and what was emitted for it, the last event first.
pub record Atomic : Type 0 where
  pub value : ℕ
  pub events : List Event

-- The operations of the class. `spurious` says that a weak exchange fails without cause, which the
-- standard allows.
pub data Op : Type 0 where
  assign store exchange : (v : ℕ) → Op
  load convert : Op
  compare_exchange : (weak spurious : Bool) (expected v : ℕ) → Op
  wait : (v : ℕ) → Op
  notify_one notify_all : Op
  fetch_add fetch_sub fetch_and fetch_or fetch_xor : (v : ℕ) → Op
  post_increment post_decrement pre_increment pre_decrement : Op
  add_assign sub_assign and_assign or_assign xor_assign : (v : ℕ) → Op

-- What an operation returns: nothing, a value, or whether it succeeded with what is then in
-- `expected`.
pub data Result : Type 0 where
  nothing : Result
  value : (v : ℕ) → Result
  swapped : (success : Bool) (expected : ℕ) → Result

abbrev pub add32 : ℕ → ℕ → ℕ
add32 a b = (a + b) % 2 ^ 32

abbrev pub sub32 : ℕ → ℕ → ℕ
sub32 a b = (a + 2 ^ 32 - b % 2 ^ 32) % 2 ^ 32

-- `lite` is `USE_PROFILING_LITE`.
module _ (lite : Bool) where
  unfoldable pub do_trace : Name → ℕ → Atomic → Atomic
  do_trace name v a =
      if lite then record a { events = (record { name = name; counter = v }) ∷ a.events } else a

  -- The overload that loads the value itself.
  unfoldable pub trace_value : Name → Atomic → Atomic
  unfolding do_trace
  trace_value name a = do_trace name a.value a

  unfoldable pub store_to : ℕ → Atomic → Atomic
  unfolding do_trace
  store_to v a = do_trace Name.store v (record a { value = v })

  unfoldable pub load_from : Atomic → Atomic × ℕ
  unfolding do_trace
  load_from a = (do_trace Name.load a.value a, a.value)

  unfoldable pub exchange_with : ℕ → Atomic → Atomic × ℕ
  unfolding do_trace
  exchange_with v a = (do_trace Name.exchange v (record a { value = v }), a.value)

  unfoldable pub compare_exchange_with :
      (weak spurious : Bool) (expected v : ℕ) → Atomic → Atomic × Bool × ℕ
  unfolding do_trace
  compare_exchange_with weak spurious expected v a =
      if a.value == expected && not (weak && spurious)
      then (do_trace (compare_exchange_success weak) v (record a { value = v }), true, expected)
      else (do_trace (compare_exchange_fail weak) a.value a, false, a.value)

  -- `none` is a wait that goes on.
  unfoldable pub wait_for : ℕ → Atomic → Option Atomic
  unfolding trace_value
  wait_for v a = if a.value == v then none else some (trace_value Name.wait a)

  unfoldable pub add : ℕ → Atomic → Atomic × ℕ
  unfolding do_trace
  add v a =
      (do_trace Name.fetch_add (add32 a.value 1) (record a { value = add32 a.value v }), a.value)

  unfoldable pub sub : ℕ → Atomic → Atomic × ℕ
  unfolding do_trace
  sub v a =
      (do_trace Name.fetch_sub (sub32 a.value 1) (record a { value = sub32 a.value v }), a.value)

  -- `fetch_and`, `fetch_or` and `fetch_xor`.
  unfoldable pub bitwise : Name → (ℕ → ℕ → ℕ) → ℕ → Atomic → Atomic × ℕ
  unfolding trace_value
  bitwise name f v a = (trace_value name (record a { value = f a.value v }), a.value)

  abbrev pub returns : Atomic × ℕ → Option (Atomic × Result)
  returns (a, v) = some (a, value v)

  -- The operators combine what the operation returns with their operand.
  abbrev pub then_returns : (ℕ → ℕ) → Atomic × ℕ → Option (Atomic × Result)
  then_returns f (a, v) = some (a, value (f v))

  unfoldable pub perform : Op → Atomic → Option (Atomic × Result)
  unfolding store_to load_from exchange_with compare_exchange_with wait_for add sub bitwise
      trace_value
  perform (Op.assign v) a = some (store_to v a, value v)
  perform (Op.store v) a = some (store_to v a, nothing)
  perform (Op.exchange v) a = returns (exchange_with v a)
  perform Op.load a = returns (load_from a)
  perform Op.convert a = returns (load_from a)
  perform (Op.compare_exchange weak spurious expected v) a =
      let r = compare_exchange_with weak spurious expected v a in some (r.0, swapped r.1 r.2)
  perform (Op.wait v) a = elim (wait_for v a) [ none ↦ none | some a' ↦ some (a', nothing) ]
  perform Op.notify_one a = some (trace_value Name.notify_one a, nothing)
  perform Op.notify_all a = some (trace_value Name.notify_all a, nothing)
  perform (Op.fetch_add v) a = returns (add v a)
  perform (Op.fetch_sub v) a = returns (sub v a)
  perform (Op.fetch_and v) a = returns (bitwise Name.fetch_and bit_and v a)
  perform (Op.fetch_or v) a = returns (bitwise Name.fetch_or bit_or v a)
  perform (Op.fetch_xor v) a = returns (bitwise Name.fetch_xor bit_xor v a)
  perform Op.post_increment a = returns (add 1 a)
  perform Op.post_decrement a = returns (sub 1 a)
  perform Op.pre_increment a = then_returns (λ r. add32 r 1) (add 1 a)
  perform Op.pre_decrement a = then_returns (λ r. sub32 r 1) (sub 1 a)
  perform (Op.add_assign v) a = then_returns (λ r. add32 r v) (add v a)
  perform (Op.sub_assign v) a = then_returns (λ r. sub32 r v) (sub v a)
  perform (Op.and_assign v) a = then_returns (λ r. bit_and r v) (bitwise Name.fetch_and bit_and v a)
  perform (Op.or_assign v) a = then_returns (λ r. bit_or r v) (bitwise Name.fetch_or bit_or v a)
  perform (Op.xor_assign v) a = then_returns (λ r. bit_xor r v) (bitwise Name.fetch_xor bit_xor v a)
