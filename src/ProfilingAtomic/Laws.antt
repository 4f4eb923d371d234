-- ===== src/ProfilingAtomic/Laws.antt =====
-- `profiling::atomic` against `std::atomic`, and what its counter track shows.
use Prim.Native.Nat.{bit_and, bit_or, bit_xor}
use concore2full.Base.{
  ℕ, ◌^◌, ◌<◌, ◌≡◌, refl, Bool, true, false, ◌&&◌, not, Option, none, some, List, [], ◌∷◌, ◌==◌,
  if◌then◌else◌, arith,
}
use concore2full.ProfilingAtomic.{
  Event, Atomic, Op, Result, nothing, value, swapped, add32, sub32, perform,
}

-- The operations of `std::atomic<uint32_t>` on its value, and the operators on it.
std_perform : Op → ℕ → Option (ℕ × Result)
std_perform (Op.assign v) x = some (v, value v)
std_perform (Op.store v) x = some (v, nothing)
std_perform (Op.exchange v) x = some (v, value x)
std_perform Op.load x = some (x, value x)
std_perform Op.convert x = some (x, value x)
std_perform (Op.compare_exchange weak spurious expected v) x =
    if x == expected && not (weak && spurious)
    then some (v, swapped true expected)
    else some (x, swapped false x)
std_perform (Op.wait v) x = if x == v then none else some (x, nothing)
std_perform Op.notify_one x = some (x, nothing)
std_perform Op.notify_all x = some (x, nothing)
std_perform (Op.fetch_add v) x = some (add32 x v, value x)
std_perform (Op.fetch_sub v) x = some (sub32 x v, value x)
std_perform (Op.fetch_and v) x = some (bit_and x v, value x)
std_perform (Op.fetch_or v) x = some (bit_or x v, value x)
std_perform (Op.fetch_xor v) x = some (bit_xor x v, value x)
std_perform Op.post_increment x = some (add32 x 1, value x)
std_perform Op.post_decrement x = some (sub32 x 1, value x)
std_perform Op.pre_increment x = some (add32 x 1, value (add32 x 1))
std_perform Op.pre_decrement x = some (sub32 x 1, value (sub32 x 1))
std_perform (Op.add_assign v) x = some (add32 x v, value (add32 x v))
std_perform (Op.sub_assign v) x = some (sub32 x v, value (sub32 x v))
std_perform (Op.and_assign v) x = some (bit_and x v, value (bit_and x v))
std_perform (Op.or_assign v) x = some (bit_or x v, value (bit_or x v))
std_perform (Op.xor_assign v) x = some (bit_xor x v, value (bit_xor x v))

-- A program on one atomic: the results of its operations and the value at the end; `none` if it
-- waits for ever.
pub std_run : List Op → ℕ → Option (List Result × ℕ)
std_run [] x = some ([], x)
std_run (o ∷ rest) x = elim (std_perform o x) [
  | none ↦ none
  | some (x', r) ↦ elim (std_run rest x') [ none ↦ none | some (rs, y) ↦ some (r ∷ rs, y) ]
]

unfoldable pub run : Bool → List Op → Atomic → Option (List Result × Atomic)
unfolding perform
run lite [] a = some ([], a)
run lite (o ∷ rest) a = elim (perform lite o a) [
  | none ↦ none
  | some (a', r) ↦ elim (run lite rest a') [ none ↦ none | some (rs, b) ↦ some (r ∷ rs, b) ]
]

-- What is left of a run without its trace.
abbrev pub untraced : Option (List Result × Atomic) → Option (List Result × ℕ)
untraced none = none
untraced (some (rs, a)) = some (rs, a.value)

abbrev untraced_one : Option (Atomic × Result) → Option (ℕ × Result)
untraced_one none = none
untraced_one (some (a, r)) = some (a.value, r)

perform-std :
    (lite : Bool) (o : Op) (a : Atomic) → untraced_one (perform lite o a) ≡ std_perform o a.value
unfolding perform std_perform
perform-std true (Op.assign v) a = refl
perform-std _ _ a = ground arith

run_lem_first :
    (lite : Bool) (o : Op) (rest : List Op) (a : Atomic) (r : Option (Atomic × Result))
    → perform lite o a ≡ r
    → ((b : Atomic) → untraced (run lite rest b) ≡ std_run rest b.value)
    → untraced (run lite (o ∷ rest) a) ≡ std_run (o ∷ rest) a.value
unfolding run std_run
run_lem_first lite o rest a none e ih = ground (arith, perform-std lite o a)
run_lem_first lite o rest a (some (b, v)) e ih = ground (arith, perform-std lite o a, ih b)

-- With and without profiling, every program on the atomic gives the results and the value that it
-- gives on a `std::atomic`, and waits for ever where it does there.
pub run_lem :
    (lite : Bool) (program : List Op) (a : Atomic)
    → untraced (run lite program a) ≡ std_run program a.value
unfolding run std_run
run_lem lite [] a = refl
run_lem lite (o ∷ rest) a = run_lem_first lite o rest a (perform lite o a) refl (run_lem lite rest)

-- The operand by which an operation adds or subtracts, if it does.
abbrev pub addend : Op → Option ℕ
addend (Op.fetch_add v) = some v
addend (Op.fetch_sub v) = some v
addend (Op.add_assign v) = some v
addend (Op.sub_assign v) = some v
addend _ = none

-- The counter track ends with the given value.
abbrev pub shows : ℕ → List Event → Bool
shows v [] = false
shows v (e ∷ rest) = e.counter == v

-- Whether the operation adds or subtracts nothing but 1.
abbrev pub by_one : Option ℕ → Bool
by_one none = true
by_one (some v) = v == 1

-- After an operation the counter track ends with the value of the atomic, except after an addition
-- or a subtraction of another number than 1, after which it ends with another value.
pub perform-shows :
    (o : Op) (a b : Atomic) (r : Result)
    → a.value < 2 ^ 32
    → ((v : ℕ) → addend o ≡ some v → v < 2 ^ 32)
    → perform true o a ≡ some (b, r)
    → shows b.value b.events ≡ by_one (addend o)
unfolding perform
perform-shows (Op.fetch_add v) a b r lt small e = ground (arith, small v refl)
perform-shows (Op.fetch_sub v) a b r lt small e = ground (arith, small v refl)
perform-shows (Op.add_assign v) a b r lt small e = ground (arith, small v refl)
perform-shows (Op.sub_assign v) a b r lt small e = ground (arith, small v refl)
perform-shows _ a b r lt small e = ground arith
