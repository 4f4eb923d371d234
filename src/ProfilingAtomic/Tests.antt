-- ===== src/ProfilingAtomic/Tests.antt =====
-- An atomic that counts, and the theorems there.
use concore2full.Base.{ℕ, ◌<◌, ◌^◌, ◌≡◌, refl, true, false, some, List, [], ◌∷◌, arith}
use concore2full.ProfilingAtomic.{Name, Atomic, Op, Result, value, perform}
use concore2full.ProfilingAtomic.Laws.{
  run, std_run, untraced, addend, shows, run_lem, perform-shows,
}

abbrev seven : Atomic
seven = record { value = 7; events = [] }

abbrev program : List Op
program = Op.fetch_add 5 ∷ Op.compare_exchange true false 12 3 ∷ Op.load ∷ []

program-run :
    untraced (run true program seven) ≡ some (value 7 ∷ Result.swapped true 12 ∷ value 3 ∷ [], 3)
unfolding run perform
program-run = refl

run_lem_example : untraced (run true program seven) ≡ std_run program 7
run_lem_example = run_lem true program seven

abbrev twelve : Atomic
twelve = record { value = 12; events = record { name = Name.fetch_add; counter = 8 } ∷ [] }

operand : (v : ℕ) → addend (Op.fetch_add 5) ≡ some v → v < 2 ^ 32
operand v e = ground arith

-- The track ends with 8, and the value is 12.
perform-shows_example : shows 12 twelve.events ≡ false
unfolding perform
perform-shows_example =
    perform-shows (Op.fetch_add 5) seven twelve (value 7) (omega arith) operand refl
