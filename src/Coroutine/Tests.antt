-- ===== src/Coroutine/Tests.antt =====
-- A context library that keeps its continuations in a list, runs of coroutines on it, and the
-- theorems there.
use concore2full.Base.{
  ℕ, ◌+◌, ◌<◌, ◌≡◌, ◌≢◌, ◌⊎◌, refl, Option, none, some, List, [], ◌∷◌, arith, length, ◌==◌,
  if◌then◌else◌, update,
}
use concore2full.Stack.{Control}
use concore2full.Coroutine.{Transfer, Top, Code, returned, fault, callcc, resume}
use concore2full.Coroutine.Context.{ContextApi, Added, IsLawful, Shared, call, calls}
use concore2full.Coroutine.Laws.{Keeps}
use concore2full.Coroutine.Failure.{Throws, Enters, callcc-Throws}
use concore2full.Coroutine.Exchange.{publish, Switched, callcc_exchange, resume-resume}

abbrev Point : Type 0
Point = Transfer → Code

-- The continuation `c` is the one that was made when there were `c` of them.
abbrev point : List Point → ℕ → Option Point
point [] c = none
point (p ∷ w) c = if c == length w + 1 then some p else point w c

abbrev jump : Option Point → Top → Point → List Point → Option ℕ × Code × List Point
jump none t here w = (none, fault, w)
jump (some p) t here w = (t.freed, p t.transfer, here ∷ w)

abbrev plain : Option Control → List Point → Transfer
plain control w = record { fctx = length w + 1; control = control }

abbrev listed : ContextApi
listed = record {
  World = List Point;
  point = point;
  make = λ sp size entry w. (length w + 1, entry ∷ w);
  jump = λ to control here w.
      let r = jump (point w to) (record { freed = none; transfer = plain control w }) here w in
      (r.1, r.2);
  ontop = λ to control top here w. jump (point w to) (top (plain control w)) here w;
}

point_none : (w : List Point) (c : ℕ) → length w < c → point w c ≡ none
point_none [] c lt = refl
point_none (p ∷ w) c lt = ground (arith, point_none w c)

cons-Added : (w : List Point) (to : ℕ) (p : Point) → Added listed w (p ∷ w) to (length w + 1) p
cons-Added w to p = record {
  ne_null = λ e. absurd (omega arith);
  is_new = point_none w (length w + 1) (omega arith);
  here = ground arith;
  others = λ j ne _. ground arith;
}

listed-IsLawful : IsLawful listed
listed-IsLawful = record {
  make_lem = λ sp size entry w. cons-Added w (length w + 1) entry;
  jump_lem = λ to control here p w at. (length w + 1, here ∷ w, cons-Added w to here, rw at refl);
  ontop_lem =
      λ to control top here p w at. (length w + 1, here ∷ w, cons-Added w to here, rw at refl);
}

-- A flow is suspended as the continuation 1, which stands in the cell 1.
abbrev ending : Point
ending _ = returned

abbrev one_flow : Shared listed
one_flow = record { world = ending ∷ []; blocks = []; cells = update (λ _. 0) 1 1 }

-- A rest of which one sees what `callcc` returned.
abbrev keep : ℕ → ℕ → Code
keep cell c = Code.store cell c returned

switched_run : (calls listed 1024 64 7 (callcc 48 8 (publish 0 1) (keep 2), one_flow)).0 ≡ returned
unfolding calls call callcc
switched_run = refl

callcc_exchange_example :
    (worker : Code) × (s1 : Shared listed) × (s2 : Shared listed) × (s3 : Shared listed) × (calls
        listed 1024 4096 4
        (callcc 48 8 (publish 1 0) (keep 3), one_flow)
      ≡ (worker, s1))
    × (calls listed 1024 64 6 (callcc 48 8 (publish 0 1) (keep 2), s1) ≡ (keep 3 0, s2))
    × (calls listed 1024 4096 2 (worker, s2) ≡ (keep 2 0, s3))
    × (s3.blocks ≡ [])
    × Keeps listed (ending ∷ []) s3.world
callcc_exchange_example =
    callcc_exchange listed listed-IsLawful 1024 48 8 64 4096 0 1 (keep 2) (keep 3) one_flow
      (λ e. absurd (omega arith)) (λ e. absurd (omega arith)) (λ e. absurd (omega arith))

abbrev resuming_flow : Shared listed
resuming_flow = record { world = (λ t. resume t.fctx (keep 3)) ∷ []; blocks = []; cells = λ _. 0 }

resume-resume_example :
    (c : ℕ) × (s' : Shared listed) × (calls listed 1024 64 2 (resume 1 (keep 2), resuming_flow)
      ≡ (keep 2 c, s'))
    × Switched listed resuming_flow s' 1 c (keep 3)
    × (s'.cells ≡ (λ _. 0))
resume-resume_example =
    resume-resume listed listed-IsLawful 1024 64 1 (keep 2) (keep 3) resuming_flow
      (λ e. absurd (omega arith)) refl

-- What `malloc` returns when there is no memory.
abbrev no_memory : ℕ
no_memory = 0

callcc-Throws_example :
    ((no_memory ≡ 0) × Throws listed 1024 48 8 no_memory (publish 0 1) (keep 2) one_flow)
    ⊎ ((no_memory ≢ 0)
        × Enters listed 1024 48 8 no_memory (publish 0 1) (keep 2) one_flow
        × (Throws listed 1024 48 8 no_memory (publish 0 1) (keep 2) one_flow → ⊥))
callcc-Throws_example =
    callcc-Throws listed listed-IsLawful 1024 48 8 no_memory (publish 0 1) (keep 2) one_flow
