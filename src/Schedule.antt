-- ===== src/Schedule.antt =====
-- Threads that interleave: a schedule is the list of the agents that make a step, in order.
use concore2full.Base.{
  ℕ, zero, suc, ◌<◌, ◌≤◌, ◌≡◌, refl, ap, ◌⊎◌, inl, inr, List, [], ◌∷◌, ◌++◌, arith,
}
use native.Mathlib.Decide.{dec_lt}

module _ {S A : Type 0} (step : A → S → S) where
  unfoldable pub run : List A → S → S
  run [] s = s
  run (a ∷ rest) s = run rest (step a s)

  pub run-append : (p q : List A) (s : S) → run (p ++ q) s ≡ run q (run p s)
  unfolding run
  run-append [] q s = refl
  run-append (a ∷ p) q s = run-append p q (step a s)

  -- What every step keeps, every run keeps.
  pub run-keeps :
      (I : S → Type 0)
      → ((a : A) (s : S) → I s → I (step a s))
      → (plan : List A) (s : S) → I s
      → I (run plan s)
  unfolding run
  run-keeps I keep [] s i = i
  run-keeps I keep (a ∷ rest) s i = run-keeps I keep rest (step a s) (keep a s i)

module _ {A : Type 0} where
  abbrev pub In : A → List A → Type 0
  In a [] = ⊥
  In a (b ∷ rest) = (a ≡ b) ⊎ In a rest

  -- A schedule of `n` windows, in each of which every agent has a turn.
  pub data Fair : ℕ → List A → Type 0 where
    stop : Fair zero []
    window :
        {n : ℕ} {rest : List A} (w : List A)
        → ((a : A) → In a w)
        → Fair n rest
        → Fair (suc n) (w ++ rest)

  -- The same for some of the agents only.
  pub data FairTo (Turn : A → Type 0) : ℕ → List A → Type 0 where
    stop_to : FairTo Turn zero []
    window_to :
        {n : ℕ} {rest : List A} (w : List A)
        → ((a : A) → Turn a → In a w)
        → FairTo Turn n rest
        → FairTo Turn (suc n) (w ++ rest)

  Fair-FairTo : (Turn : A → Type 0) {n : ℕ} {plan : List A} → Fair n plan → FairTo Turn n plan
  Fair-FairTo Turn stop = stop_to
  Fair-FairTo Turn (window w all f) = window_to w (λ a _. all a) (Fair-FairTo Turn f)

-- Termination under every fair schedule: each step leaves the state or lowers the measure, and
-- unless all is done some agent lowers it.
module _ {S A : Type 0} (Turn : A → Type 0) (step : A → S → S) (I : S → Type 0)
    (keep : (a : A) (s : S) → I s → I (step a s)) (measure : S → ℕ) (Done : S → Type 0)
    (move : (a : A) (s : S) → I s → (step a s ≡ s) ⊎ (measure (step a s) < measure s))
    (live : (s : S) → I s → Done s ⊎ ((a : A) × Turn a × (measure (step a s) < measure s)))
    (stays : (a : A) (s : S) → Done s → Done (step a s)) where
  run-measure : (plan : List A) (s : S) → I s → measure (run step plan s) ≤ measure s
  unfolding run
  run-measure [] s i = omega arith
  run-measure (a ∷ rest) s i = elim (move a s i) [
    | inl e ↦ rw e (run-measure rest s i)
    | inr lt ↦ omega (arith, run-measure rest (step a s) (keep a s i))
  ]

  -- A window with a turn of an agent that lowers the measure lowers it.
  window-measure :
      (plan : List A) (s : S)
      → I s
      → (a : A) → measure (step a s) < measure s
      → In a plan
      → measure (run step plan s) < measure s
  unfolding run
  window-measure [] s i a lt t = absurd t
  window-measure (b ∷ rest) s i a lt t = elim (move b s i) [
    | inr lower ↦ omega (arith, run-measure rest (step b s) (keep b s i))
    | inl e ↦ elim t [
      | inl same ↦ absurd (omega (arith, ap measure e, ap (λ x. measure (step x s)) same))
      | inr later ↦ rw e (window-measure rest s i a lt later)
    ]
  ]

  pub FairTo-Done :
      {n : ℕ} {plan : List A}
      → FairTo Turn n plan
      → (s : S) → I s
      → measure s ≤ n
      → Done (run step plan s)
  unfolding run
  FairTo-Done stop_to s i h = elim (live s i) [ inl d ↦ d | inr (a, _, lt) ↦ absurd (omega arith) ]
  FairTo-Done (window_to {rest} w all f) s i h = rw (run-append step w rest s) (elim (live s i) [
    | inl d ↦ run-keeps step Done stays rest (run step w s) (run-keeps step Done stays w s d)
    | inr (a, turn, lt) ↦
        FairTo-Done f (run step w s) (run-keeps step I keep w s i)
          (omega (arith, window-measure w s i a lt (all a turn)))
  ])

module _ {S A : Type 0} (step : A → S → S) (I : S → Type 0)
    (keep : (a : A) (s : S) → I s → I (step a s)) (measure : S → ℕ) (Done : S → Type 0)
    (move : (a : A) (s : S) → I s → (step a s ≡ s) ⊎ (measure (step a s) < measure s))
    (live : (s : S) → I s → Done s ⊎ ((a : A) × (measure (step a s) < measure s)))
    (stays : (a : A) (s : S) → Done s → Done (step a s)) where
  all_live : (s : S) → I s → Done s ⊎ ((a : A) × Unit {0} × (measure (step a s) < measure s))
  all_live s i = elim (live s i) [ inl d ↦ inl d | inr (a, lt) ↦ inr (a, tt, lt) ]

  pub Fair-Done :
      {n : ℕ} {plan : List A} → Fair n plan → (s : S) → I s → measure s ≤ n → Done (run step plan s)
  Fair-Done f =
      FairTo-Done (λ _. Unit {0}) step I keep measure Done move all_live stays
        (Fair-FairTo (λ _. Unit {0}) f)

-- The same where threads may go round in circles: a step keeps the measure or lowers it, and an
-- agent that can lower it still can after a step that keeps it.
module _ {S A : Type 0} (step : A → S → S) (I : S → Type 0)
    (keep : (a : A) (s : S) → I s → I (step a s)) (measure : S → ℕ) (Done : S → Type 0)
    (falls : (a : A) (s : S) → I s → measure (step a s) ≤ measure s)
    (live : (s : S) → I s → Done s ⊎ ((a : A) × (measure (step a s) < measure s)))
    (persists : (a b : A) (s : S)
      → I s
      → measure (step a s) < measure s
      → measure (step b s) ≡ measure s
      → (a ≡ b) ⊎ (measure (step a (step b s)) < measure (step b s)))
    (stays : (a : A) (s : S) → Done s → Done (step a s)) where
  circle-measure : (plan : List A) (s : S) → I s → measure (run step plan s) ≤ measure s
  unfolding run
  circle-measure [] s i = omega arith
  circle-measure (a ∷ rest) s i =
      omega (arith, falls a s i, circle-measure rest (step a s) (keep a s i))

  circle-window :
      (plan : List A) (s : S)
      → I s
      → (a : A) → measure (step a s) < measure s
      → In a plan
      → measure (run step plan s) < measure s
  unfolding run
  circle-window [] s i a lt t = absurd t
  circle-window (b ∷ rest) s i a lt t = elim (dec_lt (measure (step b s)) (measure s)) [
    | yes lower ↦ omega (arith, circle-measure rest (step b s) (keep b s i))
    | no same ↦
        let e : measure (step b s) ≡ measure s = omega (arith, falls b s i) in
        elim t [
          | inl now ↦ absurd (omega (arith, e, ap (λ x. measure (step x s)) now))
          | inr later ↦ elim (persists a b s i lt e) [
            | inl now ↦ absurd (omega (arith, e, ap (λ x. measure (step x s)) now))
            | inr still ↦ omega (arith, e, circle-window rest (step b s) (keep b s i) a still later)
          ]
        ]
  ]

  pub circles-Done :
      {n : ℕ} {plan : List A} → Fair n plan → (s : S) → I s → measure s ≤ n → Done (run step plan s)
  unfolding run
  circles-Done stop s i h = elim (live s i) [ inl d ↦ d | inr (a, lt) ↦ absurd (omega arith) ]
  circles-Done (window {rest} w all f) s i h = rw (run-append step w rest s) (elim (live s i) [
    | inl d ↦ run-keeps step Done stays rest (run step w s) (run-keeps step Done stays w s d)
    | inr (a, lt) ↦
        circles-Done f (run step w s) (run-keeps step I keep w s i)
          (omega (arith, circle-window w s i a lt (all a)))
  ])
