-- ===== src/Switch/Tests.antt =====
-- Runs of a switch, and the theorems there.
use concore2full.Base.{
  ℕ, zero, suc, ◌≡◌, ◌≢◌, ◌⊎◌, inl, inr, refl, true, Option, none, List, [], ◌∷◌, ◌++◌,
}
use concore2full.Schedule.{run as run_plan, In, Fair, stop, window}
use concore2full.Switch.{
  Thread, first, second, after_request, Pc, run, Action, work, inversion_checkpoint, revert, access,
  step,
}
use concore2full.Switch.Steps.{after}
use concore2full.Switch.Safety.{view, exchanged, switch-exchange, switch-asserts}
use concore2full.Switch.Progress.{go_on, outside, switch-Done}

abbrev turn : Thread → Thread × Action
turn x = (x, inversion_checkpoint)

-- The flow 0 asks to get to the second thread, and its thread waits for the answer.
abbrev asked : List (Thread × Action)
asked =
    (first, revert second)
    ∷ turn first
    ∷ turn first
    ∷ turn first
    ∷ turn first
    ∷ turn first
    ∷ turn first
    ∷ []

-- The second thread makes an inversion checkpoint and is about to publish its continuation.
abbrev answering : List (Thread × Action)
answering = asked ++ (turn second ∷ turn second ∷ turn second ∷ turn second ∷ [])

-- Both go on until the switch is over.
abbrev switched : List (Thread × Action)
switched =
    answering
    ++ (turn second
        ∷ turn second
        ∷ turn first
        ∷ turn first
        ∷ turn first
        ∷ turn first
        ∷ turn second
        ∷ [])

switched-run : ((after switched).pc first ≡ run 1) × ((after switched).pc second ≡ run 0)
unfolding run_plan step access
switched-run = (refl, refl)

switch-exchange_example :
    ((view (after answering) ≡ (0, 1)) ⊎ (view (after answering) ≡ (1, 0)))
    × (view (step (second, work) (after answering)) ≡ exchanged (view (after answering)))
unfolding run_plan step access
switch-exchange_example = switch-exchange answering second work

switch-asserts_example :
    let s = (after answering).shared in
    let p = (after answering).pc second in
    ((f t : ℕ) → p ≡ Pc.wait_done f t → t ≡ 1)
    × ((f r : ℕ) → p ≡ Pc.request f r → (r ≢ 1) × ((s.threads.info 1).switching_to ≢ none))
    × ((f r : ℕ) (c : Option ℕ) → p ≡ Pc.jump f → s.cont f ≡ after_request r c → r ≡ 1)
    × ((f t : ℕ) → p ≡ Pc.started f t → t ≢ 1)
switch-asserts_example = switch-asserts answering second

-- The thread that the flow 0 has asked for.
abbrev asked_for : ℕ
asked_for = 1

every : (x : Thread) → In x (first ∷ second ∷ [])
every first = inl refl
every second = inr (inl refl)

abbrev rounds : ℕ → List Thread
rounds zero = []
rounds (suc n) = (first ∷ second ∷ []) ++ rounds n

rounds-Fair : (n : ℕ) → Fair n (rounds n)
rounds-Fair zero = stop
rounds-Fair (suc n) = window (first ∷ second ∷ []) every (rounds-Fair n)

switch-Done_example :
    let s = run_plan go_on (rounds 126) (after asked) in
    (outside (s.pc first) ≡ true) × (outside (s.pc second) ≡ true)
switch-Done_example = switch-Done asked (rounds 126) (rounds-Fair 126)
