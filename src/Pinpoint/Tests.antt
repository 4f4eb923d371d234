-- ===== src/Pinpoint/Tests.antt =====
-- A run in which a flow comes back to its thread, and the theorems there.
use concore2full.Base.{ℕ, zero, suc, ◌≡◌, refl, inl, inr, true, false, List, [], ◌∷◌, ◌++◌}
use concore2full.Schedule.{run, In, Fair, stop, window}
use concore2full.ThreadInfo.{try_start_switch, end_switch, wake_up}
use concore2full.Switch
use concore2full.Switch.{Thread, first, second, Pc, access}
use concore2full.Pinpoint.{Act, snapshot, body, leave, outside, step}
use concore2full.Pinpoint.Progress.{go_on, remaining}
use concore2full.Pinpoint.Returns.{sync_execute-returns}
use concore2full.Pinpoint.Safety.{AllBack, after, sync_execute-lands}

abbrev turns : ℕ → List (Thread × Act)
turns zero = []
turns (suc n) =
    (first, body Switch.Action.inversion_checkpoint)
    ∷ (second, body Switch.Action.inversion_checkpoint)
    ∷ turns n

-- The flow 0 takes a snapshot on the first thread, and its work takes it to the second one.
abbrev away : List (Thread × Act)
away = (first, snapshot) ∷ (first, body (Switch.Action.revert second)) ∷ turns 14

-- The work is done, and the flow reverts its snapshot.
abbrev home : List (Thread × Act)
home = away ++ (second, leave) ∷ turns 16

leaves_thread : (after away).switch.pc second ≡ Pc.run 0
unfolding run step outside Switch.step access try_start_switch end_switch wake_up
leaves_thread = refl

comes_back : (after home).ended ≡ (first, first) ∷ []
unfolding run step outside Switch.step access try_start_switch end_switch wake_up
comes_back = refl

sync_execute-lands_example : AllBack (after home).ended
sync_execute-lands_example = sync_execute-lands home

abbrev rounds : ℕ → List Thread
rounds zero = []
rounds (suc n) = (first ∷ second ∷ []) ++ rounds n

every : (x : Thread) → In x (first ∷ second ∷ [])
every first = inl refl
every second = inr (inl refl)

rounds-Fair : (n : ℕ) → Fair n (rounds n)
rounds-Fair zero = stop
rounds-Fair (suc n) = window (first ∷ second ∷ []) every (rounds-Fair n)

-- The flow 0 has begun to revert on the second thread.
abbrev leaving : List (Thread × Act)
leaving = away ++ (second, leave) ∷ []

leaving_run : ((after leaving).reverting 0 ≡ true) × ((after leaving).snapshots 0 ≡ first ∷ [])
unfolding run step outside Switch.step access try_start_switch end_switch wake_up
leaving_run = (refl, refl)

sync_execute-returns_example :
    let s' = run go_on (rounds 128) (after leaving) in
    (s'.reverting 0 ≡ false) × (s'.snapshots 0 ≡ remaining (after leaving) 0)
sync_execute-returns_example = sync_execute-returns leaving (rounds 128) 0 (rounds-Fair 128)
