-- ===== src/AtomicWait/Tests.antt =====
-- Loads that count up, and a wait for 130.
use concore2full.Base.{ℕ, ◌<◌, ◌≡◌, refl, false, some, arith, leb}
use concore2full.AtomicWait.{atomic_wait, atomic_wait_lem}

below : (n : ℕ) → n < 130 → leb 130 n ≡ false
below n lt = ground arith

atomic_wait_lem_example : atomic_wait 200 (λ n. n) (λ v. leb 130 v) ≡ some (131, 2)
atomic_wait_lem_example =
    atomic_wait_lem (λ (n : ℕ). n) (λ v. leb 130 v) 130 200 refl below (omega arith)
