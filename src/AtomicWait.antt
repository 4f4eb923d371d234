-- ===== src/AtomicWait.antt =====
-- `wait_with_backoff` and `atomic_wait` (include/concore2full/detail/atomic_wait.h). What the calls of
-- the condition return, or what the loads of the atomic read, are sequences; the loop has fuel,
-- `none` being that it is still waiting.
mod Tests
use concore2full.Base.{
  ℕ, zero, suc, ◌+◌, ◌*◌, ◌/◌, ◌%◌, ◌^◌, ◌≤◌, ◌<◌, ◌≡◌, ◌⊎◌, inl, inr, ◌≢◌, refl, sym, ap, ◌∙◌,
  Bool, true, false, Option, none, some, arith, if◌then◌else◌, ltb, Bool-cases,
}

abbrev polling_count : ℕ
polling_count = 64

-- The loop, after `calls` calls of the condition and `yields` yields, with its variable `i`; the
-- result counts the calls and the yields.
unfoldable pub backoff_loop : (f : ℕ → Bool) (fuel calls i yields : ℕ) → Option (ℕ × ℕ)
backoff_loop f zero calls i yields = none
backoff_loop f (suc fuel) calls i yields =
    let polling = backoff_loop f fuel (calls + 1) ((i + 1) % 2 ^ 32) yields in
    let yielding = backoff_loop f fuel (calls + 1) 0 (yields + 1) in
    if f calls then some (calls + 1, yields) else if ltb i polling_count then polling else yielding

unfoldable pub wait_with_backoff : (fuel : ℕ) → (ℕ → Bool) → Option (ℕ × ℕ)
unfolding backoff_loop
wait_with_backoff fuel f = backoff_loop f fuel 0 0 0

unfoldable pub atomic_wait {ℓ} : {A : Type ℓ} (fuel : ℕ) (a : ℕ → A) → (A → Bool) → Option (ℕ × ℕ)
unfolding wait_with_backoff
atomic_wait fuel a f = wait_with_backoff fuel (λ n. f (a n))

module _ (f : ℕ → Bool) (last : ℕ) (now : f last ≡ true)
    (before : (n : ℕ) → n < last → f n ≡ false) where
  backoff_loop-some :
      (fuel calls i yields : ℕ)
      → calls ≤ last
      → last < calls + fuel
      → i ≤ 64
      → i + 65 * yields ≡ calls
      → backoff_loop f fuel calls i yields ≡ some (last + 1, last / 65)
  unfolding backoff_loop
  backoff_loop-some zero calls i yields le enough small e = absurd (omega arith)
  backoff_loop-some (suc fuel) calls i yields le enough small e = elim (Bool-cases (f calls)) [
    | inl found ↦ let at : calls ≡ last = ground (arith, before calls) in rw found (ground arith)
    | inr failed ↦
        let later : calls ≢ last = λ same. cc (sym failed ∙ ap f same ∙ now) in
        rw failed (elim (Bool-cases (ltb i 64)) [
          | inl poll ↦ rw poll (
              backoff_loop-some fuel (calls + 1) ((i + 1) % 2 ^ 32) yields (omega arith)
                (omega arith) (ground arith) (ground arith))
          | inr yield ↦ rw yield (
              backoff_loop-some fuel (calls + 1) 0 (yields + 1) (omega arith) (omega arith)
                (omega arith) (ground arith))
        ])
  ]

-- `atomic_wait` returns right after the first load whose value meets the condition, whichever load
-- that is, and it has yielded the thread once for each 65 loads before.
pub atomic_wait_lem {ℓ} :
    {A : Type ℓ} (a : ℕ → A) (f : A → Bool) (last fuel : ℕ)
    → f (a last) ≡ true
    → ((n : ℕ) → n < last → f (a n) ≡ false)
    → last < fuel
    → atomic_wait fuel a f ≡ some (last + 1, last / 65)
unfolding atomic_wait
atomic_wait_lem a f last fuel now before enough =
    backoff_loop-some (λ n. f (a n)) last now before fuel 0 0 0 (omega arith) (omega arith)
      (omega arith) (omega arith)
