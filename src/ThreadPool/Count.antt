-- ===== src/ThreadPool/Count.antt =====
-- How many tasks the lines hold together, and what a pool in order is.
use concore2full.Base.{
  ℕ, zero, suc, ◌+◌, ◌<◌, ◌≤◌, ◌≡◌, refl, ◌≢◌, inl, inr, true, false, List, [], ◌∷◌, arith, ◌==◌,
  ltb, ap, has, Bool-cases, erase, erase-eq_of_not_has, update, length,
}
use concore2full.WorkLine.{Ptr}
use concore2full.WorkLine.Lines.{IsPool}
use concore2full.ThreadPool.{ThreadPool, u32}

-- The tasks on the first `n` lines.
unfoldable pub total : ℕ → (ℕ → List Ptr) → ℕ
total zero lines = 0
total (suc n) lines = total n lines + length (lines n)

-- A pool `p` whose line `w` holds the tasks `lines w`: there is a line, only its own lines hold
-- tasks, and `num_tasks` counts them, modulo 2^32.
pub record Holds (p : ThreadPool) (lines : ℕ → List Ptr) : Type 0 where
  pub is_pool : IsPool p.mem lines
  pub some_line : 0 < p.work_line_count
  pub outside : (w : ℕ) → p.work_line_count ≤ w → lines w ≡ []
  pub counted : p.num_tasks ≡ u32 (total p.work_line_count lines)

total-update_outside :
    (n : ℕ) (lines : ℕ → List Ptr) (w : ℕ) (xs : List Ptr)
    → n ≤ w
    → total n (update lines w xs) ≡ total n lines
unfolding total
total-update_outside zero lines w xs h = refl
total-update_outside (suc n) lines w xs h = ground (arith, total-update_outside n lines w xs)

pub total-update :
    (n : ℕ) (lines : ℕ → List Ptr) (w : ℕ) (xs : List Ptr)
    → w < n
    → total n (update lines w xs) + length (lines w) ≡ total n lines + length xs
unfolding total
total-update zero lines w xs h = absurd (omega arith)
total-update (suc n) lines w xs h = elim (Bool-cases (n == w)) [
  | inl same ↦ ground (arith, total-update_outside n lines w xs)
  | inr other ↦ ground (arith, total-update n lines w xs)
]

length-erase : (t : ℕ) (xs : List ℕ) → has t xs ≡ true → length (erase t xs) + 1 ≡ length xs
length-erase t [] i = cc
length-erase t (x ∷ xs) i = ground (arith, length-erase t xs)

pub total-erase_outside :
    (n : ℕ) (lines : ℕ → List Ptr) (t : Ptr)
    → ((v : ℕ) → v < n → has t (lines v) ≡ false)
    → total n (λ v. erase t (lines v)) ≡ total n lines
unfolding total
total-erase_outside zero lines t out = refl
total-erase_outside (suc n) lines t out =
    rw (erase-eq_of_not_has t (lines n) (out n (omega arith)))
      (omega (arith, total-erase_outside n lines t (λ v h. out v (omega arith))))

-- Erasing a task that stands on the line `w` only.
pub total-erase :
    (n : ℕ) (lines : ℕ → List Ptr) (t : Ptr) (w : ℕ)
    → w < n
    → has t (lines w) ≡ true
    → ((v : ℕ) → v ≢ w → has t (lines v) ≡ false)
    → total n (λ v. erase t (lines v)) + 1 ≡ total n lines
unfolding total
total-erase zero lines t w h i out = absurd (omega arith)
total-erase (suc n) lines t w h i out = elim (Bool-cases (w == n)) [
  | inl same ↦
      let e : w ≡ n = ground arith in
      ground (
        arith,
        length-erase t (lines n),
        total-erase_outside n lines t (λ v b. out v (omega arith)),
      )
  | inr other ↦
      rw (erase-eq_of_not_has t (lines n) (out n (ground arith)))
        (ground (arith, total-erase n lines t w))
]

pub total-empty : (n : ℕ) (lines : ℕ → List Ptr) → ((w : ℕ) → lines w ≡ []) → total n lines ≡ 0
unfolding total
total-empty zero lines e = refl
total-empty (suc n) lines e = ground (arith, total-empty n lines e, e n)

pub total-nil :
    (n : ℕ) (lines : ℕ → List Ptr) (w : ℕ) → total n lines ≡ 0 → w < n → length (lines w) ≡ 0
unfolding total
total-nil zero lines w e lt = absurd (omega arith)
total-nil (suc n) lines w e lt = elim (Bool-cases (w == n)) [
  | inl last ↦ let same : w ≡ n = ground arith in omega (arith, e, ap (λ i. length (lines i)) same)
  | inr other ↦ total-nil n lines w (omega (arith, e)) (ground arith)
]

pub total-some :
    (n : ℕ) (lines : ℕ → List Ptr) → 0 < total n lines → (w : ℕ) × (w < n) × (0 < length (lines w))
unfolding total
total-some zero lines lt = absurd (omega arith)
total-some (suc n) lines lt = elim (Bool-cases (ltb 0 (length (lines n)))) [
  | inl here ↦ (n, omega arith, ground arith)
  | inr none_here ↦
      let e : length (lines n) ≡ 0 = ground arith in
      let (w, below, some_task) = total-some n lines (omega (arith, e)) in
      (w, omega arith, some_task)
]
