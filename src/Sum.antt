-- ===== src/Sum.antt =====
-- Sums over the numbers below a bound.
use concore2full.Base.{
  ℕ, zero, suc, ◌+◌, ◌<◌, ◌≤◌, ◌≡◌, ◌*◌, ◌⊎◌, ◌∙◌, refl, ap, arith, update, ◌==◌, Bool-cases, inl,
  inr,
}

unfoldable pub sum : ℕ → (ℕ → ℕ) → ℕ
sum zero w = 0
sum (suc n) w = w n + sum n w

pub sum-update_outside : (n k x : ℕ) (w : ℕ → ℕ) → n ≤ k → sum n (update w k x) ≡ sum n w
unfolding sum
sum-update_outside zero k x w ge = refl
sum-update_outside (suc n) k x w ge = ground (arith, sum-update_outside n k x w)

pub sum-update : (n k x : ℕ) (w : ℕ → ℕ) → k < n → sum n (update w k x) + w k ≡ sum n w + x
unfolding sum
sum-update zero k x w lt = absurd (omega arith)
sum-update (suc n) k x w lt = ground (arith, sum-update n k x w, sum-update_outside n k x w)

pub sum_le : (n : ℕ) (w : ℕ → ℕ) → ((i : ℕ) → w i ≤ 1) → sum n w ≤ n
unfolding sum
sum_le zero w le = omega arith
sum_le (suc n) w le = omega (arith, le n, sum_le n w le)

-- A full sum of ones and zeros has ones only.
pub sum_full : (n k : ℕ) (w : ℕ → ℕ) → ((i : ℕ) → w i ≤ 1) → sum n w ≡ n → k < n → w k ≡ 1
unfolding sum
sum_full zero k w le e lt = absurd (omega arith)
sum_full (suc n) k w le e lt = ground (arith, le n, sum_le n w le, sum_full n k w le)

pub sum_zero : (n : ℕ) → sum n (λ _. 0) ≡ 0
unfolding sum
sum_zero zero = refl
sum_zero (suc n) = omega (arith, sum_zero n)

pub sum_ext : (n : ℕ) (v w : ℕ → ℕ) → ((i : ℕ) → v i ≡ w i) → sum n v ≡ sum n w
unfolding sum
sum_ext zero v w e = refl
sum_ext (suc n) v w e = omega (arith, e n, sum_ext n v w e)

updated : (n x : ℕ) (w : ℕ → ℕ) → update w n x n ≡ x
updated n x w = ground arith

the_suc : (n : ℕ) → n + 1 ≡ suc n
the_suc n = omega arith

pub sum_last : (n : ℕ) (w : ℕ → ℕ) → sum (n + 1) w ≡ w n + sum n w
unfolding sum
sum_last n w = ap (λ m. sum m w) (the_suc n)

-- The weights of what a family holds, when one member changes.
pub sum-map_update {ℓ} :
    {A : Type ℓ} (n k : ℕ) (a : A) (weight : A → ℕ) (f : ℕ → A)
    → k < n
    → sum n (λ j. weight (update f k a j)) + weight (f k) ≡ sum n (λ j. weight (f j)) + weight a
sum-map_update n k a weight f lt = omega (
  arith,
  sum-update n k (weight a) (λ j. weight (f j)) lt,
  sum_ext n (λ j. weight (update f k a j)) (update (λ j. weight (f j)) k (weight a))
      (λ j. elim (Bool-cases (j == k)) [ inl e ↦ rw e refl | inr e ↦ rw e refl ]),
)

pub sum_term : (n k : ℕ) (w : ℕ → ℕ) → k < n → w k ≤ sum n w
unfolding sum
sum_term zero k w lt = absurd (omega arith)
sum_term (suc n) k w lt = ground (arith, sum_term n k w)

pub sum_none : (n : ℕ) (w : ℕ → ℕ) → ((j : ℕ) → j < n → w j ≡ 0) → sum n w ≡ 0
unfolding sum
sum_none zero w none_left = refl
sum_none (suc n) w none_left =
    omega (arith, none_left n (omega arith), sum_none n w (λ j lt. none_left j (omega arith)))

-- The weights of what a family holds, when a member is added.
pub sum-map_add {ℓ} :
    {A : Type ℓ} (n : ℕ) (a : A) (weight : A → ℕ) (f : ℕ → A)
    → sum (n + 1) (λ j. weight (update f n a j)) ≡ sum n (λ j. weight (f j)) + weight a
unfolding sum
sum-map_add n a weight f = omega (
  arith,
  sum_ext (n + 1) (λ j. weight (update f n a j)) (update (λ j. weight (f j)) n (weight a))
      (λ j. elim (Bool-cases (j == n)) [ inl e ↦ rw e refl | inr e ↦ rw e refl ]),
  sum-update_outside n n (weight a) (λ j. weight (f j)) (omega arith),
  sum_last n (update (λ j. weight (f j)) n (weight a)),
  updated n (weight a) (λ j. weight (f j)),
)

pub sum_le_mul : (n c : ℕ) (w : ℕ → ℕ) → ((i : ℕ) → i < n → w i ≤ c) → sum n w ≤ c * n
unfolding sum
sum_le_mul zero c w le = omega arith
sum_le_mul (suc n) c w le =
    grind (arith, le n (omega arith), sum_le_mul n c w (λ i lt. le i (omega arith)))

-- No number below the bound has a weight, or there is one that has.
pub all_or_some :
    (n : ℕ) (w : ℕ → ℕ) → ((k : ℕ) → k < n → w k ≡ 0) ⊎ ((k : ℕ) × (k < n) × (0 < w k))
all_or_some zero w = inl (λ k lt. absurd (omega arith))
all_or_some (suc n) w = elim (Bool-cases (w n == 0)) [
  | inr some_w ↦ inr (n, omega arith, ground arith)
  | inl none_w ↦ elim (all_or_some n w) [
    | inr (k, lt, pos) ↦ inr (k, omega arith, pos)
    | inl zeros ↦ inl (λ k lt. elim (Bool-cases (k == n)) [
      | inl e ↦ let same : k ≡ n = ground arith in ap w same ∙ ground arith
      | inr e ↦ zeros k (ground arith)
    ])
  ]
]

pub sum_mono : (n : ℕ) (v w : ℕ → ℕ) → ((i : ℕ) → v i ≤ w i) → sum n v ≤ sum n w
unfolding sum
sum_mono zero v w le = omega arith
sum_mono (suc n) v w le = omega (arith, le n, sum_mono n v w le)

pub sum_both_le : (n : ℕ) (v w : ℕ → ℕ) → ((i : ℕ) → i < n → v i + w i ≤ 1) → sum n v + sum n w ≤ n
unfolding sum
sum_both_le zero v w le = omega arith
sum_both_le (suc n) v w le =
    omega (arith, le n (omega arith), sum_both_le n v w (λ i lt. le i (omega arith)))

-- Where two sums of ones and zeros fill the range together, each number has a one.
pub sum_both_full :
    (n k : ℕ) (v w : ℕ → ℕ)
    → ((i : ℕ) → i < n → v i + w i ≤ 1)
    → n ≤ sum n v + sum n w
    → k < n
    → v k + w k ≡ 1
unfolding sum
sum_both_full zero k v w le e lt = absurd (omega arith)
sum_both_full (suc n) k v w le e lt = elim (Bool-cases (k == n)) [
  | inl last ↦
      let same : k ≡ n = ground arith in
      omega (
        arith,
        le n (omega arith),
        sum_both_le n v w (λ i lt. le i (omega arith)),
        ap v same,
        ap w same,
      )
  | inr other ↦
      sum_both_full n k v w (λ i lt. le i (omega arith)) (omega (arith, le n (omega arith)))
        (ground arith)
]

pub sum_ones : (n : ℕ) (w : ℕ → ℕ) → ((i : ℕ) → i < n → w i ≡ 1) → sum n w ≡ n
unfolding sum
sum_ones zero w ones = refl
sum_ones (suc n) w ones =
    omega (arith, ones n (omega arith), sum_ones n w (λ i lt. ones i (omega arith)))

pub sum_both_ones :
    (n : ℕ) (v w : ℕ → ℕ) → ((i : ℕ) → i < n → v i + w i ≡ 1) → sum n v + sum n w ≡ n
unfolding sum
sum_both_ones zero v w ones = refl
sum_both_ones (suc n) v w ones =
    omega (arith, ones n (omega arith), sum_both_ones n v w (λ i lt. ones i (omega arith)))
