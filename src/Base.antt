-- ===== src/Base.antt =====
-- What the other modules share: the libraries' names, passed on, Boolean tests on numbers, and
-- lists over the native numbers.
pub use Prim.Native.Nat.{ℕ, zero, suc, ◌+◌, ◌-◌, ◌*◌, ◌/◌, ◌%◌, ◌^◌, ◌≤◌, ◌<◌, max}
pub use mathlib.Core.Path.{◌≡◌, refl, sym, ap, ◌∙◌}
pub use mathlib.Core.Logic.{◌≢◌, ◌⊎◌, inl, inr}
pub use mathlib.Core.Bool.{Bool, true, false, not, ◌&&◌, ◌||◌}
pub use mathlib.Core.Option.{Option, none, some}
pub use mathlib.Core.List.{List, [], ◌∷◌, ◌++◌}
pub use native.Mathlib.Omega.{arith}
use mathlib.Core.Path.{fun_ext}
use Prim.Native.Nat.{compare, Ordering}

infix 50 ◌==◌
abbrev pub ◌==◌ : ℕ → ℕ → Bool
a == b = elim (compare a b) [ Ordering.eq ↦ true | _ ↦ false ]

abbrev pub ltb : ℕ → ℕ → Bool
ltb a b = elim (compare a b) [ Ordering.lt ↦ true | _ ↦ false ]

abbrev pub leb : ℕ → ℕ → Bool
leb a b = elim (compare a b) [ Ordering.gt ↦ false | _ ↦ true ]

infix 1 if◌then◌else◌
abbrev pub if◌then◌else◌ {ℓ} : {A : Type ℓ} → Bool → A → A → A
if true then x else y = x
if false then x else y = y

pub Bool-cases : (b : Bool) → (b ≡ true) ⊎ (b ≡ false)
Bool-cases true = inl refl
Bool-cases false = inr refl

-- The elements of a list of numbers.
abbrev pub has : ℕ → List ℕ → Bool
has a [] = false
has a (x ∷ xs) = (a == x) || has a xs

abbrev pub Distinct : List ℕ → Type 0
Distinct [] = Unit
Distinct (x ∷ xs) = (has x xs ≡ false) × Distinct xs

-- The list without the first `a`.
abbrev pub erase : ℕ → List ℕ → List ℕ
erase a [] = []
erase a (x ∷ xs) = if a == x then xs else x ∷ erase a xs

abbrev pub length {ℓ} : {A : Type ℓ} → List A → ℕ
length [] = 0
length (x ∷ xs) = suc (length xs)

pub has-erase : (a t : ℕ) (xs : List ℕ) → a ≢ t → has a (erase t xs) ≡ has a xs
has-erase a t [] ne = refl
has-erase a t (x ∷ xs) ne = ground (arith, has-erase a t xs)

pub not_has-erase : (a t : ℕ) (xs : List ℕ) → has a xs ≡ false → has a (erase t xs) ≡ false
not_has-erase a t [] out = refl
not_has-erase a t (x ∷ xs) out = ground (arith, not_has-erase a t xs)

pub Distinct-erase : (t : ℕ) (xs : List ℕ) → Distinct xs → Distinct (erase t xs)
Distinct-erase t [] d = tt
Distinct-erase t (x ∷ xs) d = ground (arith, Distinct-erase t xs, not_has-erase x t xs)

pub erase-eq_of_not_has : (a : ℕ) (xs : List ℕ) → has a xs ≡ false → erase a xs ≡ xs
erase-eq_of_not_has a [] out = refl
erase-eq_of_not_has a (x ∷ xs) out = ground (arith, erase-eq_of_not_has a xs)

abbrev pub update {ℓ} : {A : Type ℓ} → (ℕ → A) → ℕ → A → ℕ → A
update f i a j = if j == i then a else f j

pub update_same {ℓ} : {A : Type ℓ} (f : ℕ → A) (k : ℕ) → update f k (f k) ≡ f
update_same f k = fun_ext (λ j. elim (Bool-cases (j == k)) [
  | inl e ↦ let same : j ≡ k = ground arith in rw e (ap f (sym same))
  | inr e ↦ rw e refl
])

-- How often `a` stands in the list.
abbrev pub count : ℕ → List ℕ → ℕ
count a [] = 0
count a (x ∷ xs) = (if a == x then 1 else 0) + count a xs

pub count-erase : (a b : ℕ) (xs : List ℕ) → has b xs ≡ true → count a xs ≡ count a (b ∷ erase b xs)
count-erase a b [] i = cc
count-erase a b (x ∷ xs) i = ground (arith, count-erase a b xs)

pub has_of_count : (a : ℕ) (xs : List ℕ) → 0 < count a xs → has a xs ≡ true
has_of_count a [] c = absurd (omega arith)
has_of_count a (x ∷ xs) c = ground (arith, has_of_count a xs)

pub count_of_has : (a : ℕ) (xs : List ℕ) → has a xs ≡ true → 0 < count a xs
count_of_has a [] i = cc
count_of_has a (x ∷ xs) i = ground (arith, count_of_has a xs)
