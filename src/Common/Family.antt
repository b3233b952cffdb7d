-- ===== src/Common/Family.antt =====
-- Families indexed by numbers: an update at one index, the weights of the first, and how many of
-- them have a property.
use Prim.Native.Nat.{ℕ, zero, suc, ◌+◌, ◌≤◌, ◌<◌}
use mathlib.Core.Path.{◌≡◌, refl, subst⁻¹}
use mathlib.Core.Logic.{◌⊎◌, inl, inr}
use mathlib.Core.Bool.{Bool, true, false}
use native.Mathlib.Decide.{ℕ_discrete}
use native.Mathlib.Omega.{arith}
use redoxide.Common.Tests.{◌==◌, if◌then◌else◌}

abbrev pub assign {ℓ} : {A : Type ℓ} → (ℕ → A) → ℕ → A → ℕ → A
assign f i a j = if i == j then a else f j

pub assign_same {ℓ} : {A : Type ℓ} (f : ℕ → A) (i : ℕ) (a : A) → assign f i a i ≡ a
assign_same f i a = ground arith

abbrev pub one_if : Bool → ℕ
one_if true = 1
one_if false = 0

module _ {ℓ} {A : Type ℓ} (w : A → ℕ) where
  -- The weights of `f 0` to `f (n - 1)`, added up.
  unfoldable pub total : ℕ → (ℕ → A) → ℕ
  total zero f = 0
  total (suc n) f = total n f + w (f n)

  pub total-suc : (n : ℕ) (f : ℕ → A) → total (suc n) f ≡ total n f + w (f n)
  unfolding total
  total-suc n f = refl

  pub total-assign_above :
      (n : ℕ) (f : ℕ → A) (i : ℕ) (a : A) → n ≤ i → total n (assign f i a) ≡ total n f
  unfolding total
  total-assign_above zero f i a h = refl
  total-assign_above (suc n) f i a h = ground (arith, total-assign_above n f i a)

  pub total-assign :
      (n : ℕ) (f : ℕ → A) (i : ℕ) (a : A)
      → i < n
      → total n (assign f i a) + w (f i) ≡ total n f + w a
  unfolding total
  total-assign zero f i a h = absurd (omega arith)
  total-assign (suc n) f i a h = elim (ℕ_discrete i n) [
    | yes e ↦ ground (arith, total-assign_above n f i a)
    | no e ↦ ground (arith, total-assign n f i a (omega arith))
  ]

  -- An update to a weight that is no greater.
  pub total-assign_le :
      (n : ℕ) (f : ℕ → A) (i : ℕ) (a : A) → w a ≤ w (f i) → total n (assign f i a) ≤ total n f
  unfolding total
  total-assign_le zero f i a h = omega arith
  total-assign_le (suc n) f i a h = ground (arith, total-assign_le n f i a h)

module _ {ℓ} {A : Type ℓ} (p : A → Bool) where
  -- How many of `f 0` to `f (n - 1)` satisfy `p`.
  pub count : ℕ → (ℕ → A) → ℕ
  count n f = total (λ a. one_if (p a)) n f

  pub count-assign :
      (n : ℕ) (f : ℕ → A) (i : ℕ) (a : A)
      → i < n
      → count n (assign f i a) + one_if (p (f i)) ≡ count n f + one_if (p a)
  unfolding count
  count-assign n f i a h = total-assign (λ b. one_if (p b)) n f i a h

  pub count-pos : (n : ℕ) (f : ℕ → A) (i : ℕ) → i < n → p (f i) ≡ true → 0 < count n f
  unfolding count total
  count-pos zero f i h e = absurd (omega arith)
  count-pos (suc n) f i h e = elim (ℕ_discrete i n) [
    | yes same ↦ ground arith
    | no other ↦ omega (arith, count-pos n f i (omega arith) e)
  ]

  pub count-le : (n : ℕ) (f : ℕ → A) → count n f ≤ n
  unfolding count total
  count-le zero f = omega arith
  count-le (suc n) f = ground (arith, count-le n f)

  pub count-eq-zero : (n : ℕ) (f : ℕ → A) → ((i : ℕ) → p (f i) ≡ false) → count n f ≡ 0
  unfolding count total
  count-eq-zero zero f h = refl
  count-eq-zero (suc n) f h = ground (arith, count-eq-zero n f h, h n)

-- A search through the first `n`: one that decides the search, or a property of all.
pub search_below {ℓ ℓ'} :
    {A : Type ℓ} {P : ℕ → Type ℓ'} (n : ℕ)
    → ((i : ℕ) → i < n → A ⊎ P i)
    → A ⊎ ((i : ℕ) → i < n → P i)
search_below zero f = inr (λ i h. absurd (omega arith))
search_below {A} {P} (suc n) f =
    with_last (f n (omega arith)) (search_below n (λ i h. f i (omega arith)))
  where
    with_last : A ⊎ P n → A ⊎ ((i : ℕ) → i < n → P i) → A ⊎ ((i : ℕ) → i < suc n → P i)
    with_last (inl a) below = inl a
    with_last (inr p) (inl a) = inl a
    with_last (inr p) (inr below) = inr (λ i h. elim (ℕ_discrete i n) [
      | yes same ↦ subst⁻¹ P same p
      | no other ↦ below i (omega arith)
    ])
