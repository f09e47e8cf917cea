-- ===== src/Prelude/Families.antt =====
-- Tables as functions of an index: writing one place, and sums over the first places.
use Prim.Native.Nat.{ℕ, zero, suc, ◌+◌, ◌≤◌, ◌<◌}
use mathlib.Core.Path.{◌≡◌, refl, sym, ap}
use mathlib.Core.Logic.{◌≢◌, inl, inr}
use native.Mathlib.Decide.{dec_lt}
use native.Mathlib.Omega.{arith}
use structured_chaos.Prelude.Tests.{◌==◌, if◌then◌else◌, Bool-cases}

abbrev pub write {ℓ} : {A : Type ℓ} → (ℕ → A) → ℕ → A → ℕ → A
write f i a j = if i == j then a else f j

-- What holds at the place that is written, and elsewhere of what was there, holds everywhere.
pub all-write {ℓ κ} :
    {A : Type ℓ} (P : ℕ → A → Type κ) (f : ℕ → A) (i : ℕ) (a : A)
    → P i a
    → ((j : ℕ) → i ≢ j → P j (f j))
    → (j : ℕ) → P j (write f i a j)
all-write P f i a here there j = elim (Bool-cases (i == j)) [
  | inl same ↦ let e : i ≡ j = ground arith in rw (same) (rw (sym e) here)
  | inr other ↦ rw (other) (there j (ground arith))
]

module _ {ℓ} {A : Type ℓ} (w : A → ℕ) where
  pub total : ℕ → (ℕ → A) → ℕ
  total zero f = 0
  total (suc n) f = total n f + w (f n)

  total-write_of_le :
      (n : ℕ) (f : ℕ → A) (i : ℕ) (a : A) → n ≤ i → total n (write f i a) ≡ total n f
  unfolding total
  total-write_of_le zero f i a h = refl
  total-write_of_le (suc n) f i a h = ground (arith, total-write_of_le n f i a)

  -- Writing a place changes the sum by what it changes there.
  pub total-write :
      (n : ℕ) (f : ℕ → A) (i : ℕ) (a : A)
      → i < n
      → total n (write f i a) + w (f i) ≡ total n f + w a
  unfolding total
  total-write zero f i a h = absurd (omega arith)
  total-write (suc n) f i a h = elim (dec_lt i n) [
    | yes below ↦ ground (arith, total-write n f i a below)
    | no last ↦ ground (arith, total-write_of_le n f i a)
  ]

  pub total-ge : (n : ℕ) (f : ℕ → A) (i : ℕ) → i < n → w (f i) ≤ total n f
  unfolding total
  total-ge zero f i h = absurd (omega arith)
  total-ge (suc n) f i h = elim (dec_lt i n) [
    | yes below ↦ omega (arith, total-ge n f i below)
    | no last ↦ ground arith
  ]

  pub total_zero : (n : ℕ) (f : ℕ → A) → ((i : ℕ) → w (f i) ≡ 0) → total n f ≡ 0
  unfolding total
  total_zero zero f h = refl
  total_zero (suc n) f h = omega (arith, total_zero n f h, h n)

  -- Writing what weighs the same changes nothing.
  pub total-write_same :
      (n : ℕ) (f : ℕ → A) (i : ℕ) (a : A) → w a ≡ w (f i) → total n (write f i a) ≡ total n f
  total-write_same n f i a h = elim (dec_lt i n) [
    | yes below ↦ omega (arith, total-write n f i a below)
    | no above ↦ total-write_of_le n f i a (omega arith)
  ]

  pub total_le : (n : ℕ) (f : ℕ → A) → ((i : ℕ) → w (f i) ≤ 1) → total n f ≤ n
  unfolding total
  total_le zero f h = omega arith
  total_le (suc n) f h = omega (arith, total_le n f h, h n)

  pub total_lt :
      (n : ℕ) (f : ℕ → A) (i : ℕ) → ((i : ℕ) → w (f i) ≤ 1) → i < n → w (f i) ≡ 0 → total n f < n
  unfolding total
  total_lt zero f i h l z = absurd (omega arith)
  total_lt (suc n) f i h l z = elim (dec_lt i n) [
    | yes below ↦ omega (arith, total_lt n f i h below z, h n)
    | no last ↦
        let here : i ≡ n = omega arith in omega (arith, total_le n f h, ap (λ j. w (f j)) here)
  ]

  pub total_none : (f : ℕ → A) → total 0 f ≡ 0
  unfolding total
  total_none f = refl

  pub total_one : (n : ℕ) (f : ℕ → A) → total (suc n) f ≡ total n f + w (f n)
  unfolding total
  total_one n f = refl

  -- What weighs nothing from a place on needs not be summed.
  pub total_beyond :
      (m n : ℕ) (f : ℕ → A) → m ≤ n → ((i : ℕ) → m ≤ i → w (f i) ≡ 0) → total n f ≡ total m f
  unfolding total
  total_beyond m zero f h z = let e : m ≡ 0 = omega arith in ap (λ k. total k f) (sym e)
  total_beyond m (suc n) f h z = elim (dec_lt n m) [
    | yes last ↦ let e : suc n ≡ m = omega arith in ap (λ k. total k f) e
    | no below ↦ omega (arith, total_beyond m n f (omega arith) z, z n (omega arith))
  ]

  pub total_congr : (n : ℕ) (f g : ℕ → A) → ((i : ℕ) → i < n → f i ≡ g i) → total n f ≡ total n g
  unfolding total
  total_congr zero f g h = refl
  total_congr (suc n) f g h =
      omega (arith, total_congr n f g (λ i l. h i (omega arith)), ap w (h n (omega arith)))

  pub total_full : (n : ℕ) (f : ℕ → A) → ((i : ℕ) → i < n → w (f i) ≡ 1) → total n f ≡ n
  unfolding total
  total_full zero f h = refl
  total_full (suc n) f h =
      omega (arith, total_full n f (λ i l. h i (omega arith)), h n (omega arith))
