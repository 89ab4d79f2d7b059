-- ===== src/Base/Sums.antt =====
-- Sums over the first `n` of a family, and counts of the entries of a list that pass a test.
use Prim.Native.Nat.{ℕ, zero, suc, ◌+◌, ◌≤◌, ◌<◌}
use mathlib.Core.Path.{◌≡◌, refl}
use mathlib.Core.Bool.{Bool, false}
use mathlib.Core.List.{List, [], ◌∷◌, ◌++◌}
use native.Mathlib.Decide.{dec_lt}
use native.Mathlib.Omega.{arith}
use tiny_coroutine.Base.Tests.{◌==◌, if◌then◌else◌}

pub sum_below : ℕ → (ℕ → ℕ) → ℕ
sum_below zero f = 0
sum_below (suc n) f = f n + sum_below n f

module _ (f g : ℕ → ℕ) where
  pub sum_below-congr : (n : ℕ) → ((j : ℕ) → j < n → g j ≡ f j) → sum_below n g ≡ sum_below n f
  unfolding sum_below
  sum_below-congr zero h = refl
  sum_below-congr (suc n) h =
      omega (arith, h n (omega arith), sum_below-congr n (λ j lt. h j (omega arith)))

  -- A change at one index changes the sum by as much.
  pub sum_below-change :
      (n i : ℕ)
      → i < n
      → ((j : ℕ) → (i == j) ≡ false → g j ≡ f j)
      → sum_below n g + f i ≡ sum_below n f + g i
  unfolding sum_below
  sum_below-change zero i lt h = absurd (omega arith)
  sum_below-change (suc n) i lt h = elim (dec_lt i n) [
    | yes below ↦ ground (arith, sum_below-change n i below h, h n)
    | no last ↦ ground (arith, sum_below-congr n (λ j below. h j (ground arith)))
  ]

pub sum_below-zero : (f : ℕ → ℕ) (n : ℕ) → ((j : ℕ) → j < n → f j ≡ 0) → sum_below n f ≡ 0
unfolding sum_below
sum_below-zero f zero h = refl
sum_below-zero f (suc n) h =
    omega (arith, h n (omega arith), sum_below-zero f n (λ j lt. h j (omega arith)))

-- What is 0 from `n` on adds nothing.
pub sum_below-longer :
    (f : ℕ → ℕ) (n k : ℕ) → n ≤ k → ((i : ℕ) → n ≤ i → f i ≡ 0) → sum_below k f ≡ sum_below n f
unfolding sum_below
sum_below-longer f n zero h z = ground arith
sum_below-longer f n (suc k) h z = elim (dec_lt k n) [
  | yes below ↦ let e : n ≡ suc k = omega arith in rw e refl
  | no last ↦ omega (arith, z k (omega arith), sum_below-longer f n k (omega arith) z)
]

pub sum_below-ge : (f : ℕ → ℕ) (n i : ℕ) → i < n → f i ≤ sum_below n f
unfolding sum_below
sum_below-ge f zero i lt = absurd (omega arith)
sum_below-ge f (suc n) i lt = elim (dec_lt i n) [
  | yes below ↦ omega (arith, sum_below-ge f n i below)
  | no last ↦ ground arith
]

module _ {ℓ} {A : Type ℓ} where
  abbrev pub count : (A → Bool) → List A → ℕ
  count p [] = 0
  count p (x ∷ xs) = (if p x then 1 else 0) + count p xs

  pub count-append : (p : A → Bool) (xs ys : List A) → count p (xs ++ ys) ≡ count p xs + count p ys
  count-append p [] ys = omega arith
  count-append p (x ∷ xs) ys = omega (arith, count-append p xs ys)
