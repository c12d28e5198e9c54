-- ===== src/Prelude/Family.antt =====
-- Arrays indexed by number and families indexed by thread: a write at one index, and the sum of a
-- weight over the first indices.
use Prim.Native.Nat.{ℕ, zero, suc, ◌+◌, ◌≤◌, ◌<◌}
use mathlib.Core.Path.{◌≡◌, refl, fun_ext}
use mathlib.Core.Logic.{ite, ◌≢◌}
use mathlib.Core.List.{List, [], ◌++◌, append-nil}
use native.Mathlib.Decide.{ℕ_discrete}
use native.Mathlib.Omega.{arith}
use sistemi_operativi.Prelude.Tests.{◌==◌, ==_ne, if◌then◌else◌}

-- `f[i] = a`
abbrev pub update {ℓ} : {A : Type ℓ} → (ℕ → A) → ℕ → A → ℕ → A
update f i a j = ite (ℕ_discrete i j) a (f j)

pub update_self {ℓ} : {A : Type ℓ} (f : ℕ → A) (i : ℕ) (a : A) → update f i a i ≡ a
update_self f i a = ground arith

pub update_ne {ℓ} : {A : Type ℓ} (f : ℕ → A) (i j : ℕ) (a : A) → i ≢ j → update f i a j ≡ f j
update_ne f i j a h = ground arith

pub update_same {ℓ} : {A : Type ℓ} (f : ℕ → A) (i : ℕ) → update f i (f i) ≡ f
update_same f i = fun_ext (λ j. ground arith)

-- One more piece at the end of one list of a family.
pub update-append {ℓ} :
    {A : Type ℓ} (f : ℕ → List A) (i : ℕ) (l : List A) (j : ℕ)
    → update f i (f i ++ l) j ≡ f j ++ (if i == j then l else [])
update-append f i l j = elim (ℕ_discrete i j) [
  | yes e ↦ ground arith
  | no ne ↦ rw (==_ne i j ne, append-nil) (ground arith)
]

-- w (f 0) + … + w (f (n - 1))
module _ {ℓ} {A : Type ℓ} (w : A → ℕ) where
  unfoldable pub sum_below : ℕ → (ℕ → A) → ℕ
  sum_below zero f = 0
  sum_below (suc n) f = w (f n) + sum_below n f

  sum_below-update_out :
      (n : ℕ) (f : ℕ → A) (i : ℕ) (a : A) → n ≤ i → sum_below n (update f i a) ≡ sum_below n f
  unfolding sum_below
  sum_below-update_out zero f i a h = refl
  sum_below-update_out (suc n) f i a h = ground (arith, sum_below-update_out n f i a)

  -- A write at `i` exchanges the weight of the old entry for that of the new one.
  pub sum_below-update :
      (n : ℕ) (f : ℕ → A) (i : ℕ) (a : A)
      → i < n
      → sum_below n (update f i a) + w (f i) ≡ sum_below n f + w a
  unfolding sum_below
  sum_below-update zero f i a h = absurd (omega arith)
  sum_below-update (suc n) f i a h = elim (ℕ_discrete i n) [
    | yes e ↦ ground (arith, sum_below-update_out n f i a)
    | no ne ↦ ground (arith, sum_below-update n f i a)
  ]

  pub sum_below_zero : (n : ℕ) (f : ℕ → A) → ((i : ℕ) → i < n → w (f i) ≡ 0) → sum_below n f ≡ 0
  unfolding sum_below
  sum_below_zero zero f h = refl
  sum_below_zero (suc n) f h =
      omega (arith, h n (omega arith), sum_below_zero n f (λ i l. h i (omega arith)))

  -- One entry weighs at most the sum.
  pub le-sum_below : (n : ℕ) (f : ℕ → A) (i : ℕ) → i < n → w (f i) ≤ sum_below n f
  unfolding sum_below
  le-sum_below zero f i h = absurd (omega arith)
  le-sum_below (suc n) f i h = elim (ℕ_discrete i n) [
    | yes e ↦ ground arith
    | no ne ↦ omega (arith, le-sum_below n f i (omega arith))
  ]

  -- Two different entries weigh at most the sum.
  pub add-le-sum_below :
      (n : ℕ) (f : ℕ → A) (i j : ℕ) → i < n → j < n → i ≢ j → w (f i) + w (f j) ≤ sum_below n f
  unfolding sum_below
  add-le-sum_below zero f i j h k d = absurd (omega arith)
  add-le-sum_below (suc n) f i j h k d = elim (ℕ_discrete i n) [
    | yes e ↦ ground (arith, le-sum_below n f j)
    | no ne ↦ elim (ℕ_discrete j n) [
      | yes e ↦ ground (arith, le-sum_below n f i)
      | no ne' ↦ omega (arith, add-le-sum_below n f i j (omega arith) (omega arith) d)
    ]
  ]

  -- A positive sum has a positive entry.
  pub sum_below_pos : (n : ℕ) (f : ℕ → A) → 0 < sum_below n f → (i : ℕ) × (i < n) × (0 < w (f i))
  unfolding sum_below
  sum_below_pos zero f h = absurd (omega arith)
  sum_below_pos (suc n) f h = elim (ℕ_discrete (w (f n)) 0) [
    | yes e ↦ let (i, l, p) = sum_below_pos n f (omega arith) in (i, omega arith, p)
    | no ne ↦ (n, omega arith, omega arith)
  ]
