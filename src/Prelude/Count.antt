-- ===== src/Prelude/Count.antt =====
-- How many elements of a list pass a test.
use Prim.Native.Nat.{ℕ, ◌+◌, ◌≤◌}
use mathlib.Core.Path.{◌≡◌}
use mathlib.Core.Bool.{Bool, true, false}
use mathlib.Core.List.{List, [], ◌∷◌, ◌++◌}
use native.Mathlib.Omega.{arith}

abbrev pub one : Bool → ℕ
one true = 1
one false = 0

pub one-le : (b : Bool) → one b ≤ 1
one-le true = omega arith
one-le false = omega arith

module _ {ℓ} {A : Type ℓ} (p : A → Bool) where
  unfoldable pub count : List A → ℕ
  count [] = 0
  count (a ∷ l) = one (p a) + count l

  pub count-append : (l m : List A) → count (l ++ m) ≡ count l + count m
  unfolding count
  count-append [] m = omega arith
  count-append (a ∷ l) m = omega (arith, count-append l m)
