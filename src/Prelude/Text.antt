-- ===== src/Prelude/Text.antt =====
-- C strings as the lists of their bytes, without the NUL.
use Prim.Native.Nat.{ℕ}
use mathlib.Core.Path.{◌≡◌, refl}
use mathlib.Core.Logic.{◌↔◌, ◌≢◌}
use mathlib.Core.Bool.{Bool, true, false, ◌&&◌}
use mathlib.Core.List.{List, [], ◌∷◌, ◌++◌}
use mathlib.Core.Option.{Option, none, some}
use native.Mathlib.Omega.{arith}
use sistemi_operativi.Prelude.Lists.{All}
use sistemi_operativi.Prelude.Tests.{◌==◌, ==_ne, if◌then◌else◌}

-- `strcmp(s, t) == 0`
unfoldable pub str_eq : List ℕ → List ℕ → Bool
str_eq [] [] = true
str_eq [] (c ∷ t) = false
str_eq (b ∷ s) [] = false
str_eq (b ∷ s) (c ∷ t) = b == c && str_eq s t

pub eq_of_str_eq : (s t : List ℕ) → str_eq s t ≡ true → s ≡ t
unfolding str_eq
eq_of_str_eq [] [] h = refl
eq_of_str_eq [] (c ∷ t) h = ground arith
eq_of_str_eq (b ∷ s) [] h = ground arith
eq_of_str_eq (b ∷ s) (c ∷ t) h = ground (arith, eq_of_str_eq s t)

pub str_eq_refl : (s : List ℕ) → str_eq s s ≡ true
unfolding str_eq
str_eq_refl [] = refl
str_eq_refl (b ∷ s) = ground (arith, str_eq_refl s)

pub str_eq_iff : (s t : List ℕ) → (str_eq s t ≡ true) ↔ (s ≡ t)
str_eq_iff s t = (eq_of_str_eq s t, λ e. ground (arith, str_eq_refl s))

-- The bytes from a pointer to its NUL; `none` if there is none before the end of the memory.
unfoldable pub c_string : List ℕ → Option (List ℕ)
c_string [] = none
c_string (b ∷ bytes) =
    if b == 0 then some [] else elim (c_string bytes) [ none ↦ none | some s ↦ some (b ∷ s) ]

pub c_string-append : (w rest : List ℕ) → All (λ b. b ≢ 0) w → c_string (w ++ (0 ∷ rest)) ≡ some w
unfolding c_string
c_string-append [] rest t = refl
c_string-append (b ∷ w) rest t = rw (==_ne b 0 t.0, c_string-append w rest t.1)
