-- ===== src/SlotRing/Slots.antt =====
-- Items numbered in order fall into slots by their remainder: a window of `size` consecutive items
-- has no two in one slot.
use Prim.Native.Nat.{ℕ, ◌+◌, ◌/◌, ◌%◌, ◌<◌}
use mathlib.Core.Path.{◌≡◌, ap, ◌∙◌}
use mathlib.Core.Logic.{◌≢◌}
use native.Mathlib.Nat.{mod-add-mod, div-add-mod, add-mod_right}
use native.Mathlib.Decide.{dec_lt}
use native.Mathlib.Omega.{arith}

pub slot_ne : (size k j : ℕ) → k < j → j < k + size → k % size ≢ j % size
slot_ne size k j l h e = elim (dec_lt (k / size) (j / size)) [
  | yes up ↦ absurd (grind (arith, div-add-mod k size, div-add-mod j size))
  | no same ↦ absurd (grind (arith, div-add-mod k size, div-add-mod j size))
]

pub slot_next : (size k : ℕ) → (k % size + 1) % size ≡ (k + 1) % size
slot_next size k = mod-add-mod k size 1

pub slot_wrap : (size k : ℕ) → (k + size) % size ≡ k % size
slot_wrap size k = add-mod_right k size

-- The item behind the window falls into its first slot.
pub slot_behind : (size c k : ℕ) → k ≡ c + size → k % size ≡ c % size
slot_behind size c k e = ap (λ n. n % size) e ∙ slot_wrap size c
