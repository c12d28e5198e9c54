-- ===== src/Pages/Ranges.antt =====
-- The loops over a range of pages of esercizio2(UNIX).c (Tutoraggio 9), and the bytes of the range.
use sistemi_operativi.Prelude.{
  ℕ, zero, suc, ◌+◌, ◌*◌, ◌%◌, ◌≤◌, ◌<◌, ◌≡◌, ◌≢◌, refl, sym, ap, ◌∙◌, true, arith, ◌⊎◌, inl, inr,
  subst, update, update_self, update_ne, ℕ_discrete, ◌==◌, Bool-cases,
}
use native.Mathlib.Nat.{add-mul, mul-lt-mul_of_pos_right, mul-le-mul_right}
use sistemi_operativi.Pages.{mark, held}

pub mark_out : (b : ℕ → ℕ) (i left v p : ℕ) → (p < i) ⊎ (i + left ≤ p) → mark b i left v p ≡ b p
unfolding mark
mark_out b i zero v p o = refl
mark_out b i (suc left) v p o =
    let ne : i ≢ p = λ e. absurd (omega (arith, o, e)) in
    mark_out (update b i v) (i + 1) left v p (after o) ∙ update_ne b i p v ne
  where
    after : (p < i) ⊎ (i + suc left ≤ p) → (p < i + 1) ⊎ (i + 1 + left ≤ p)
    after (inl h) = inl (omega (arith, h))
    after (inr h) = inr (omega (arith, h))

pub mark_in : (b : ℕ → ℕ) (i left v p : ℕ) → i ≤ p → p < i + left → mark b i left v p ≡ v
unfolding mark
mark_in b i zero v p l h = absurd (omega (arith, l, h))
mark_in b i (suc left) v p l h = elim (ℕ_discrete i p) [
  | yes e ↦
      mark_out (update b i v) (i + 1) left v p (inl (omega (arith, e)))
      ∙ ap (update b i v) (sym e)
      ∙ update_self b i v
  | no ne ↦ mark_in (update b i v) (i + 1) left v p (omega (arith, l, ne)) (omega (arith, h))
]

pub held_all :
    (b : ℕ → ℕ) (i left : ℕ) → held b i left ≡ true → (p : ℕ) → i ≤ p → p < i + left → b p ≢ 0
unfolding held
held_all b i zero e p l h = absurd (omega (arith, l, h))
held_all b i (suc left) e p l h = elim (Bool-cases (b i == 0)) [
  | inl q ↦ absurd (cc (rw (q) at e))
  | inr q ↦ elim (ℕ_discrete i p) [
    | yes u ↦ λ z. absurd (ground (arith, q, z, ap b u))
    | no ne ↦ held_all b (i + 1) left (rw (q) at e) p (omega (arith, l, ne)) (omega (arith, h))
  ]
]

pub held-true :
    (b : ℕ → ℕ) (i left : ℕ) → ((p : ℕ) → i ≤ p → p < i + left → b p ≡ 1) → held b i left ≡ true
unfolding held
held-true b i zero h = refl
held-true b i (suc left) h =
    let one : b i ≡ 1 = h i (omega arith) (omega arith) in
    let rest : held b (i + 1) left ≡ true =
      held-true b (i + 1) left (λ p l k. h p (omega (arith, l)) (omega (arith, k))) in
    ground (arith, one, rest)

-- A range of pages in bytes.
module _ (size : ℕ) where
  pub bytes_in : (f c p : ℕ) → 0 < size → p < f + c → p * size < f * size + c * size
  bytes_in f c p z h = subst (λ k. p * size < k) (add-mul f c size) (mul-lt-mul_of_pos_right h z)

  pub bytes_out : (f c p : ℕ) → f + c ≤ p → f * size + c * size ≤ p * size
  bytes_out f c p h = subst (λ k. k ≤ p * size) (add-mul f c size) (mul-le-mul_right size h)

  pub bytes_fit : (c n w : ℕ) → c ≤ n → n * size < w → (c * size) % w ≡ c * size
  bytes_fit c n w h k = grind arith
