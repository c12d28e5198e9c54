-- ===== src/Collector/Safety.antt =====
-- The file of prog-B-solution.c (exam of 26-6-2018) in the reachable states.
use sistemi_operativi.Prelude.{
  ℕ, ◌<◌, ◌≡◌, ◌≢◌, refl, List, [], ◌∷◌, ◌++◌, arith, ◌⊎◌, inl, inr, subst, sum_below,
  sum_below_zero, flatten, map, drop, length,
}
use sistemi_operativi.Collector.{Item, c_exited, System, content, start, Reach, here, next}
use sistemi_operativi.Collector.Tokens.{child_stores, child_posts, Sound, Good, Keeps}
use sistemi_operativi.Collector.Parent.{step-Keeps}

module _ (limit n : ℕ) (inputs : ℕ → List Item) (first : ℕ) where
  start-Good : Good n (start inputs first)
  start-Good =
      let children = (start inputs first).children in
      let w : sum_below child_stores n children ≡ 0 =
        sum_below_zero child_stores n children (λ i h. refl) in
      let p : sum_below child_posts n children ≡ 0 =
        sum_below_zero child_posts n children (λ i h. refl) in
      record {
        token = omega (arith, w, p);
        lags = inl (omega (arith, p), refl);
        undone = omega arith;
      }

  Reach-Good : {s : System} → Reach limit n inputs first s → Sound limit n s → Good n s
  Reach-Good here sound = start-Good
  Reach-Good (next {s} a r e) sound =
      let (before, keeps) = subst (Keeps limit n s) e (step-Keeps limit n s a) sound in
      keeps (Reach-Good r before)

  -- In every reachable state in which no child has exited and the parent has taken semaphore 0 less often
  -- than the kernel can undo, the file holds the text of the numbers that the children have stored, in their
  -- order and each once, or of all of them but the last, which is the one in the shared memory; behind that
  -- text stands what the file held there before.
  pub collector_in_order :
      {s : System} (shown : ℕ → List ℕ) (old : List ℕ)
      → Reach limit n inputs first s
      → ((i : ℕ) → i < n → (s.children i).pc ≢ c_exited)
      → s.undo0 < limit
      → (numbers : List ℕ) × (((numbers ≡ s.sent) ⊎ (numbers ++ (s.value ∷ []) ≡ s.sent))
          × (content shown old s
              ≡ flatten (map shown numbers) ++ drop (length (flatten (map shown numbers))) old))
  collector_in_order {s} shown old r alive below = (
    s.printed,
    (
      elim (Reach-Good r (record { alive = alive; below = below })).lags [
        | inl p ↦ inl p.1
        | inr p ↦ inr p.1
      ],
      refl,
    ),
  )
