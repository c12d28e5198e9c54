-- ===== src/Collector/Runaway.antt =====
-- The parent of prog-B-solution.c (exam of 26-6-2018) when the kernel can keep no more operations to undo.
use sistemi_operativi.Prelude.{
  ℕ, zero, suc, ◌+◌, ◌<◌, ◌≤◌, ◌≡◌, refl, ap, sym, ◌∙◌, List, [], ◌∷◌, ◌++◌, arith, inl, inr, some,
  false, ltb, Bool-cases, append_assoc, append-nil, replicate, if◌then◌else◌,
}
use sistemi_operativi.Collector.{
  Item, p_wait, p_print, p_post, System, Reach, next, step, run_parent, parent_step, take_one,
}

module _ (limit n : ℕ) (inputs : ℕ → List Item) (first : ℕ) where
  take_one-suc :
      (k : ℕ) (after : ℕ → System) → 0 < k → (j : ℕ) × (take_one k after ≡ some (after j))
  unfolding take_one
  take_one-suc zero after h = absurd (omega arith)
  take_one-suc (suc j) after h = (j, refl)

  -- A round of the parent that does not wait.
  round :
      {s : System}
      → Reach limit n inputs first s
      → s.parent ≡ p_wait
      → limit ≤ s.undo0
      → 0 < s.sem0
      → (sem1 : ℕ) × ((undo1 : ℕ) × Reach limit n inputs first (record s {
        sem1 = sem1;
        undo1 = undo1;
        printed = s.printed ++ (s.value ∷ []);
        parent = p_wait;
      }))
  unfolding step parent_step
  round {s} r e l p =
      let late : ltb s.undo0 limit ≡ false = ground (arith, l) in
      let (j, q) =
        take_one-suc s.sem0
          (λ k.
            if ltb s.undo0 limit
            then record s { sem0 = k; undo0 = s.undo0 + 1; parent = p_print }
            else record s { parent = p_print })
          p in
      let waited : parent_step limit p_wait s ≡ some (record s { parent = p_print }) =
        q ∙ rw (late) refl in
      let at_print : Reach limit n inputs first (record s { parent = p_print }) =
        next run_parent r (ap (λ m. parent_step limit m s) e ∙ waited) in
      let at_post : Reach limit n inputs first
          (record s { printed = s.printed ++ (s.value ∷ []); parent = p_post }) =
        next run_parent at_print refl in
      elim (Bool-cases (ltb s.undo1 limit)) [
        | inl f ↦ (s.sem1 + 1, (s.undo1 + 1, next run_parent at_post (rw (f) refl)))
        | inr f ↦ (s.sem1, (s.undo1, next run_parent at_post (rw (f) refl)))
      ]

  -- Once the parent has taken semaphore 0 as often as the kernel can undo, it no longer waits: from a
  -- reachable state where it is before its wait and a number is there, and for every m, it can write m
  -- copies of that number without a child that stores one.
  pub collector_runaway :
      (m : ℕ) {s : System}
      → Reach limit n inputs first s
      → s.parent ≡ p_wait
      → limit ≤ s.undo0
      → 0 < s.sem0
      → (t : System) × (Reach limit n inputs first t
          × ((t.printed ≡ s.printed ++ replicate m s.value) × (t.sent ≡ s.sent)))
  collector_runaway zero {s} r e l p = (s, (r, (sym (append-nil s.printed), refl)))
  collector_runaway (suc m) {s} r e l p =
      let (sem1, (undo1, r')) = round r e l p in
      let (t, (reached, (f, q))) = collector_runaway m r' refl l p in
      (t, (reached, (f ∙ append_assoc s.printed (s.value ∷ []) (replicate m s.value), q)))
