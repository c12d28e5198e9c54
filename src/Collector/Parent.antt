-- ===== src/Collector/Parent.antt =====
-- The steps of the loop of `main` of prog-B-solution.c (exam of 26-6-2018) in sound states, and of all
-- processes.
use sistemi_operativi.Prelude.{
  if◌then◌else◌, ℕ, zero, suc, ◌+◌, ◌≤◌, ◌<◌, ◌≡◌, refl, ap, some, [], ◌∷◌, ◌++◌, arith, inl, inr,
  ltb, ltb→lt, Bool-cases, subst,
}
use sistemi_operativi.Collector.{
  ParentPc, p_wait, p_print, p_post, System, take_one, parent_step, Actor, run_parent, run_child,
  step,
}
use sistemi_operativi.Collector.Tokens.{has, prints, full, Lags, Keeps}
use sistemi_operativi.Collector.Steps.{child_Keeps}

Lags-one :
    (k : ℕ) (s : System) → Lags k s → 0 < k → (k ≡ 1) × (s.printed ++ (s.value ∷ []) ≡ s.sent)
Lags-one k s (inl p) e = absurd (omega (arith, p.0, e))
Lags-one k s (inr p) e = p

module _ (limit n : ℕ) (s : System) where
  -- The parent moves with the token, and the number stays.
  passed :
      (m : ParentPc) (sem0 sem1 undo0 undo1 : ℕ)
      → s.undo0 ≤ undo0
      → sem1 + sem0 + has m ≡ s.sem1 + s.sem0 + has s.parent
      → sem0 + prints m ≡ s.sem0 + prints s.parent
      → (s.undo1 + has s.parent ≤ s.undo0 → undo1 + has m ≤ undo0)
      → Keeps limit n s
          (some (record s { sem0 = sem0; sem1 = sem1; parent = m; undo0 = undo0; undo1 = undo1 }))
  passed m sem0 sem1 undo0 undo1 later token same bound sound = (
    record { alive = sound.alive; below = omega (arith, sound.below, later) },
    (λ good. record {
      token = omega (arith, good.token, token);
      lags = subst (λ k. Lags k s) (omega (arith, same)) good.lags;
      undone = bound good.undone;
    }),
  )

  pwait-Keeps :
      (k : ℕ)
      → s.parent ≡ p_wait
      → s.sem0 ≡ k
      → Keeps limit n s (
          take_one k (λ k.
            if ltb s.undo0 limit
            then record s { sem0 = k; undo0 = s.undo0 + 1; parent = p_print }
            else record s { parent = p_print }))
  unfolding take_one
  pwait-Keeps zero e z = tt
  pwait-Keeps (suc k) e z = elim (Bool-cases (ltb s.undo0 limit)) [
    | inl f ↦ rw (f) (
        passed p_print k s.sem1 (s.undo0 + 1) s.undo1 (omega arith) (omega (arith, z, ap has e))
          (omega (arith, z, ap prints e)) (λ b. omega (arith, b, ap has e)))
    | inr f ↦ rw (f) (λ sound. absurd (ground (arith, f, sound.below)))
  ]

  pub parent_Keeps : (m : ParentPc) → s.parent ≡ m → Keeps limit n s (parent_step limit m s)
  unfolding parent_step
  parent_Keeps p_wait e = pwait-Keeps s.sem0 e refl
  parent_Keeps p_print e = λ sound. (
    record { alive = sound.alive; below = sound.below },
    (λ good.
        let (one, q) = Lags-one (full n s) s good.lags (omega (arith, ap prints e)) in
        record {
          token = omega (arith, good.token, ap has e);
          lags = inl (omega (arith, one, ap prints e), q);
          undone = omega (arith, good.undone, ap has e);
        }),
  )
  parent_Keeps p_post e = elim (Bool-cases (ltb s.undo1 limit)) [
    | inl f ↦ rw (f) (
        passed p_wait s.sem0 (s.sem1 + 1) s.undo0 (s.undo1 + 1) (omega arith)
          (omega (arith, ap has e)) (omega (arith, ap prints e)) (λ b. omega (arith, b, ap has e)))
    | inr f ↦ rw (f) (λ sound. (
      record { alive = sound.alive; below = sound.below },
      (λ good. absurd (ground (arith, f, sound.below, good.undone, ap has e))),
    ))
  ]

  pub step-Keeps : (a : Actor) → Keeps limit n s (step limit n a s)
  unfolding step
  step-Keeps run_parent = parent_Keeps s.parent refl
  step-Keeps (run_child me) = elim (Bool-cases (ltb me n)) [
    | inl e ↦ rw (e) (child_Keeps limit n s me (ltb→lt me n e) (s.children me).pc refl)
    | inr e ↦ rw (e) tt
  ]
