-- ===== src/Dispatch/Progress.antt =====
-- Who can move in the reachable states of prog-A-solution.c (exam of 26-6-2018).
use sistemi_operativi.Prelude.{
  ℕ, ◌<◌, ◌≡◌, refl, sym, ap, ◌∙◌, true, false, some, List, [], ◌∷◌, arith, sum_below_pos,
  Bool-cases, inl, inr, lt→ltb,
}
use sistemi_operativi.Dispatch.{
  Token, number, junk, MainPc, m_lock, m_scan, m_unlock, m_exit, WorkerPc, w_lock, w_copy, w_unlock,
  w_next, w_link, System, Actor, run_main, run_worker, scan, main_step, worker_step, running, step,
  Reach,
}
use sistemi_operativi.Dispatch.Tokens.{main_token, worker_token, free}
use sistemi_operativi.Dispatch.Conserve.{Inv}
use sistemi_operativi.Dispatch.Workers.{Reach-Inv}

-- A worker moves, unless it waits for `lock`.
worker_moves :
    (me : ℕ) (pc : WorkerPc) (s : System)
    → (pc ≡ w_lock → s.lock ≡ false)
    → (t : System) × (worker_step me pc s ≡ some t)
unfolding worker_step
worker_moves me w_lock s h = rw (h refl) (_, refl)
worker_moves me w_copy s h = (_, refl)
worker_moves me (w_unlock v) s h = (_, refl)
worker_moves me (w_next v) s h = (_, refl)
worker_moves me (w_link aux) s h = (_, refl)

scan_moves : (l : List Token) (s : System) → (t : System) × (scan l s ≡ some t)
unfolding scan
scan_moves [] s = (_, refl)
scan_moves (junk ∷ l) s = (_, refl)
scan_moves (number v ∷ l) s = (_, refl)

worker_step-step :
    {n : ℕ} (me : ℕ) (s : System) {t : System}
    → me < n
    → running s.main ≡ true
    → worker_step me (s.workers me) s ≡ some t
    → step n (run_worker me) s ≡ some t
unfolding step
worker_step-step {n} me s l r e = rw (lt→ltb me n l, r) e

-- While the main thread waits for `next`, a worker moves.
held_moves :
    (n : ℕ) (s : System)
    → Inv n s
    → 0 < n
    → s.main ≡ m_lock
    → s.next ≡ true
    → (me : ℕ) × (me < n) × ((t : System) × (worker_step me (s.workers me) s ≡ some t))
held_moves n s inv h m f = elim (Bool-cases s.lock) [
  | inr g ↦ (0, h, worker_moves 0 (s.workers 0) s (λ e. g))
  | inl g ↦
      let (i, l, w) =
        sum_below_pos worker_token n s.workers
          (omega (arith, inv.token, ap free g, ap free f, ap main_token m)) in
      (i, l, worker_moves i (s.workers i) s (λ e. absurd (omega (arith, w, ap worker_token e))))
]

main_step-step :
    (n : ℕ) (pc : MainPc) (s : System) {t : System}
    → s.main ≡ pc
    → main_step pc s ≡ some t
    → step n run_main s ≡ some t
unfolding step
main_step-step n pc s e h = ap (λ q. main_step q s) e ∙ h

some-step :
    (n : ℕ) (s : System) (pc : MainPc)
    → s.main ≡ pc
    → Inv n s
    → 0 < n
    → running s.main ≡ true
    → (a : Actor) × ((t : System) × (step n a s ≡ some t))
unfolding main_step running
some-step n s m_lock e inv h run = elim (Bool-cases s.next) [
  | inl f ↦
      let (me, l, moved) = held_moves n s inv h e f in
      (run_worker me, (moved.0, worker_step-step me s l run moved.1))
  | inr f ↦ (
    run_main,
    (record s { next = true; main = m_scan }, main_step-step n m_lock s e (rw (f, main_step) refl)),
  )
]
some-step n s m_scan e inv h run =
    let (t, q) = scan_moves s.input s in (run_main, (t, main_step-step n m_scan s e q))
some-step n s m_unlock e inv h run =
    (run_main, (record s { lock = false; main = m_lock }, main_step-step n m_unlock s e refl))
some-step n s m_exit e inv h run = absurd (exited run)
  where
    exited : running s.main ≡ true → ⊥
    exited q = let z : false ≡ true = ap running (sym e) ∙ q in cc

-- In every reachable state of a run with a worker or more, until the process has called `exit`, the main
-- thread or a worker can take a step (at the end of the input, the main thread's is to try again).
never_stuck :
    {n : ℕ} {input : List Token} {s : System}
    → Reach n input s
    → 0 < n
    → running s.main ≡ true
    → (a : Actor) × ((t : System) × (step n a s ≡ some t))
never_stuck {n} {input} {s} r h run = some-step n s s.main refl (Reach-Inv r) h run
