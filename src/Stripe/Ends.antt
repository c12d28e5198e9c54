-- ===== src/Stripe/Ends.antt =====
-- The loop of `theHandler` of prog.c (exam of 19-9-2018) while the other threads stand still.
use sistemi_operativi.Prelude.{
  ℕ, zero, suc, ◌+◌, ◌%◌, ◌<◌, ◌≡◌, sym, ap, subst, List, ◌++◌, arith, length, length-append, inl,
  inr,
}
use sistemi_operativi.Stripe.{System, h_read, h_done, Watched, handler_step, Watch, handle}
use sistemi_operativi.Stripe.Safety.{Late}
use sistemi_operativi.Stripe.Handler.{same_system, handler_replays}

-- That many steps of the handler, and of no other thread.
unfoldable pub handle_for : ℕ → ℕ → Watched → Watched
handle_for n zero w = w
handle_for n (suc k) w = handle_for n k (handler_step n w.handler w)

-- The loop has ended in the state `s` of the others, and all bytes but those in no file are printed.
abbrev pub Ended : System → Watched → Type 0
Ended s t = (t.handler ≡ h_done) × ((rest : List ℕ) × ((s.taken ≡ t.output ++ rest) × Late s rest))

ends_within :
    {n : ℕ} {input : List ℕ} (m turn : ℕ) (w : Watched)
    → 0 < n
    → Watch n input w
    → w.handler ≡ h_read turn
    → length w.system.taken < length w.output + m
    → (k : ℕ) × Ended w.system (handle_for n k w)
unfolding handle_for
ends_within {n} zero turn w pos v e l =
    let t = handler_step n w.handler w in
    let (rest, (q, d)) = handler_replays pos v e in
    elim d [
      | inl (h, g) ↦ absurd (omega (arith, l, g, ap length q, length-append t.output rest))
      | inr (h, (g, late)) ↦ (1, (h, (rest, (q, late))))
    ]
ends_within {n} (suc m) turn w pos v e l =
    let t = handler_step n w.handler w in
    let (rest, (q, d)) = handler_replays pos v e in
    elim d [
      | inl (h, g) ↦
          let same : w.system ≡ t.system = same_system n w.handler w in
          let l' : length t.system.taken < length t.output + m =
            subst (λ s. length s.taken < length t.output + m) same (omega (arith, l, g)) in
          let (k, ended) = ends_within m ((turn + 1) % n) t pos (handle v) h l' in
          (suc k, subst (λ s. Ended s (handle_for n k t)) (sym same) ended)
      | inr (h, (g, late)) ↦ (1, (h, (rest, (q, late))))
    ]

-- With one handler at a time, which is before a `ReadFile`: while the other threads stand still, its loop
-- ends after some of its own steps, and it has then printed the bytes that `main` has read, in their order,
-- but for at most five, and all of them where the main thread waits and `semaphores[0]` is free.
pub handler_ends :
    {n turn : ℕ} {input : List ℕ} {w : Watched}
    → 0 < n
    → Watch n input w
    → w.handler ≡ h_read turn
    → (k : ℕ) × Ended w.system (handle_for n k w)
handler_ends {turn = turn} {w = w} pos v e =
    ends_within (suc (length w.system.taken)) turn w pos v e (omega arith)
