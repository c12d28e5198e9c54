-- ===== src/Bulletin/Safety.antt =====
-- The runs of exercise4(UNIX).c (Tutoraggio 11): what the readers print.
use sistemi_operativi.Prelude.{
  ℕ, ◌+◌, ◌-◌, ◌*◌, ◌≤◌, ◌<◌, ◌≡◌, ◌≢◌, refl, sym, ap, ◌∙◌, List, [], ◌++◌, append-nil, take,
  take-append, length, arith, ◌⊎◌, inl, inr, sum_below, sum_below_zero, le-sum_below, ltb, ltb→lt,
  Bool-cases, subst, replicate,
}
use sistemi_operativi.Bulletin.{
  Message, WriterPc, w_take, w_open, w_write, w_post, w_last, w_kill, w_end, r_start, r_print,
  Reader, System, step, Actor, run_writer, run_reader, start, Reach, here, next,
}
use sistemi_operativi.Bulletin.Tokens.{
  at_print, prints, posts, waits, has, held_back, announced, copies, missing, Inv,
}
use sistemi_operativi.Bulletin.Steps.{After, reader_After}
use sistemi_operativi.Bulletin.Writer.{tokens-at, order-at, shown-at, writer_After, loop-Loops}
use sistemi_operativi.Bulletin.Measure.{measure, ahead_of-loop, Counts, step-Counts}
use sistemi_operativi.Bulletin.Progress.{Moves, writer_Moves}

held_back-has : (n : ℕ) (w : WriterPc) → held_back n w ≤ has n w
held_back-has n w_take = omega arith
held_back-has n w_open = omega arith
held_back-has n w_write = omega arith
held_back-has n w_post = omega arith
held_back-has n w_last = omega arith
held_back-has n (w_kill k) = omega arith
held_back-has n w_end = omega arith

module _ (n steps : ℕ) (input : List Message) where
  step-After :
      (s : System) (a : Actor) → Inv n steps input s → After n steps input (step n steps a s)
  unfolding step
  step-After s run_writer inv = writer_After n steps input s inv s.writer refl
  step-After s (run_reader me) inv = elim (Bool-cases (ltb me n)) [
    | inr h ↦ rw (h) tt
    | inl h ↦ rw (h) (reader_After n steps input s me (ltb→lt me n h) inv (s.readers me).pc refl)
  ]

  silent_start :
      (w : Reader → ℕ)
      → w (record { pc = r_start; printed = [] }) ≡ 0
      → sum_below w n (start n steps input).readers ≡ 0
  silent_start w e = sum_below_zero w n (start n steps input).readers (λ i l. e)

  start-Inv : Inv n steps input (start n steps input)
  start-Inv =
      let at = loop-Loops n steps 0 in
      let p = silent_start prints refl in
      let q = silent_start posts refl in
      let w = silent_start waits refl in
      let z : missing n (start n steps input) ≡ 0 = omega (arith, p, at.free) in
      record {
        tokens = omega (arith, p, q, at.lends);
        gates = omega (arith, w, at.even);
        spared = λ j l. omega arith;
        in_loop = at.in_loop;
        order = ap (λ k. announced k input []) (at.togo ∙ omega arith);
        shown = ap (λ k. replicate k (start n steps input).message) z;
      }

  pub Reach-Inv : {k : ℕ} {s : System} → Reach n steps input k s → Inv n steps input s
  Reach-Inv here = start-Inv
  Reach-Inv (next a r e) = subst (After n steps input) e (step-After _ a (Reach-Inv r))

  -- A state that is reached in `k` steps has what is left of the measure.
  Reach-measure :
      {k : ℕ} {s : System}
      → Reach n steps input k s
      → k + measure n steps s ≡ measure n steps (start n steps input)
  Reach-measure here = omega arith
  Reach-measure (next {k} {s} {t} a r e) =
      let one_less : measure n steps t + 1 ≡ measure n steps s =
        subst (Counts n steps s) e (step-Counts n steps input s (Reach-Inv r) a) in
      omega (arith, one_less, Reach-measure r)

  start-measure : measure n steps (start n steps input) ≡ steps * (4 * n + 4) + n + 2
  start-measure =
      let z : steps - 0 ≡ steps = omega arith in
      omega (
        arith,
        silent_start prints refl,
        silent_start posts refl,
        ahead_of-loop n steps 0,
        ap (λ k. k * (4 * n + 4)) z,
      )

  -- In every reachable state the readers have printed each message that the writer has written before the last
  -- one as often as there are readers, the last one at most so often, and all in the order of the
  -- messages, which are the first lines of the input (behind its end the last message again).
  pub messages_shown :
      {k : ℕ} {s : System}
      → Reach n steps input k s
      → ((left : ℕ) × ((left ≤ n) × (s.output ++ replicate left s.message ≡ copies n s.messages)))
        × (s.messages ≡ take (length s.messages) (announced steps input []))
  messages_shown {k} {s} r =
      let inv = Reach-Inv r in
      (
        (missing n s, (omega (arith, inv.tokens, held_back-has n s.writer), inv.shown)),
        sym (
            ap (take (length s.messages)) (sym inv.order)
            ∙ take-append (length s.messages) s.messages _ refl),
      )

  -- Every run ends: it has at most N_STEP * (4 * N_READER + 4) + N_READER + 2 steps, and in every state that it
  -- reaches some process can take a step, or the writer has ended and the readers have printed each
  -- message as often as there are readers, in the order of the messages.
  pub runs_end :
      {k : ℕ} {s : System}
      → Reach n steps input k s
      → (k ≤ steps * (4 * n + 4) + n + 2)
        × (((s.writer ≡ w_end) × (s.output ≡ copies n (announced steps input [])))
            ⊎ ((a : Actor) × Moves (step n steps a s)))
  runs_end {k} {s} r =
      let inv = Reach-Inv r in
      (
        omega (arith, Reach-measure r, start-measure),
        elim (writer_Moves n steps input s inv s.writer refl) [
          | inr m ↦ inr m
          | inl q ↦
              let t = tokens-at n steps input s inv w_end q in
              inl (
                q,
                sym (append-nil s.output)
                    ∙ shown-at n steps input s inv 0 w_end q (omega (arith, t))
                    ∙ ap (copies n)
                        (sym (append-nil s.messages) ∙ order-at n steps input s inv w_end q),
              )
        ],
      )

  -- While the writer is writing a message, no reader is before `printf`.
  write_exclusive :
      {k : ℕ} {s : System} (me : ℕ)
      → Reach n steps input k s
      → me < n
      → s.writer ≡ w_write
      → (s.readers me).pc ≢ r_print
  write_exclusive {k} {s} me r l q e =
      let t = tokens-at n steps input s (Reach-Inv r) w_write q in
      absurd (omega (arith, t, le-sum_below prints n s.readers me l, ap at_print e))
