-- ===== src/Bulletin/Steps.antt =====
-- The steps of the readers of exercise4(UNIX).c (Tutoraggio 11).
use sistemi_operativi.Prelude.{
  ℕ, suc, ◌+◌, ◌-◌, ◌<◌, ◌≡◌, refl, ap, ◌∙◌, Option, none, some, List, [], ◌∷◌, ◌++◌, append_assoc,
  arith, inl, inr, update, sum_below, sum_below-update, ltb, ltb→lt, Bool-cases, subst, replicate,
}
use sistemi_operativi.Bulletin.{
  Message, ReaderPc, r_start, r_wait, r_print, r_post, r_barrier, r_killed, Reader, System,
  with_reader, reader_step,
}
use sistemi_operativi.Bulletin.Tokens.{
  at_killed, kills, spared-update, at_print, at_post, at_wait, prints, posts, waits, held_back,
  copies, missing, Inv,
}

abbrev pub After : ℕ → ℕ → List Message → Option System → Type 0
After n steps input none = Unit
After n steps input (some s) = Inv n steps input s

module _ (n steps : ℕ) (input : List Message) (s : System) (me : ℕ) (mine : me < n)
    (inv : Inv n steps input s) where
  -- A reader moves with the tokens, and prints at most one message.
  moved-Inv :
      (c : Reader) (sem0 sem1 sem2 : ℕ) (output : List Message)
      → at_killed c.pc ≡ 0
      → sem0 + sem1 + at_print c.pc + at_post c.pc
        ≡ s.sem0 + s.sem1 + at_print (s.readers me).pc + at_post (s.readers me).pc
      → sem2 + at_wait c.pc + s.sem1 ≡ s.sem2 + at_wait (s.readers me).pc + sem1
      → ((k : ℕ)
          → k + (s.sem1 + at_print (s.readers me).pc) ≡ missing n s + (sem1 + at_print c.pc)
          → output ++ replicate k s.message ≡ copies n s.messages)
      → Inv n steps input
          (with_reader me c (record s { sem0 = sem0; sem1 = sem1; sem2 = sem2; output = output }))
  moved-Inv c sem0 sem1 sem2 output live token gate shows =
      let f = update s.readers me c in
      let p : sum_below prints n f + prints (s.readers me)
          ≡ sum_below prints n s.readers + prints c =
        sum_below-update prints n s.readers me c mine in
      let q : sum_below posts n f + posts (s.readers me) ≡ sum_below posts n s.readers + posts c =
        sum_below-update posts n s.readers me c mine in
      let w : sum_below waits n f + waits (s.readers me) ≡ sum_below waits n s.readers + waits c =
        sum_below-update waits n s.readers me c mine in
      record {
        tokens = omega (arith, inv.tokens, token, p, q);
        gates = omega (arith, inv.gates, gate, w);
        spared = spared-update n s.readers me c (kills s.writer) inv.spared (omega (arith, live));
        in_loop = inv.in_loop;
        order = inv.order;
        shown = shows (sem1 + sum_below prints n f + held_back n s.writer) (omega (arith, p));
      }

  -- It prints nothing.
  silent :
      (c : Reader) (sem0 sem1 sem2 : ℕ)
      → at_killed c.pc ≡ 0
      → sem0 + sem1 + at_print c.pc + at_post c.pc
        ≡ s.sem0 + s.sem1 + at_print (s.readers me).pc + at_post (s.readers me).pc
      → sem2 + at_wait c.pc + s.sem1 ≡ s.sem2 + at_wait (s.readers me).pc + sem1
      → sem1 + at_print c.pc ≡ s.sem1 + at_print (s.readers me).pc
      → Inv n steps input (with_reader me c (record s { sem0 = sem0; sem1 = sem1; sem2 = sem2 }))
  silent c sem0 sem1 sem2 live token gate same =
      moved-Inv c sem0 sem1 sem2 s.output live token gate (λ k e.
        subst (λ k. s.output ++ replicate k s.message ≡ copies n s.messages)
          (omega (arith, same, e)) inv.shown)

  pub reader_After :
      (pc : ReaderPc)
      → (s.readers me).pc ≡ pc
      → After n steps input (reader_step me pc (s.readers me) s)
  unfolding reader_step
  reader_After r_start e = elim (Bool-cases (ltb 0 s.sem2)) [
    | inr h ↦ rw (h) tt
    | inl h ↦
        let l = ltb→lt 0 s.sem2 h in
        rw (h) (
          silent _ s.sem0 s.sem1 (s.sem2 - 1) refl (omega (arith, ap at_print e, ap at_post e))
            (omega (arith, l, ap at_wait e)) (omega (arith, ap at_print e)))
  ]
  reader_After r_wait e = elim (Bool-cases (ltb 0 s.sem1)) [
    | inr h ↦ rw (h) tt
    | inl h ↦
        let l = ltb→lt 0 s.sem1 h in
        rw (h) (
          silent _ s.sem0 (s.sem1 - 1) s.sem2 refl (omega (arith, l, ap at_print e, ap at_post e))
            (omega (arith, l, ap at_wait e)) (omega (arith, l, ap at_print e)))
  ]
  reader_After r_print e =
      moved-Inv _ s.sem0 s.sem1 s.sem2 (s.output ++ (s.message ∷ [])) refl
        (omega (arith, ap at_print e, ap at_post e)) (omega (arith, ap at_wait e))
        (λ k q.
          let one_less : suc k ≡ missing n s = omega (arith, q, ap at_print e) in
          append_assoc s.output (s.message ∷ []) (replicate k s.message)
          ∙ ap (λ j. s.output ++ replicate j s.message) one_less
          ∙ inv.shown)
  reader_After r_post e =
      silent _ (s.sem0 + 1) s.sem1 s.sem2 refl (omega (arith, ap at_print e, ap at_post e))
        (omega (arith, ap at_wait e)) (omega (arith, ap at_print e))
  reader_After r_barrier e = elim (Bool-cases (ltb 0 s.sem2)) [
    | inr h ↦ rw (h) tt
    | inl h ↦
        let l = ltb→lt 0 s.sem2 h in
        rw (h) (
          silent _ s.sem0 s.sem1 (s.sem2 - 1) refl (omega (arith, ap at_print e, ap at_post e))
            (omega (arith, l, ap at_wait e)) (omega (arith, ap at_print e)))
  ]
  reader_After r_killed e = tt
