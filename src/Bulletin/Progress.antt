-- ===== src/Bulletin/Progress.antt =====
-- Which process of exercise4(UNIX).c (Tutoraggio 11) can go on.
use sistemi_operativi.Prelude.{
  ℕ, ◌+◌, ◌≤◌, ◌<◌, ◌≡◌, refl, ap, ◌∙◌, Option, some, List, arith, ◌⊎◌, inl, inr, sum_below,
  sum_below_pos, le-sum_below, ltb, leb, lt→ltb, Bool-cases, ℕ_discrete,
}
use sistemi_operativi.Bulletin.{
  Message, WriterPc, w_take, w_open, w_write, w_post, w_last, w_end, w_kill, ReaderPc, r_start,
  r_wait, r_print, r_post, r_barrier, r_killed, Reader, System, reader_step, writer_step, step,
  Actor, run_writer, run_reader,
}
use sistemi_operativi.Bulletin.Tokens.{
  at_print, at_post, at_wait, at_killed, prints, posts, waits, kills, has, ahead, Inv,
}
use sistemi_operativi.Bulletin.Writer.{tokens-at, gates-at, spared-at}

abbrev pub Moves : Option System → Type 0
Moves o = (t : System) × (o ≡ some t)

one_place : (pc : ReaderPc) → at_wait pc + at_print pc + at_post pc ≤ 1
one_place r_start = omega arith
one_place r_wait = omega arith
one_place r_print = omega arith
one_place r_post = omega arith
one_place r_barrier = omega arith
one_place r_killed = omega arith

reader_Moves :
    (me : ℕ) (pc : ReaderPc) (c : Reader) (s : System)
    → at_killed pc ≡ 0
    → (0 < at_wait pc → 0 < s.sem1)
    → (at_wait pc + at_print pc + at_post pc ≡ 0 → 0 < s.sem2)
    → Moves (reader_step me pc c s)
unfolding reader_step
reader_Moves me r_start c s live one two = rw (lt→ltb 0 s.sem2 (two refl)) (_, refl)
reader_Moves me r_wait c s live one two = rw (lt→ltb 0 s.sem1 (one (omega arith))) (_, refl)
reader_Moves me r_print c s live one two = (_, refl)
reader_Moves me r_post c s live one two = (_, refl)
reader_Moves me r_barrier c s live one two = rw (lt→ltb 0 s.sem2 (two refl)) (_, refl)
reader_Moves me r_killed c s live one two = absurd (omega (arith, live))

module _ (n steps : ℕ) (input : List Message) (s : System) (inv : Inv n steps input s) where
  run_reader-Moves :
      (me : ℕ)
      → me < n
      → Moves (reader_step me (s.readers me).pc (s.readers me) s)
      → (a : Actor) × Moves (step n steps a s)
  unfolding step
  run_reader-Moves me l m = (run_reader me, rw (lt→ltb me n l) m)

  run_writer-Moves :
      (pc : WriterPc)
      → s.writer ≡ pc
      → Moves (writer_step n steps pc s)
      → (a : Actor) × Moves (step n steps a s)
  unfolding step
  run_writer-Moves pc q m = (run_writer, (m.0, ap (λ w. writer_step n steps w s) q ∙ m.1))

  -- The writer waits for a token of semaphore 0 that a reader, or a semaphore for the readers, has.
  readers_Moves :
      (pc : WriterPc)
      → s.writer ≡ pc
      → has n pc ≡ 0
      → ahead n pc ≡ 0
      → kills pc ≡ 0
      → s.sem0 < n
      → (a : Actor) × Moves (step n steps a s)
  readers_Moves pc q h e k l =
      let t = tokens-at n steps input s inv pc q in
      let g = gates-at n steps input s inv pc q in
      let live : (j : ℕ) → j < n → at_killed (s.readers j).pc ≡ 0 =
        λ j m. omega (arith, spared-at n steps input s inv pc q j m, k) in
      elim (ℕ_discrete (sum_below prints n s.readers) 0) [
        | no p ↦
            let (j, m, w) = sum_below_pos prints n s.readers (omega (arith, p)) in
            run_reader-Moves j m (
              reader_Moves j (s.readers j).pc (s.readers j) s (live j m)
                (λ x. omega (arith, x, w, one_place (s.readers j).pc)) (λ x. omega (arith, x, w)))
        | yes p ↦ elim (ℕ_discrete (sum_below posts n s.readers) 0) [
          | no r ↦
              let (j, m, w) = sum_below_pos posts n s.readers (omega (arith, r)) in
              run_reader-Moves j m (
                reader_Moves j (s.readers j).pc (s.readers j) s (live j m)
                  (λ x. omega (arith, x, w, one_place (s.readers j).pc)) (λ x. omega (arith, x, w)))
          | yes r ↦ elim (ℕ_discrete (sum_below waits n s.readers) 0) [
            | no w ↦
                let (j, m, x) = sum_below_pos waits n s.readers (omega (arith, w)) in
                run_reader-Moves j m (
                  reader_Moves j (s.readers j).pc (s.readers j) s (live j m)
                    (λ y. omega (arith, g, e, w)) (λ y. omega (arith, x, y)))
            | yes w ↦ run_reader-Moves 0 (omega (arith, l)) (
                reader_Moves 0 (s.readers 0).pc (s.readers 0) s (live 0 (omega (arith, l)))
                  (λ x. omega (arith, x, w, le-sum_below waits n s.readers 0 (omega (arith, l))))
                  (λ x. omega (arith, t, g, h, e, l, p, r, w)))
          ]
        ]
      ]

  -- Until the writer has ended, some process can take a step.
  pub writer_Moves :
      (pc : WriterPc) → s.writer ≡ pc → (pc ≡ w_end) ⊎ ((a : Actor) × Moves (step n steps a s))
  unfolding writer_step
  writer_Moves w_take q = elim (Bool-cases (leb n s.sem0)) [
    | inl h ↦ inr (run_writer-Moves w_take q (rw (h) (_, refl)))
    | inr h ↦ inr (readers_Moves w_take q refl refl refl (ground (arith, h)))
  ]
  writer_Moves w_open q = inr (run_writer-Moves w_open q (_, refl))
  writer_Moves w_write q = inr (run_writer-Moves w_write q (_, refl))
  writer_Moves w_post q = inr (run_writer-Moves w_post q (_, refl))
  writer_Moves w_last q = elim (Bool-cases (leb n s.sem0)) [
    | inl h ↦ inr (run_writer-Moves w_last q (rw (h) (_, refl)))
    | inr h ↦ inr (readers_Moves w_last q refl refl refl (ground (arith, h)))
  ]
  writer_Moves (w_kill k) q = elim (Bool-cases (ltb k n)) [
    | inl h ↦ inr (run_writer-Moves (w_kill k) q (rw (h) (_, refl)))
    | inr h ↦ inr (run_writer-Moves (w_kill k) q (rw (h) (_, refl)))
  ]
  writer_Moves w_end q = inl refl
