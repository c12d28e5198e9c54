-- ===== src/Bulletin/Measure.antt =====
-- How many steps exercise4(UNIX).c (Tutoraggio 11) can still take.
use native.Mathlib.Nat.{add-mul}
use sistemi_operativi.Prelude.{
  ℕ, ◌+◌, ◌-◌, ◌*◌, ◌≤◌, ◌<◌, ◌≡◌, refl, ap, Option, none, some, List, [], ◌∷◌, ◌++◌, arith, inl,
  inr, update, sum_below, sum_below-update, le-sum_below, ltb, leb, ltb→lt, Bool-cases,
}
use sistemi_operativi.Bulletin.{
  Message, WriterPc, w_take, w_open, w_write, w_post, w_last, w_end, w_kill, ReaderPc, r_start,
  r_wait, r_print, r_post, r_barrier, r_killed, Reader, System, with_reader, reader_step, loop,
  writer_step, step, Actor, run_writer, run_reader,
}
use sistemi_operativi.Bulletin.Tokens.{at_print, at_post, prints, posts, Inv}
use sistemi_operativi.Bulletin.Writer.{tokens-at}

-- The steps that the writer still takes, and those of readers that its semops still allow.
unfoldable pub ahead_of : ℕ → ℕ → WriterPc → ℕ → ℕ
ahead_of n steps w_take i = (steps - (i + 1)) * (4 * n + 4) + 5 * n + 6
ahead_of n steps w_open i = (steps - (i + 1)) * (4 * n + 4) + 5 * n + 5
ahead_of n steps w_write i = (steps - (i + 1)) * (4 * n + 4) + 4 * n + 4
ahead_of n steps w_post i = (steps - (i + 1)) * (4 * n + 4) + 4 * n + 3
ahead_of n steps w_last i = n + 2
ahead_of n steps (w_kill k) i = n - k + 1
ahead_of n steps w_end i = 0

abbrev pub measure : ℕ → ℕ → System → ℕ
measure n steps s =
    3 * s.sem1
    + s.sem2
    + 2 * sum_below prints n s.readers
    + sum_below posts n s.readers
    + ahead_of n steps s.writer s.i

pub ahead_of-loop :
    (n steps i : ℕ) → ahead_of n steps (loop n steps i) i ≡ (steps - i) * (4 * n + 4) + n + 2
unfolding ahead_of
ahead_of-loop n steps i = elim (Bool-cases (ltb i steps)) [
  | inl e ↦
      let l : i < steps = ltb→lt i steps e in
      let t : steps - i ≡ (steps - (i + 1)) + 1 = omega (arith, l) in
      rw (e) (omega (arith, ap (λ k. k * (4 * n + 4)) t, add-mul (steps - (i + 1)) 1 (4 * n + 4)))
  | inr e ↦
      let l : steps ≤ i = ground (arith, e) in
      let t : steps - i ≡ 0 = omega (arith, l) in
      rw (e) (omega (arith, ap (λ k. k * (4 * n + 4)) t))
]

abbrev pub Counts : ℕ → ℕ → System → Option System → Type 0
Counts n steps s none = Unit
Counts n steps s (some t) = measure n steps t + 1 ≡ measure n steps s

module _ (n steps : ℕ) (s : System) (me : ℕ) (mine : me < n) where
  moved-Counts :
      (c : Reader) (sem0 sem1 sem2 : ℕ) (output : List Message)
      → 3 * sem1 + sem2 + 2 * at_print c.pc + at_post c.pc + 1
        ≡ 3 * s.sem1 + s.sem2 + 2 * at_print (s.readers me).pc + at_post (s.readers me).pc
      → Counts n steps s (
          some (
            with_reader me c (record s { sem0 = sem0; sem1 = sem1; sem2 = sem2; output = output })))
  moved-Counts c sem0 sem1 sem2 output e =
      let f = update s.readers me c in
      let p : sum_below prints n f + prints (s.readers me)
          ≡ sum_below prints n s.readers + prints c =
        sum_below-update prints n s.readers me c mine in
      let q : sum_below posts n f + posts (s.readers me) ≡ sum_below posts n s.readers + posts c =
        sum_below-update posts n s.readers me c mine in
      omega (arith, e, p, q)

  reader_Counts :
      (pc : ReaderPc)
      → (s.readers me).pc ≡ pc
      → Counts n steps s (reader_step me pc (s.readers me) s)
  unfolding reader_step
  reader_Counts r_start e = elim (Bool-cases (ltb 0 s.sem2)) [
    | inr h ↦ rw (h) tt
    | inl h ↦ rw (h) (
        moved-Counts _ s.sem0 s.sem1 (s.sem2 - 1) s.output
          (omega (arith, ltb→lt 0 s.sem2 h, ap at_print e, ap at_post e)))
  ]
  reader_Counts r_wait e = elim (Bool-cases (ltb 0 s.sem1)) [
    | inr h ↦ rw (h) tt
    | inl h ↦ rw (h) (
        moved-Counts _ s.sem0 (s.sem1 - 1) s.sem2 s.output
          (omega (arith, ltb→lt 0 s.sem1 h, ap at_print e, ap at_post e)))
  ]
  reader_Counts r_print e =
      moved-Counts _ s.sem0 s.sem1 s.sem2 (s.output ++ (s.message ∷ []))
        (omega (arith, ap at_print e, ap at_post e))
  reader_Counts r_post e =
      moved-Counts _ (s.sem0 + 1) s.sem1 s.sem2 s.output
        (omega (arith, ap at_print e, ap at_post e))
  reader_Counts r_barrier e = elim (Bool-cases (ltb 0 s.sem2)) [
    | inr h ↦ rw (h) tt
    | inl h ↦ rw (h) (
        moved-Counts _ s.sem0 s.sem1 (s.sem2 - 1) s.output
          (omega (arith, ltb→lt 0 s.sem2 h, ap at_print e, ap at_post e)))
  ]
  reader_Counts r_killed e = tt

module _ (n steps : ℕ) (input : List Message) (s : System) (inv : Inv n steps input s) where
  -- The measure with the writer there.
  measure-at :
      (pc : WriterPc)
      → s.writer ≡ pc
      → measure n steps s
        ≡ 3 * s.sem1
          + s.sem2
          + 2 * sum_below prints n s.readers
          + sum_below posts n s.readers
          + ahead_of n steps pc s.i
  measure-at pc q = omega (arith, ap (λ w. ahead_of n steps w s.i) q)

  kill-Counts :
      (k : ℕ)
      → s.writer ≡ w_kill k
      → k < n
      → Counts n steps s (
          some (record s {
            writer = w_kill (k + 1);
            readers = update s.readers k (record (s.readers k) { pc = r_killed });
          }))
  unfolding ahead_of
  kill-Counts k q l =
      let c = record (s.readers k) { pc = r_killed } in
      let f = update s.readers k c in
      let t = tokens-at n steps input s inv (w_kill k) q in
      let p : sum_below prints n f + prints (s.readers k) ≡ sum_below prints n s.readers + 0 =
        sum_below-update prints n s.readers k c l in
      let r : sum_below posts n f + posts (s.readers k) ≡ sum_below posts n s.readers + 0 =
        sum_below-update posts n s.readers k c l in
      omega (arith, t, p, r, l, measure-at (w_kill k) q, le-sum_below posts n s.readers k l)

  writer_Counts : (pc : WriterPc) → s.writer ≡ pc → Counts n steps s (writer_step n steps pc s)
  unfolding writer_step ahead_of
  writer_Counts w_take q = elim (Bool-cases (leb n s.sem0)) [
    | inr h ↦ rw (h) tt
    | inl h ↦ rw (h) (omega (arith, measure-at w_take q))
  ]
  writer_Counts w_open q = omega (arith, measure-at w_open q)
  writer_Counts w_write q = omega (arith, measure-at w_write q)
  writer_Counts w_post q = omega (arith, measure-at w_post q, ahead_of-loop n steps (s.i + 1))
  writer_Counts w_last q = elim (Bool-cases (leb n s.sem0)) [
    | inr h ↦ rw (h) tt
    | inl h ↦ rw (h) (omega (arith, measure-at w_last q))
  ]
  writer_Counts (w_kill k) q = elim (Bool-cases (ltb k n)) [
    | inl h ↦ rw (h) (kill-Counts k q (ltb→lt k n h))
    | inr h ↦
        let l : n ≤ k = ground (arith, h) in rw (h) (omega (arith, l, measure-at (w_kill k) q))
  ]
  writer_Counts w_end q = tt

  -- Every step makes the measure one less.
  pub step-Counts : (a : Actor) → Counts n steps s (step n steps a s)
  unfolding step
  step-Counts run_writer = writer_Counts s.writer refl
  step-Counts (run_reader me) = elim (Bool-cases (ltb me n)) [
    | inr h ↦ rw (h) tt
    | inl h ↦ rw (h) (reader_Counts n steps s me (ltb→lt me n h) (s.readers me).pc refl)
  ]
