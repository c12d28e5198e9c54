-- ===== src/Bulletin/Turns.antt =====
-- A reader of exercise4(UNIX).c (Tutoraggio 11) that goes once round its loop.
use sistemi_operativi.Prelude.{
  ℕ, suc, ◌+◌, ◌-◌, ◌<◌, ◌≡◌, ◌≢◌, refl, ap, ◌∙◌, some, List, [], ◌∷◌, ◌++◌, lt→ltb, update_self,
  update_ne,
}
use sistemi_operativi.Bulletin.{
  Message, ReaderPc, r_start, r_wait, r_print, r_post, r_barrier, System, with_reader, reader_step,
  step, run_reader, Reach, next,
}

-- The turn of reader `j`: past the barrier, past semaphore 1, `printf`, and its semop on 0.
abbrev passed : ℕ → System → System
passed j s = with_reader j (record (s.readers j) { pc = r_wait }) (record s { sem2 = s.sem2 - 1 })

abbrev allowed : ℕ → System → System
allowed j s = with_reader j (record (s.readers j) { pc = r_print }) (record s { sem1 = s.sem1 - 1 })

abbrev shown_by : ℕ → System → System
shown_by j s =
    with_reader j
      (record (s.readers j) { pc = r_post; printed = (s.readers j).printed ++ (s.message ∷ []) })
      (record s { output = s.output ++ (s.message ∷ []) })

abbrev told : ℕ → System → System
told j s = with_reader j (record (s.readers j) { pc = r_barrier }) (record s { sem0 = s.sem0 + 1 })

abbrev pub turn : ℕ → System → System
turn j s = told j (shown_by j (allowed j (passed j s)))

-- It leaves the other readers as they are.
pub turn-others : (j i : ℕ) (s : System) → j ≢ i → (turn j s).readers i ≡ s.readers i
turn-others j i s h =
    let s1 = passed j s in
    let s2 = allowed j s1 in
    let s3 = shown_by j s2 in
    update_ne s3.readers j i (record (s3.readers j) { pc = r_barrier }) h
    ∙ update_ne s2.readers j i
        (record (s2.readers j) {
          pc = r_post;
          printed = (s2.readers j).printed ++ (s2.message ∷ []);
        })
        h
    ∙ update_ne s1.readers j i (record (s1.readers j) { pc = r_print }) h
    ∙ update_ne s.readers j i (record (s.readers j) { pc = r_wait }) h

pub turn-printed :
    (j : ℕ) (s : System)
    → ((turn j s).readers j).printed ≡ (s.readers j).printed ++ (s.message ∷ [])
turn-printed j s =
    let s1 = passed j s in
    let s2 = allowed j s1 in
    let s3 = shown_by j s2 in
    ap (λ c. c.printed) (update_self s3.readers j (record (s3.readers j) { pc = r_barrier }))
    ∙ ap (λ c. c.printed)
        (update_self s2.readers j (record (s2.readers j) {
          pc = r_post;
          printed = (s2.readers j).printed ++ (s2.message ∷ []);
        }))
    ∙ ap (λ c. c.printed ++ (s.message ∷ []))
        (update_self s1.readers j (record (s1.readers j) { pc = r_print }))
    ∙ ap (λ c. c.printed ++ (s.message ∷ []))
        (update_self s.readers j (record (s.readers j) { pc = r_wait }))

pub turn-pc : (j : ℕ) (s : System) → ((turn j s).readers j).pc ≡ r_barrier
turn-pc j s =
    let s3 = shown_by j (allowed j (passed j s)) in
    ap (λ c. c.pc) (update_self s3.readers j (record (s3.readers j) { pc = r_barrier }))

module _ (n steps : ℕ) (input : List Message) where
  one_step :
      (j : ℕ) (s t : System) (pc : ReaderPc)
      → j < n
      → (s.readers j).pc ≡ pc
      → reader_step j pc (s.readers j) s ≡ some t
      → step n steps (run_reader j) s ≡ some t
  unfolding step
  one_step j s t pc l q e = rw (lt→ltb j n l) (ap (λ p. reader_step j p (s.readers j) s) q ∙ e)

  -- The rest of a turn, behind the barrier.
  rest-Reach :
      {k : ℕ} (j : ℕ) (s : System)
      → j < n
      → Reach n steps input k (passed j s)
      → 0 < s.sem1
      → Reach n steps input (suc (suc (suc k))) (turn j s)
  unfolding reader_step
  rest-Reach j s l r h =
      let s1 = passed j s in
      let s2 = allowed j s1 in
      let s3 = shown_by j s2 in
      let q1 : (s1.readers j).pc ≡ r_wait = ap (λ c. c.pc) (update_self s.readers j _) in
      let q2 : (s2.readers j).pc ≡ r_print = ap (λ c. c.pc) (update_self s1.readers j _) in
      let q3 : (s3.readers j).pc ≡ r_post = ap (λ c. c.pc) (update_self s2.readers j _) in
      next {s = s3} (run_reader j)
        (next {s = s2} (run_reader j)
          (next {s = s1} (run_reader j) r
            (one_step j s1 s2 r_wait l q1 (rw (lt→ltb 0 s.sem1 h) refl)))
          (one_step j s2 s3 r_print l q2 refl))
        (one_step j s3 (turn j s) r_post l q3 refl)

  pub first_turn-Reach :
      {k : ℕ} (j : ℕ) (s : System)
      → j < n
      → Reach n steps input k s
      → (s.readers j).pc ≡ r_start
      → 0 < s.sem2
      → 0 < s.sem1
      → Reach n steps input (suc (suc (suc (suc k)))) (turn j s)
  unfolding reader_step
  first_turn-Reach j s l r q g h =
      rest-Reach j s l
        (next {s = s} (run_reader j) r
          (one_step j s (passed j s) r_start l q (rw (lt→ltb 0 s.sem2 g) refl)))
        h

  pub next_turn-Reach :
      {k : ℕ} (j : ℕ) (s : System)
      → j < n
      → Reach n steps input k s
      → (s.readers j).pc ≡ r_barrier
      → 0 < s.sem2
      → 0 < s.sem1
      → Reach n steps input (suc (suc (suc (suc k)))) (turn j s)
  unfolding reader_step
  next_turn-Reach j s l r q g h =
      rest-Reach j s l
        (next {s = s} (run_reader j) r
          (one_step j s (passed j s) r_barrier l q (rw (lt→ltb 0 s.sem2 g) refl)))
        h
