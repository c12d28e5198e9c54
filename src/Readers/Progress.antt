-- ===== src/Readers/Progress.antt =====
-- Which process of readers-writers-syncronization.c can go on.
use sistemi_operativi.Prelude.{
  ℕ, ◌<◌, ◌≡◌, refl, ap, ◌∙◌, Option, some, arith, inl, inr, sum_below, sum_below_pos, ltb, leb,
  lt→ltb, Bool-cases, true, ℕ_discrete,
}
use sistemi_operativi.Readers.{
  ProducerPc, p_wait_write, p_wait_read, p_post_read, p_post_write, p_fill, ConsumerPc,
  c_wait_write, c_wait_read, c_post_write, c_post_read, c_sum, c_ended, Consumer, System, Actor,
  run_producer, run_consumer, producer_step, consumer_step, step, Reach,
}
use sistemi_operativi.Readers.Locks.{
  writer, filler, at_write, at_read, holds_write, holds_read, Inv,
}
use sistemi_operativi.Readers.Runs.{Reach-Inv}

abbrev pub Moves : Option System → Type 0
Moves o = (t : System) × (o ≡ some t)

module _ (n size last : ℕ) (s : System) where
  consumer_Moves :
      (me : ℕ)
      → me < n
      → Moves (consumer_step n size last me (s.consumers me).pc (s.consumers me) s)
      → (a : Actor) × Moves (step n size last a s)
  unfolding step
  consumer_Moves me l m = (run_consumer me, rw (lt→ltb me n l) m)

  producer_Moves :
      (pc : ProducerPc)
      → s.producer ≡ pc
      → Moves (producer_step n size last pc s)
      → (a : Actor) × Moves (step n size last a s)
  unfolding step
  producer_Moves pc q m = (run_producer, (m.0, ap (λ w. producer_step n size last w s) q ∙ m.1))

  -- A consumer with a token of `sem_read` does not wait.
  reader_Moves :
      (me : ℕ) (c : Consumer) (pc : ConsumerPc)
      → 0 < at_read pc
      → Moves (consumer_step n size last me pc c s)
  unfolding consumer_step
  reader_Moves me c c_wait_write h = absurd (omega (arith, h))
  reader_Moves me c c_wait_read h = absurd (omega (arith, h))
  reader_Moves me c c_ended h = absurd (omega (arith, h))
  reader_Moves me c c_post_write h = (_, refl)
  reader_Moves me c c_post_read h = (_, refl)
  reader_Moves me c (c_sum i value) h = elim (Bool-cases (ltb i size)) [
    | inl e ↦ rw (e) (_, refl)
    | inr e ↦ elim (Bool-cases (leb last c.rounds)) [
      | inl f ↦ rw (e, f) (_, refl)
      | inr f ↦ rw (e, f) (_, refl)
    ]
  ]

  some_reader_Moves :
      0 < sum_below holds_read n s.consumers → (a : Actor) × Moves (step n size last a s)
  some_reader_Moves h =
      let (me, l, w) = sum_below_pos holds_read n s.consumers h in
      consumer_Moves me l (reader_Moves me (s.consumers me) (s.consumers me).pc w)

  -- A consumer with the token of `sem_write` waits for `sem_read` at most.
  holder_Moves :
      (me : ℕ) (c : Consumer) (pc : ConsumerPc)
      → 0 < at_write pc
      → 0 < s.sem_read
      → Moves (consumer_step n size last me pc c s)
  unfolding consumer_step
  holder_Moves me c c_wait_write h r = absurd (omega (arith, h))
  holder_Moves me c c_wait_read h r =
      let e : leb 1 s.sem_read ≡ true = ground (arith, r) in rw (e) (_, refl)
  holder_Moves me c c_post_write h r = (_, refl)
  holder_Moves me c c_post_read h r = absurd (omega (arith, h))
  holder_Moves me c (c_sum i value) h r = absurd (omega (arith, h))
  holder_Moves me c c_ended h r = absurd (omega (arith, h))

  step-Moves :
      Inv n size s
      → (pc : ProducerPc) → s.producer ≡ pc
      → (a : Actor) × Moves (step n size last a s)
  unfolding producer_step
  step-Moves inv p_wait_write q = elim (Bool-cases (leb 1 s.sem_write)) [
    | inl e ↦ producer_Moves p_wait_write q (rw (e) (_, refl))
    | inr e ↦
        let z : s.sem_write ≡ 0 = ground (arith, e) in
        let (me, l, w) =
          sum_below_pos holds_write n s.consumers (omega (arith, z, inv.write, ap writer q)) in
        elim (ℕ_discrete s.sem_read 0) [
          | no r ↦
              consumer_Moves me l
                (holder_Moves me (s.consumers me) (s.consumers me).pc w (omega (arith, r)))
          | yes r ↦ some_reader_Moves (omega (arith, r, l, inv.read, ap (filler n) q))
        ]
  ]
  step-Moves inv p_wait_read q = elim (Bool-cases (leb n s.sem_read)) [
    | inl e ↦ producer_Moves p_wait_read q (rw (e) (_, refl))
    | inr e ↦
        let l : s.sem_read < n = ground (arith, e) in
        some_reader_Moves (omega (arith, l, inv.read, ap (filler n) q))
  ]
  step-Moves inv (p_fill i) q = elim (Bool-cases (ltb i size)) [
    | inl e ↦ producer_Moves (p_fill i) q (rw (e) (_, refl))
    | inr e ↦ producer_Moves (p_fill i) q (rw (e) (_, refl))
  ]
  step-Moves inv p_post_read q = producer_Moves p_post_read q (_, refl)
  step-Moves inv p_post_write q = producer_Moves p_post_write q (_, refl)

-- In every reachable state the producer or a consumer can take a step: no process waits for a token that
-- nobody gives back, also when consumers have exited.
pub readers_go_on :
    {n size last : ℕ} {s : System}
    → Reach n size last s
    → (a : Actor) × Moves (step n size last a s)
readers_go_on {n} {size} {last} {s} r = step-Moves n size last s (Reach-Inv r) s.producer refl
