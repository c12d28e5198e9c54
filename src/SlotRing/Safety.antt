-- ===== src/SlotRing/Safety.antt =====
-- What holds of every state that the producer and the consumer can reach.
use sistemi_operativi.Prelude.{
  ℕ, zero, suc, ◌+◌, ◌%◌, ◌≤◌, ◌<◌, ◌≡◌, ◌≢◌, refl, sym, ap, ◌∙◌, false, some, true, arith, update,
  dec_lt, ◌⊎◌, inl, inr,
}
use sistemi_operativi.SlotRing.{
  ProducerPc, p_wait, p_write, p_post, ConsumerPc, c_wait, c_read, c_post, c_broken, c_ended,
  SemSet, System, run_producer, run_consumer, down, up, producer_step, consumer_step, step, Reach,
  next,
}
use sistemi_operativi.SlotRing.Slots.{slot_ne}
use sistemi_operativi.SlotRing.Invariant.{Before, Running}
use sistemi_operativi.SlotRing.Steps.{running, over, Reach-Inv, down-suc}

module _ (size last : ℕ) where
  -- The consumer never finds the protocol broken: the value that it reads is always the one that it
  -- expects, so it leaves only by its ending condition.
  pub never_broken : {s : System} → 0 < size → Reach size last s → s.consumer ≢ c_broken
  never_broken {s} pos r e = elim (Reach-Inv size last pos r) [
    | running run m ↦ rw e at run.before
    | over ended ↦ let x = sym e ∙ ended in cc
  ]

  -- While the consumer has not ended, the two processes are never at work on the same slot.
  slots_exclusive :
      {s : System}
      → 0 < size
      → Reach size last s
      → (s.producer ≡ p_write) ⊎ (s.producer ≡ p_post)
      → (s.consumer ≡ c_read) ⊎ (s.consumer ≡ c_post)
      → s.p_index ≢ s.c_index
  slots_exclusive {s} pos r p c = elim (Reach-Inv size last pos r) [
    | running run m ↦ λ e.
        slot_ne size s.c_data s.p_data (ground (arith, run.order)) (ground (arith, run.room))
          (sym run.c_slot ∙ sym e ∙ run.p_slot)
    | over ended ↦ absurd (not-working ended c)
  ]
    where
      not-working : s.consumer ≡ c_ended → (s.consumer ≡ c_read) ⊎ (s.consumer ≡ c_post) → ⊥
      not-working e (inl q) = let x = sym e ∙ q in cc
      not-working e (inr q) = let x = sym e ∙ q in cc

  -- Until the consumer has ended, the producer is never more than `size` items ahead of it, the
  -- consumer never passes `last`, and so no counter goes beyond `last + size`.
  counters_bounded :
      {s : System}
      → 0 < size
      → Reach size last s
      → s.consumer ≢ c_ended
      → (s.c_data ≤ s.p_data)
        × (s.p_data ≤ s.c_data + size)
        × (s.c_data ≤ last)
        × (s.p_data ≤ last + size)
  counters_bounded {s} pos r ne = elim (Reach-Inv size last pos r) [
    | running run m ↦
        let le : s.c_data ≤ last = before-le s.consumer run.before in
        (omega (arith, run.order), omega (arith, run.room), le, omega (arith, run.room))
    | over ended ↦ absurd (ne ended)
  ]
    where
      before-le : (c : ConsumerPc) → Before last s.c_data c → s.c_data ≤ last
      before-le c_wait b = b
      before-le c_read b = b
      before-le c_post b = omega arith
      before-le c_broken b = absurd b
      before-le c_ended b = omega arith

  module _ (s : System) (run : Running size last s) where
    producer_can :
        (pc : ProducerPc)
        → s.producer ≡ pc
        → s.p_data < s.c_data + size
        → (t : System) × (producer_step size last pc s ≡ some t)
    unfolding producer_step
    producer_can p_wait e l =
        let one = ap s.sem_free_slot.count run.p_slot ∙ run.free s.p_data (ground arith) l in
        (
          record s {
            sem_free_slot = record {
              exists = true;
              count = update s.sem_free_slot.count s.p_index 0;
            };
            producer = p_write;
          },
          rw (down-suc s.p_index s.sem_free_slot 0 run.both.0 one, producer_step) refl,
        )
    producer_can p_write e l = (_, refl)
    producer_can p_post e l = (_, refl)

    consumer_can :
        (pc : ConsumerPc)
        → s.consumer ≡ pc
        → pc ≢ c_ended
        → s.c_data < s.p_data
        → (t : System) × (consumer_step size last pc s ≡ some t)
    unfolding consumer_step
    consumer_can c_wait e ne l =
        let one =
          ap s.sem_available_item.count run.c_slot ∙ run.available s.c_data (ground arith) l in
        (
          record s {
            sem_available_item = record {
              exists = true;
              count = update s.sem_available_item.count s.c_index 0;
            };
            consumer = c_read;
          },
          rw (down-suc s.c_index s.sem_available_item 0 run.both.1 one, consumer_step) refl,
        )
    consumer_can c_read e ne l = (_, refl)
    consumer_can c_post e ne l = (_, refl)
    consumer_can c_broken e ne l = absurd (rw e at run.before)
    consumer_can c_ended e ne l = absurd (ne refl)

  -- There is no deadlock: until the consumer has ended, one of the two processes can move.
  no_deadlock :
      {s : System}
      → 0 < size
      → Reach size last s
      → s.consumer ≢ c_ended
      → ((t : System) × (step size last run_producer s ≡ some t))
        ⊎ ((t : System) × (step size last run_consumer s ≡ some t))
  unfolding step
  no_deadlock {s} pos r ne = elim (Reach-Inv size last pos r) [
    | running run m ↦ elim (dec_lt s.p_data (s.c_data + size)) [
      | yes l ↦ inl (producer_can s run s.producer refl l)
      | no ge ↦ inr (consumer_can s run s.consumer refl ne (omega arith))
    ]
    | over ended ↦ absurd (ne ended)
  ]

  down_removed : (i : ℕ) (set : SemSet) → set.exists ≡ false → down i set ≡ some set
  down_removed i set e = ground arith

  up_removed : (i : ℕ) (set : SemSet) → set.exists ≡ false → up i set ≡ set
  up_removed i set e = ground arith

  -- The state after one more item of a producer whose semaphores are gone.
  abbrev unguarded : System → System
  unguarded s = record s {
    v = update s.v s.p_index s.p_data;
    producer = p_wait;
    p_data = s.p_data + 1;
    p_index = (s.p_index + 1) % size;
  }

  unguarded-Reach :
      {s : System}
      → Reach size last s
      → s.sem_free_slot.exists ≡ false
      → s.sem_available_item.exists ≡ false
      → s.producer ≡ p_wait
      → Reach size last (unguarded s)
  unfolding step producer_step
  unguarded-Reach {s} r f a e =
      let took : Reach size last (record s { producer = p_write }) = next run_producer r (
        ap (λ pc. producer_step size last pc s) e
        ∙ rw (down_removed s.p_index s.sem_free_slot f, producer_step) refl) in
      let wrote : Reach size last
          (record s { v = update s.v s.p_index s.p_data; producer = p_post }) =
        next run_producer took refl in
      next run_producer wrote (
        ap (λ set. some (record (unguarded s) { sem_available_item = set }))
          (up_removed s.p_index s.sem_available_item a))

  -- Once `main` has removed the semaphores, the producer, which does not look at the result of
  -- `semop`, never stops: it goes on to write item after item, however many.
  pub removed_runaway :
      (n : ℕ) {s : System}
      → Reach size last s
      → s.sem_free_slot.exists ≡ false
      → s.sem_available_item.exists ≡ false
      → s.producer ≡ p_wait
      → (t : System) × Reach size last t × (t.p_data ≡ s.p_data + n) × (t.consumer ≡ s.consumer)
  removed_runaway zero {s} r f a e = (s, r, omega arith, refl)
  removed_runaway (suc n) {s} r f a e =
      let (t, reach, ahead, still) = removed_runaway n (unguarded-Reach r f a e) f a refl in
      (t, reach, omega (arith, ahead), still)
