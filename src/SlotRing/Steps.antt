-- ===== src/SlotRing/Steps.antt =====
-- The steps of `producer`, `consumer` and `main` of semaphore-producer-consumer.c.
use sistemi_operativi.Prelude.{
  ℕ, zero, suc, ◌+◌, ◌<◌, ◌≡◌, ◌≢◌, refl, sym, ◌∙◌, subst, true, none, some, arith, update, ◌⊎◌,
  inl, inr,
}
use sistemi_operativi.SlotRing.{
  ProducerPc, p_wait, p_write, p_post, ConsumerPc, c_wait, c_read, c_post, c_broken, c_ended,
  MainPc, m_wait, m_remove_free, m_remove_available, m_done, SemSet, System, Actor, run_producer,
  run_consumer, run_main, down, up, producer_step, check, consumer_step, wait_child, main_step,
  step, Reach, here, next,
}
use sistemi_operativi.SlotRing.Invariant.{Running, start-Running}
use sistemi_operativi.SlotRing.Keeps.{
  p_wait_keeps, p_write_keeps, p_post_keeps, c_wait_keeps, c_read_keeps, c_post_keeps,
}

-- Before `main` removes the first set, the consumer has ended.
abbrev pub MainOk : MainPc → ConsumerPc → Type 0
MainOk m_wait c = Unit
MainOk m_remove_free c = c ≡ c_ended
MainOk _ c = ⊥

module _ (size last : ℕ) where
  -- The invariant of a run.
  pub data Inv (s : System) : Type 0 where
    running : Running size last s → MainOk s.main s.consumer → Inv s
    over : s.consumer ≡ c_ended → Inv s

module _ (i : ℕ) (set : SemSet) where
  down_zero : set.exists ≡ true → set.count i ≡ 0 → down i set ≡ none
  down_zero e z = ground arith

  pub down-suc :
      (k : ℕ)
      → set.exists ≡ true
      → set.count i ≡ suc k
      → down i set ≡ some (record { exists = true; count = update set.count i k })
  down-suc k e z = ground arith

  up_lem :
      set.exists ≡ true
      → up i set ≡ record { exists = true; count = update set.count i (set.count i + 1) }
  up_lem e = ground arith

MainOk-waiting : (p : MainPc) (c d : ConsumerPc) → c ≢ c_ended → MainOk p c → MainOk p d
MainOk-waiting m_wait c d ne m = tt
MainOk-waiting m_remove_free c d ne m = absurd (ne m)
MainOk-waiting m_remove_available c d ne m = absurd m
MainOk-waiting m_done c d ne m = absurd m

pub ℕ-cases : (n : ℕ) → (n ≡ 0) ⊎ ((k : ℕ) × (n ≡ suc k))
ℕ-cases zero = inl refl
ℕ-cases (suc k) = inr (k, refl)

module _ (size last : ℕ) where
  Inv-some : {t u : System} → Inv size last t → some t ≡ some u → Inv size last u
  Inv-some {t} inv e = subst (λ u. Inv size last u) (cc) inv

  not-none : {t : System} → none ≡ some t → ⊥
  not-none e = cc

  module _ (s : System) (r : Running size last s) (m : MainOk s.main s.consumer)
      (pos : 0 < size) where
    -- A step of the producer.
    producer_Inv :
        (pc : ProducerPc) {t : System}
        → s.producer ≡ pc
        → producer_step size last pc s ≡ some t
        → Inv size last t
    unfolding producer_step
    producer_Inv p_wait e h = elim (ℕ-cases (s.sem_free_slot.count s.p_index)) [
      | inl z ↦
          absurd
            (not-none (rw (down_zero s.p_index s.sem_free_slot r.both.0 z, producer_step) at h))
      | inr (k, z) ↦
          Inv-some (running (p_wait_keeps size last s r pos k e z) m)
            (rw (down-suc s.p_index s.sem_free_slot k r.both.0 z, producer_step) at h)
    ]
    producer_Inv p_write e h = Inv-some (running (p_write_keeps size last s r pos e) m) h
    producer_Inv p_post e h =
        Inv-some (running (p_post_keeps size last s r pos e) m)
          (rw (up_lem s.p_index s.sem_available_item r.both.1) at h)

    still_waiting : s.consumer ≢ c_ended → (c : ConsumerPc) → MainOk s.main c
    still_waiting ne c = MainOk-waiting s.main s.consumer c ne m

    -- A step of the consumer.
    consumer_Inv :
        (pc : ConsumerPc) {t : System}
        → s.consumer ≡ pc
        → consumer_step size last pc s ≡ some t
        → Inv size last t
    unfolding consumer_step
    consumer_Inv c_wait e h = elim (ℕ-cases (s.sem_available_item.count s.c_index)) [
      | inl z ↦
          absurd (
            not-none (rw (down_zero s.c_index s.sem_available_item r.both.1 z, consumer_step) at h))
      | inr (k, z) ↦
          Inv-some
            (running (c_wait_keeps size last s r pos k e z)
              (still_waiting (λ q. absurd (let q' = sym e ∙ q in cc)) c_read))
            (rw (down-suc s.c_index s.sem_available_item k r.both.1 z, consumer_step) at h)
    ]
    consumer_Inv c_read e h =
        Inv-some
          (running (c_read_keeps size last s r pos e) (
            still_waiting (λ q. absurd (let q' = sym e ∙ q in cc))
              (check size last (s.v s.c_index) s.c_data)))
          h
    consumer_Inv c_post e h =
        Inv-some
          (running (c_post_keeps size last s r pos e)
            (still_waiting (λ q. absurd (let q' = sym e ∙ q in cc)) c_wait))
          (rw (up_lem s.c_index s.sem_free_slot r.both.0) at h)
    consumer_Inv c_broken e h = absurd (not-none h)
    consumer_Inv c_ended e h = absurd (not-none h)

    -- A step of `main`.
    main_Inv : (pc : MainPc) {t : System} → s.main ≡ pc → main_step pc s ≡ some t → Inv size last t
    unfolding main_step wait_child
    main_Inv m_wait e h = child_Inv s.consumer refl h
      where
        child_Inv :
            (c : ConsumerPc) {t : System}
            → s.consumer ≡ c
            → wait_child c s ≡ some t
            → Inv size last t
        child_Inv c_wait q h = absurd (not-none h)
        child_Inv c_read q h = absurd (not-none h)
        child_Inv c_post q h = absurd (not-none h)
        child_Inv c_broken q h = absurd (rw q at r.before)
        child_Inv c_ended q h = Inv-some (over q) h
    main_Inv m_remove_free e h = Inv-some (over (rw e at m)) h
    main_Inv m_remove_available e h = absurd (rw e at m)
    main_Inv m_done e h = absurd (rw e at m)

  -- After the end of the consumer it stays ended.
  over_Inv :
      (s : System) (a : Actor) {t : System}
      → s.consumer ≡ c_ended
      → step size last a s ≡ some t
      → t.consumer ≡ c_ended
  unfolding step producer_step consumer_step main_step wait_child
  over_Inv s run_producer e h = ground arith
  over_Inv s run_consumer e h = ground arith
  over_Inv s run_main e h = ground arith

  pub step-Inv :
      (s : System) (a : Actor) {t : System}
      → 0 < size
      → Inv size last s
      → step size last a s ≡ some t
      → Inv size last t
  unfolding step
  step-Inv s a pos (over e) h = over (over_Inv s a e h)
  step-Inv s run_producer pos (running r m) h = producer_Inv s r m pos s.producer refl h
  step-Inv s run_consumer pos (running r m) h = consumer_Inv s r m pos s.consumer refl h
  step-Inv s run_main pos (running r m) h = main_Inv s r m pos s.main refl h

  pub Reach-Inv : {s : System} → 0 < size → Reach size last s → Inv size last s
  Reach-Inv pos here = running (start-Running size last (λ _. 0) pos) tt
  Reach-Inv pos (next {s = s} a r e) = step-Inv s a pos (Reach-Inv pos r) e
