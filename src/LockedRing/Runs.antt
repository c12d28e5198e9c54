-- ===== src/LockedRing/Runs.antt =====
-- The steps of `consumer` of the ring with a counter, and its reachable states.
use sistemi_operativi.Prelude.{
  ℕ, ◌+◌, ◌%◌, ◌≤◌, ◌≡◌, refl, ap, ◌∙◌, subst, arith, ltb, ltb→lt, ◌==◌, ==_self, ==_ne, Bool-cases,
  inl, inr, ℕ_discrete,
}
use sistemi_operativi.SlotRing.Slots.{slot_next}
use sistemi_operativi.SlotRing.Steps.{ℕ-cases}
use sistemi_operativi.GateRing.Gates.{Gate, IsLawful}
use sistemi_operativi.LockedRing.{
  ConsumerPc, c_lock, c_test, c_read, c_count, c_unlock, c_broken, c_ended, System, Actor,
  run_producer, run_consumer, check, consumer_step, alive, step, Reach, here, next,
}
use sistemi_operativi.LockedRing.Invariant.{p_holds, c_holds, c_seen, Before, Inv, After}
use sistemi_operativi.LockedRing.Steps.{producer_After}
use sistemi_operativi.LockedRing.{start}

module _ (g : Gate) (law : IsLawful g) (size last : ℕ) (s : System g)
    (inv : Inv g law size last s) where
  open g use {leave}

  -- Only the lock and the program counter of the consumer change.
  with_consumer :
      (x : Gate.State g) (pc : ConsumerPc)
      → law.count x + p_holds s.producer + c_holds pc ≡ 1
      → c_seen pc ≤ s.counter
      → Before last s.c_data pc
      → Inv g law size last (record s { global_lock = x; consumer = pc })
  with_consumer x pc token item before = record {
    token = token;
    p_slot = inv.p_slot;
    c_slot = inv.c_slot;
    counted = inv.counted;
    room = inv.room;
    item = item;
    items = inv.items;
    written = inv.written;
    before = before;
  }

  c_lock_After : s.consumer ≡ c_lock → After g law size last (consumer_step g size last c_lock s)
  unfolding consumer_step
  c_lock_After e = elim (ℕ-cases (law.count s.global_lock)) [
    | inl z ↦ rw (law.enter-none s.global_lock z, After, consumer_step) tt
    | inr (k, c) ↦
        let (y, (enters, q)) = law.enter-some s.global_lock k c in
        rw (enters, After, consumer_step)
          (with_consumer y c_test (omega (arith, inv.token, ap c_holds e, c, q)) (omega arith)
            (subst (Before last s.c_data) e inv.before))
  ]

  c_test_After : s.consumer ≡ c_test → After g law size last (consumer_step g size last c_test s)
  unfolding consumer_step
  c_test_After e = elim (Bool-cases (ltb 0 s.counter)) [
    | inl f ↦ rw f (
        with_consumer s.global_lock c_read (omega (arith, inv.token, ap c_holds e))
          (omega (arith, ltb→lt 0 s.counter f)) (subst (Before last s.c_data) e inv.before))
    | inr f ↦ rw f (
        with_consumer s.global_lock c_unlock (omega (arith, inv.token, ap c_holds e)) (omega arith)
          (subst (Before last s.c_data) e inv.before))
  ]

  -- The value read is the one that is expected.
  read_lem : s.consumer ≡ c_read → s.v s.c_index ≡ s.c_data
  read_lem e =
      ap s.v inv.c_slot
      ∙ inv.items s.c_data (omega arith) (omega (arith, inv.counted, inv.item, ap c_seen e))

  c_read_After : s.consumer ≡ c_read → After g law size last (consumer_step g size last c_read s)
  unfolding consumer_step check
  c_read_After e = elim (ℕ_discrete s.c_data last) [
    | yes q ↦
        rw (read_lem e, ==_self s.c_data, ap (λ k. k == last) q, ==_self last)
          (with_consumer s.global_lock c_ended (omega (arith, inv.token, ap c_holds e))
            (omega arith) q)
    | no ne ↦
        rw (read_lem e, ==_self s.c_data, ==_ne s.c_data last ne)
          (with_consumer s.global_lock c_count (omega (arith, inv.token, ap c_holds e))
            (omega (arith, inv.item, ap c_seen e))
            (omega (arith, ne, subst (Before last s.c_data) e inv.before)))
  ]

  c_count_After : s.consumer ≡ c_count → After g law size last (consumer_step g size last c_count s)
  unfolding consumer_step
  c_count_After e = record {
    token = omega (arith, inv.token, ap c_holds e);
    p_slot = inv.p_slot;
    c_slot = ap (λ i. (i + 1) % size) inv.c_slot ∙ slot_next size s.c_data;
    counted = omega (arith, inv.counted, inv.item, ap c_seen e);
    room = omega (arith, inv.room);
    item = omega arith;
    items = λ k l h. inv.items k (omega (arith, l)) h;
    written = inv.written;
    before = omega (arith, subst (Before last s.c_data) e inv.before);
  }

  c_unlock_After :
      s.consumer ≡ c_unlock → After g law size last (consumer_step g size last c_unlock s)
  unfolding consumer_step
  c_unlock_After e =
      with_consumer (leave s.global_lock) c_lock
        (omega (
          arith,
          inv.token,
          ap c_holds e,
          law.count-leave s.global_lock (omega (arith, inv.token, ap c_holds e)),
        ))
        (omega arith) (subst (Before last s.c_data) e inv.before)

  consumer_After :
      (pc : ConsumerPc) → s.consumer ≡ pc → After g law size last (consumer_step g size last pc s)
  unfolding consumer_step
  consumer_After c_lock e = c_lock_After e
  consumer_After c_test e = c_test_After e
  consumer_After c_read e = c_read_After e
  consumer_After c_count e = c_count_After e
  consumer_After c_unlock e = c_unlock_After e
  consumer_After c_broken e = tt
  consumer_After c_ended e = tt

  step-After : (a : Actor) → After g law size last (step g size last a s)
  unfolding step
  step-After run_producer = elim (Bool-cases (alive g size last s.consumer)) [
    | inl l ↦ rw l (producer_After g law size last s inv s.producer refl)
    | inr l ↦ rw l tt
  ]
  step-After run_consumer = consumer_After s.consumer refl

module _ (g : Gate) (law : IsLawful g) (size last : ℕ) where
  start-Inv : (v : ℕ → ℕ) → Inv g law size last (start g v)
  start-Inv v = record {
    token = omega (arith, law.count-opened);
    p_slot = ground arith;
    c_slot = ground arith;
    counted = omega arith;
    room = omega arith;
    item = omega arith;
    items = λ k l h. absurd (omega (arith, h));
    written = λ e. absurd (cc);
    before = omega arith;
  }

  pub Reach-Inv : {v : ℕ → ℕ} {s : System g} → Reach g size last v s → Inv g law size last s
  Reach-Inv {v} here = start-Inv v
  Reach-Inv (next {s} a r e) =
      subst (After g law size last) e (step-After g law size last s (Reach-Inv r) a)
