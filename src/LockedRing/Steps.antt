-- ===== src/LockedRing/Steps.antt =====
-- The steps of the ring with a counter, one by one.
use sistemi_operativi.Prelude.{
  ℕ, ◌+◌, ◌%◌, ◌≤◌, ◌<◌, ◌≡◌, ◌≢◌, sym, ap, ◌∙◌, subst, arith, update, update_self, update_ne, ltb,
  ltb→lt, Bool-cases, inl, inr, ℕ_discrete,
}
use sistemi_operativi.SlotRing.Slots.{slot_ne, slot_next}
use sistemi_operativi.SlotRing.Steps.{ℕ-cases}
use sistemi_operativi.GateRing.Gates.{Gate, IsLawful}
use sistemi_operativi.LockedRing.{
  ProducerPc, p_lock, p_test, p_write, p_count, p_unlock, System, producer_step,
}
use sistemi_operativi.LockedRing.Invariant.{p_holds, c_holds, p_seen, Inv, After}

module _ (g : Gate) (law : IsLawful g) (size last : ℕ) (s : System g)
    (inv : Inv g law size last s) where
  open g use {leave}

  -- Only the lock and the program counter of the producer change.
  with_producer :
      (x : Gate.State g) (pc : ProducerPc)
      → law.count x + p_holds pc + c_holds s.consumer ≡ 1
      → s.counter + p_seen pc ≤ size
      → pc ≢ p_count
      → Inv g law size last (record s { global_lock = x; producer = pc })
  with_producer x pc token room ne = record {
    token = token;
    p_slot = inv.p_slot;
    c_slot = inv.c_slot;
    counted = inv.counted;
    room = room;
    item = inv.item;
    items = inv.items;
    written = λ e. absurd (ne e);
    before = inv.before;
  }

  p_lock_After : s.producer ≡ p_lock → After g law size last (producer_step g size last p_lock s)
  unfolding producer_step
  p_lock_After e = elim (ℕ-cases (law.count s.global_lock)) [
    | inl z ↦ rw (law.enter-none s.global_lock z, After, producer_step) tt
    | inr (k, c) ↦
        let (y, (enters, q)) = law.enter-some s.global_lock k c in
        rw (enters, After, producer_step)
          (with_producer y p_test (omega (arith, inv.token, ap p_holds e, c, q))
            (omega (arith, inv.room, ap p_seen e)) (λ x. absurd (cc)))
  ]

  p_test_After : s.producer ≡ p_test → After g law size last (producer_step g size last p_test s)
  unfolding producer_step
  p_test_After e = elim (Bool-cases (ltb s.counter size)) [
    | inl f ↦ rw f (
        with_producer s.global_lock p_write (omega (arith, inv.token, ap p_holds e))
          (omega (arith, ltb→lt s.counter size f)) (λ x. absurd (cc)))
    | inr f ↦ rw f (
        with_producer s.global_lock p_unlock (omega (arith, inv.token, ap p_holds e))
          (omega (arith, inv.room, ap p_seen e)) (λ x. absurd (cc)))
  ]

  p_write_After : s.producer ≡ p_write → After g law size last (producer_step g size last p_write s)
  unfolding producer_step
  p_write_After e = record {
    token = omega (arith, inv.token, ap p_holds e);
    p_slot = inv.p_slot;
    c_slot = inv.c_slot;
    counted = inv.counted;
    room = omega (arith, inv.room, ap p_seen e);
    item = inv.item;
    items = λ k l h. update_ne s.v s.p_index (k % size) s.p_data (apart k l h) ∙ inv.items k l h;
    written = λ x.
        ap (λ i. update s.v s.p_index s.p_data i) (sym inv.p_slot)
        ∙ update_self s.v s.p_index s.p_data;
    before = inv.before;
  }
    where
      apart : (k : ℕ) → s.c_data ≤ k → k < s.p_data → s.p_index ≢ k % size
      apart k l h q =
          slot_ne size k s.p_data h (omega (arith, l, inv.room, inv.counted, ap p_seen e))
            (sym q ∙ inv.p_slot)

  p_count_After : s.producer ≡ p_count → After g law size last (producer_step g size last p_count s)
  unfolding producer_step
  p_count_After e = record {
    token = omega (arith, inv.token, ap p_holds e);
    p_slot = ap (λ i. (i + 1) % size) inv.p_slot ∙ slot_next size s.p_data;
    c_slot = inv.c_slot;
    counted = omega (arith, inv.counted);
    room = omega (arith, inv.room, ap p_seen e);
    item = omega (arith, inv.item);
    items = λ k l h. elim (ℕ_discrete k s.p_data) [
      | yes q ↦ subst (λ j. s.v (j % size) ≡ j) (sym q) (inv.written e)
      | no ne ↦ inv.items k l (omega (arith, h, ne))
    ];
    written = λ x. absurd (cc);
    before = inv.before;
  }

  p_unlock_After :
      s.producer ≡ p_unlock → After g law size last (producer_step g size last p_unlock s)
  unfolding producer_step
  p_unlock_After e =
      with_producer (leave s.global_lock) p_lock
        (omega (
          arith,
          inv.token,
          ap p_holds e,
          law.count-leave s.global_lock (omega (arith, inv.token, ap p_holds e)),
        ))
        (omega (arith, inv.room, ap p_seen e)) (λ x. absurd (cc))

  pub producer_After :
      (pc : ProducerPc) → s.producer ≡ pc → After g law size last (producer_step g size last pc s)
  producer_After p_lock e = p_lock_After e
  producer_After p_test e = p_test_After e
  producer_After p_write e = p_write_After e
  producer_After p_count e = p_count_After e
  producer_After p_unlock e = p_unlock_After e
