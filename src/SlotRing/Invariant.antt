-- ===== src/SlotRing/Invariant.antt =====
-- While the semaphores exist, the items from `c_data` on stand in a window of `size` slots: those of
-- the window that are produced are available, the others are free, and the slot that the producer or
-- the consumer works on is neither.
use sistemi_operativi.Prelude.{ℕ, ◌+◌, ◌%◌, ◌≤◌, ◌<◌, ◌≡◌, refl, true, arith}
use sistemi_operativi.SlotRing.{
  ProducerPc, p_wait, p_post, ConsumerPc, c_wait, c_post, c_broken, c_ended, System, start,
}

-- 1 while the producer has a slot that is neither free nor available.
abbrev pub p_held : ProducerPc → ℕ
p_held p_wait = 0
p_held _ = 1

-- The same of the consumer, which keeps its last slot.
abbrev pub c_held : ConsumerPc → ℕ
c_held c_wait = 0
c_held _ = 1

-- What the position of the consumer says of its next item.
abbrev pub Before : ℕ → ℕ → ConsumerPc → Type 0
Before last n c_broken = ⊥
Before last n c_post = n < last
Before last n c_ended = n ≡ last
Before last n _ = n ≤ last

module _ (size last : ℕ) where
  pub record Running (s : System) : Type 0 where
    pub p_slot : s.p_index ≡ s.p_data % size
    pub c_slot : s.c_index ≡ s.c_data % size
    pub order : s.c_data + c_held s.consumer ≤ s.p_data
    pub room : s.p_data + p_held s.producer ≤ s.c_data + size
    pub free :
        (k : ℕ)
        → s.p_data + p_held s.producer ≤ k
        → k < s.c_data + size
        → s.sem_free_slot.count (k % size) ≡ 1
    pub taken :
        (k : ℕ)
        → s.c_data ≤ k
        → k < s.p_data + p_held s.producer
        → s.sem_free_slot.count (k % size) ≡ 0
    pub available :
        (k : ℕ)
        → s.c_data + c_held s.consumer ≤ k
        → k < s.p_data
        → s.sem_available_item.count (k % size) ≡ 1
    pub absent :
        (k : ℕ)
        → s.p_data ≤ k
        → k < s.c_data + c_held s.consumer + size
        → s.sem_available_item.count (k % size) ≡ 0
    pub items : (k : ℕ) → s.c_data ≤ k → k < s.p_data → s.v (k % size) ≡ k
    pub written : s.producer ≡ p_post → s.v (s.p_data % size) ≡ s.p_data
    pub before : Before last s.c_data s.consumer
    pub both : (s.sem_free_slot.exists ≡ true) × (s.sem_available_item.exists ≡ true)

  -- The array may hold anything at the start.
  pub start-Running : (content : ℕ → ℕ) → 0 < size → Running (record start { v = content })
  start-Running content pos = record {
    p_slot = ground arith;
    c_slot = ground arith;
    order = omega arith;
    room = omega arith;
    free = λ k l h. refl;
    taken = λ k l h. absurd (omega arith);
    available = λ k l h. absurd (omega arith);
    absent = λ k l h. refl;
    items = λ k l h. absurd (omega arith);
    written = λ e. absurd (cc);
    before = omega arith;
    both = (refl, refl);
  }
