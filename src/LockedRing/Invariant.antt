-- ===== src/LockedRing/Invariant.antt =====
-- The state of the ring with a counter: who holds the lock, and what the slots between the two threads
-- hold.
use sistemi_operativi.Prelude.{ℕ, ◌+◌, ◌%◌, ◌≤◌, ◌<◌, ◌≡◌, Option, none, some}
use sistemi_operativi.GateRing.Gates.{Gate, IsLawful}
use sistemi_operativi.LockedRing.{
  ProducerPc, p_lock, p_write, p_count, ConsumerPc, c_lock, c_read, c_count, c_broken, c_ended,
  System,
}

abbrev pub p_holds : ProducerPc → ℕ
p_holds p_lock = 0
p_holds _ = 1

abbrev pub c_holds : ConsumerPc → ℕ
c_holds c_lock = 0
c_holds _ = 1

-- The room that the producer has seen, and the item that the consumer has seen.
abbrev pub p_seen : ProducerPc → ℕ
p_seen p_write = 1
p_seen p_count = 1
p_seen _ = 0

abbrev pub c_seen : ConsumerPc → ℕ
c_seen c_read = 1
c_seen c_count = 1
c_seen _ = 0

abbrev pub Before : ℕ → ℕ → ConsumerPc → Type 0
Before last n c_broken = ⊥
Before last n c_count = n < last
Before last n c_ended = n ≡ last
Before last n _ = n ≤ last

module _ (g : Gate) (law : IsLawful g) (size last : ℕ) where
  pub record Inv (s : System g) : Type 0 where
    pub token : law.count s.global_lock + p_holds s.producer + c_holds s.consumer ≡ 1
    pub p_slot : s.p_index ≡ s.p_data % size
    pub c_slot : s.c_index ≡ s.c_data % size
    pub counted : s.counter + s.c_data ≡ s.p_data
    pub room : s.counter + p_seen s.producer ≤ size
    pub item : c_seen s.consumer ≤ s.counter
    pub items : (k : ℕ) → s.c_data ≤ k → k < s.p_data → s.v (k % size) ≡ k
    pub written : s.producer ≡ p_count → s.v (s.p_data % size) ≡ s.p_data
    pub before : Before last s.c_data s.consumer

  abbrev pub After : Option (System g) → Type 0
  After none = Unit
  After (some t) = Inv t
