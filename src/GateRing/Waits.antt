-- ===== src/GateRing/Waits.antt =====
-- The waits of the ring over gates: on a closed gate, and on an open one.
use sistemi_operativi.Prelude.{ℕ, ◌≡◌, refl, none, some, update}
use sistemi_operativi.SlotRing.{p_wait, p_write, c_wait, c_read}
use sistemi_operativi.GateRing.Gates.{Gate}
use sistemi_operativi.GateRing.{System, producer_step, consumer_step}

module _ (g : Gate) (size last : ℕ) (s : System g) where
  pub producer_step-none :
      Gate.enter g (s.sem_free_slot s.p_index) ≡ none → producer_step g size last p_wait s ≡ none
  unfolding producer_step
  producer_step-none e = rw (e, producer_step) refl

  pub producer_step-some :
      (x : Gate.State g)
      → Gate.enter g (s.sem_free_slot s.p_index) ≡ some x
      → producer_step g size last p_wait s
        ≡ some (record s { sem_free_slot = update s.sem_free_slot s.p_index x; producer = p_write })
  unfolding producer_step
  producer_step-some x e = rw (e, producer_step) refl

  pub consumer_step-none :
      Gate.enter g (s.sem_available_item s.c_index) ≡ none
      → consumer_step g size last c_wait s ≡ none
  unfolding consumer_step
  consumer_step-none e = rw (e, consumer_step) refl

  pub consumer_step-some :
      (x : Gate.State g)
      → Gate.enter g (s.sem_available_item s.c_index) ≡ some x
      → consumer_step g size last c_wait s
        ≡ some (record s {
          sem_available_item = update s.sem_available_item s.c_index x;
          consumer = c_read;
        })
  unfolding consumer_step
  consumer_step-some x e = rw (e, consumer_step) refl
