-- ===== src/SlotRing/Copy.antt =====
-- Altro/sem_producer_consumer/p-c.c: the same program as semaphore-producer-consumer.c.
use sistemi_operativi.Prelude.{ℕ, Option}
use sistemi_operativi.SlotRing.{ProducerPc, ConsumerPc, MainPc, System}
use sistemi_operativi.SlotRing

abbrev producer_step : ℕ → ℕ → ProducerPc → System → Option System
producer_step size last = SlotRing.producer_step size last

abbrev consumer_step : ℕ → ℕ → ConsumerPc → System → Option System
consumer_step size last = SlotRing.consumer_step size last

abbrev main_step : MainPc → System → Option System
main_step = SlotRing.main_step

abbrev start : System
start = SlotRing.start
