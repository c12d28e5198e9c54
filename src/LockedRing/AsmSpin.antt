-- ===== src/LockedRing/AsmSpin.antt =====
-- SO esempi/7_SYNCHRONIZATION/UNIX/spinlocks/synchronized-producer-consumer.c: the ring with a counter under
-- a variable that `cmpxchg` sets, the gate of GateRing/Spin.
use sistemi_operativi.Prelude.{ℕ, Option}
use sistemi_operativi.GateRing.Spin
use sistemi_operativi.GateRing.Spin.{spin}
use sistemi_operativi.LockedRing.{ProducerPc, ConsumerPc}
use sistemi_operativi.LockedRing

-- `lock` of that file, with the same instructions.
abbrev pub lock : ℕ → Option ℕ
lock = Spin.lock

-- `producer` and `consumer` of that file.
abbrev pub producer_step :
    ℕ → ℕ → ProducerPc → LockedRing.System spin → Option (LockedRing.System spin)
producer_step size last = LockedRing.producer_step spin size last

abbrev pub consumer_step :
    ℕ → ℕ → ConsumerPc → LockedRing.System spin → Option (LockedRing.System spin)
consumer_step size last = LockedRing.consumer_step spin size last

abbrev pub start : LockedRing.System spin
start = LockedRing.start spin (λ _. 18_446_744_073_709_551_615)
