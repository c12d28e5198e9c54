-- ===== src/GateRing/WinSemaphore.antt =====
-- SO esempi/7_SYNCHRONIZATION/WINDOWS/semaphores/synchronized-producer-consumer.c: the ring with a WinAPI
-- semaphore for every slot and one for every item, each of maximum 1. `counter`, which nothing reads, is
-- left out.
use sistemi_operativi.Prelude.{
  ℕ, zero, suc, ◌+◌, ◌≡◌, refl, true, Option, none, some, arith, ltb, if◌then◌else◌,
}
use sistemi_operativi.SlotRing.{ProducerPc, ConsumerPc}
use sistemi_operativi.GateRing.Gates.{Gate, IsLawful}
use sistemi_operativi.GateRing

-- The maximum that is given to CreateSemaphore.
abbrev pub maximum : ℕ
maximum = 1

-- WaitForSingleObject on a semaphore.
unfoldable pub wait_for_single_object : ℕ → Option ℕ
wait_for_single_object zero = none
wait_for_single_object (suc k) = some k

-- ReleaseSemaphore by 1, which fails and changes nothing at the maximum.
unfoldable pub release_semaphore : ℕ → ℕ
release_semaphore k = if ltb k maximum then k + 1 else k

abbrev pub win_semaphore : Gate
win_semaphore = record {
  State = ℕ;
  enter = wait_for_single_object;
  leave = release_semaphore;
  opened = 1;
  closed = 0;
}

abbrev same : ℕ → ℕ
same k = k

wait-none : (x : ℕ) → x ≡ 0 → wait_for_single_object x ≡ none
unfolding wait_for_single_object
wait-none zero e = refl
wait-none (suc k) e = absurd (omega (arith, e))

wait-some : (x k : ℕ) → x ≡ suc k → (y : ℕ) × ((wait_for_single_object x ≡ some y) × (y ≡ k))
unfolding wait_for_single_object
wait-some zero k e = absurd (omega (arith, e))
wait-some (suc j) k e = (j, (refl, omega (arith, e)))

release_one : (x : ℕ) → x ≡ 0 → release_semaphore x ≡ 1
unfolding release_semaphore
release_one x e = ground (arith, e)

pub win_semaphore-IsLawful : IsLawful win_semaphore
win_semaphore-IsLawful = record {
  count = same;
  count-opened = refl;
  count-closed = refl;
  enter-none = wait-none;
  enter-some = wait-some;
  count-leave = release_one;
}

abbrev pub System : Type 0
System = GateRing.System win_semaphore

-- `producer` and `consumer` of that file.
abbrev pub producer_step : ℕ → ℕ → ProducerPc → System → Option System
producer_step size last = GateRing.producer_step win_semaphore size last

abbrev pub consumer_step : ℕ → ℕ → ConsumerPc → System → Option System
consumer_step size last = GateRing.consumer_step win_semaphore size last

-- `main`, and the array, which the program leaves at 0.
abbrev pub start : System
start = GateRing.start win_semaphore (λ _. 0)

-- Two threads of one process.
abbrev pub Reach : ℕ → ℕ → System → Type 0
Reach size last = GateRing.Reach win_semaphore size last true (λ _. 0)
