-- ===== src/GateRing/Mutex.antt =====
-- SO esempi/7_SYNCHRONIZATION/UNIX/pthread-spinlocks-mutexes/pthread-mutex-producer-consumer-V1.c: the ring
-- with a mutex for every slot and one for every item. Whoever unlocks a mutex is not who locked it, so a
-- mutex is whether it is locked.
use sistemi_operativi.Prelude.{ℕ, suc, ◌≡◌, refl, Bool, true, false, Option, none, some, arith}
use sistemi_operativi.SlotRing.{ProducerPc, ConsumerPc}
use sistemi_operativi.GateRing.Gates.{Gate, IsLawful}
use sistemi_operativi.GateRing

-- `pthread_mutex_lock` and `pthread_mutex_unlock`.
unfoldable pub mutex_lock : Bool → Option Bool
mutex_lock false = some true
mutex_lock true = none

unfoldable pub mutex_unlock : Bool → Bool
mutex_unlock locked = false

abbrev pub mutex : Gate
mutex = record {
  State = Bool;
  enter = mutex_lock;
  leave = mutex_unlock;
  opened = false;
  closed = true;
}

abbrev free : Bool → ℕ
free false = 1
free true = 0

mutex-none : (x : Bool) → free x ≡ 0 → mutex_lock x ≡ none
unfolding mutex_lock
mutex-none false e = absurd (omega (arith, e))
mutex-none true e = refl

mutex-some :
    (x : Bool) (k : ℕ) → free x ≡ suc k → (y : Bool) × ((mutex_lock x ≡ some y) × (free y ≡ k))
unfolding mutex_lock
mutex-some false k e = (true, (refl, omega (arith, e)))
mutex-some true k e = absurd (omega (arith, e))

mutex-unlock : (x : Bool) → free x ≡ 0 → free (mutex_unlock x) ≡ 1
unfolding mutex_unlock
mutex-unlock x e = refl

pub mutex-IsLawful : IsLawful mutex
mutex-IsLawful = record {
  count = free;
  count-opened = refl;
  count-closed = refl;
  enter-none = mutex-none;
  enter-some = mutex-some;
  count-leave = mutex-unlock;
}

abbrev pub System : Type 0
System = GateRing.System mutex

-- `producer` and `consumer` of that file.
abbrev pub producer_step : ℕ → ℕ → ProducerPc → System → Option System
producer_step size last = GateRing.producer_step mutex size last

abbrev pub consumer_step : ℕ → ℕ → ConsumerPc → System → Option System
consumer_step size last = GateRing.consumer_step mutex size last

-- `main`: every mutex of `available_data` is locked, and every element of `v` is -1.
abbrev pub start : System
start = GateRing.start mutex (λ _. 18_446_744_073_709_551_615)

-- Two threads of one process.
abbrev pub Reach : ℕ → ℕ → System → Type 0
Reach size last = GateRing.Reach mutex size last true (λ _. 18_446_744_073_709_551_615)
