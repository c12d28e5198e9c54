-- ===== src/LockedRing/PthreadSpin.antt =====
-- SO esempi/7_SYNCHRONIZATION/UNIX/pthread-spinlocks-mutexes/pthread-spinlocks-producer-consumer.c: the ring
-- with a counter under a `pthread_spinlock_t`, which like a mutex is locked or not.
use sistemi_operativi.Prelude.{ℕ, suc, ◌≡◌, refl, Bool, true, false, Option, none, some, arith}
use sistemi_operativi.GateRing.Gates.{Gate, IsLawful}
use sistemi_operativi.LockedRing.{ProducerPc, ConsumerPc}
use sistemi_operativi.LockedRing

-- `pthread_spin_lock` and `pthread_spin_unlock`.
unfoldable pub spin_lock : Bool → Option Bool
spin_lock false = some true
spin_lock true = none

unfoldable pub spin_unlock : Bool → Bool
spin_unlock locked = false

abbrev pub spinlock : Gate
spinlock = record {
  State = Bool;
  enter = spin_lock;
  leave = spin_unlock;
  opened = false;
  closed = true;
}

abbrev free : Bool → ℕ
free false = 1
free true = 0

spinlock-none : (x : Bool) → free x ≡ 0 → spin_lock x ≡ none
unfolding spin_lock
spinlock-none false e = absurd (omega (arith, e))
spinlock-none true e = refl

spinlock-some :
    (x : Bool) (k : ℕ) → free x ≡ suc k → (y : Bool) × ((spin_lock x ≡ some y) × (free y ≡ k))
unfolding spin_lock
spinlock-some false k e = (true, (refl, omega (arith, e)))
spinlock-some true k e = absurd (omega (arith, e))

spin_unlock_lem : (x : Bool) → free x ≡ 0 → free (spin_unlock x) ≡ 1
unfolding spin_unlock
spin_unlock_lem x e = refl

pub spinlock-IsLawful : IsLawful spinlock
spinlock-IsLawful = record {
  count = free;
  count-opened = refl;
  count-closed = refl;
  enter-none = spinlock-none;
  enter-some = spinlock-some;
  count-leave = spin_unlock_lem;
}

-- `producer` and `consumer` of that file.
abbrev pub producer_step :
    ℕ → ℕ → ProducerPc → LockedRing.System spinlock → Option (LockedRing.System spinlock)
producer_step size last = LockedRing.producer_step spinlock size last

abbrev pub consumer_step :
    ℕ → ℕ → ConsumerPc → LockedRing.System spinlock → Option (LockedRing.System spinlock)
consumer_step size last = LockedRing.consumer_step spinlock size last

abbrev pub start : LockedRing.System spinlock
start = LockedRing.start spinlock (λ _. 18_446_744_073_709_551_615)
