-- ===== src/LockedRing/BitSpin.antt =====
-- SO esempi/7_SYNCHRONIZATION/WINDOWS/spinlocks/win-spinlock-producer-consumer.c: the ring with a counter
-- under a variable whose lowest bit InterlockedBitTestAndSet sets. A try of `lock` that fails changes
-- nothing and is tried again, so it is a wait.
use sistemi_operativi.Prelude.{
  ℕ, suc, ◌+◌, ◌-◌, ◌%◌, ◌≡◌, refl, Option, none, some, arith, ◌==◌, if◌then◌else◌, ==_ne, ◌≢◌,
}
use sistemi_operativi.GateRing.Gates.{Gate, IsLawful}
use sistemi_operativi.LockedRing.{ProducerPc, ConsumerPc}
use sistemi_operativi.LockedRing

-- `lock`: InterlockedBitTestAndSet of bit 0, which gives the old bit.
unfoldable pub lock : ℕ → Option ℕ
lock x = if x % 2 == 0 then some (x + 1) else none

-- `global_lock = 0`
unfoldable pub reset : ℕ → ℕ
reset x = 0

abbrev pub bit_spin : Gate
bit_spin = record { State = ℕ; enter = lock; leave = reset; opened = 0; closed = 1 }

abbrev free : ℕ → ℕ
free x = 1 - x % 2

lock-none : (x : ℕ) → free x ≡ 0 → lock x ≡ none
unfolding lock
lock-none x e =
    let odd : x % 2 ≢ 0 = λ z. absurd (omega (arith, e, z)) in rw (==_ne (x % 2) 0 odd) refl

lock-some : (x k : ℕ) → free x ≡ suc k → (y : ℕ) × ((lock x ≡ some y) × (free y ≡ k))
unfolding lock
lock-some x k e =
    let even : x % 2 ≡ 0 = omega (arith, e) in
    let odd : (x + 1) % 2 ≡ 1 = omega (arith, even) in
    (x + 1, (rw (even) refl, omega (arith, e, even, odd)))

free-reset : (x : ℕ) → free x ≡ 0 → free (reset x) ≡ 1
unfolding reset
free-reset x e = refl

pub bit_spin-IsLawful : IsLawful bit_spin
bit_spin-IsLawful = record {
  count = free;
  count-opened = refl;
  count-closed = refl;
  enter-none = lock-none;
  enter-some = lock-some;
  count-leave = free-reset;
}

-- `producer` and `consumer` of that file.
abbrev pub producer_step :
    ℕ → ℕ → ProducerPc → LockedRing.System bit_spin → Option (LockedRing.System bit_spin)
producer_step size last = LockedRing.producer_step bit_spin size last

abbrev pub consumer_step :
    ℕ → ℕ → ConsumerPc → LockedRing.System bit_spin → Option (LockedRing.System bit_spin)
consumer_step size last = LockedRing.consumer_step bit_spin size last

-- `main`: every element of `v` is -1, and a `long` of this system has 32 bits.
abbrev pub start : LockedRing.System bit_spin
start = LockedRing.start bit_spin (λ _. 4_294_967_295)
