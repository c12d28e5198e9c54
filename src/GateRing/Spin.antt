-- ===== src/GateRing/Spin.antt =====
-- SO esempi/7_SYNCHRONIZATION/UNIX/spinlocks/synchronized-producer-consumer-V1.c: the ring with a spin
-- variable for every slot and one for every item, 0 while it is open. A try of `lock` that fails changes
-- nothing and is tried again, so it is a wait.
use sistemi_operativi.Prelude.{ℕ, zero, suc, ◌≡◌, refl, true, Option, none, some, arith}
use sistemi_operativi.SlotRing.{ProducerPc, ConsumerPc}
use sistemi_operativi.GateRing.Gates.{Gate, IsLawful}
use sistemi_operativi.GateRing

-- `lock`: `cmpxchg` of 0 by 1.
unfoldable pub lock : ℕ → Option ℕ
lock zero = some 1
lock (suc k) = none

-- The assignment of 0.
unfoldable pub reset : ℕ → ℕ
reset x = 0

abbrev pub spin : Gate
spin = record { State = ℕ; enter = lock; leave = reset; opened = 0; closed = 1 }

abbrev free : ℕ → ℕ
free zero = 1
free (suc k) = 0

lock-none : (x : ℕ) → free x ≡ 0 → lock x ≡ none
unfolding lock
lock-none zero e = absurd (omega (arith, e))
lock-none (suc j) e = refl

lock-some : (x k : ℕ) → free x ≡ suc k → (y : ℕ) × ((lock x ≡ some y) × (free y ≡ k))
unfolding lock
lock-some zero k e = (1, (refl, omega (arith, e)))
lock-some (suc j) k e = absurd (omega (arith, e))

free-reset : (x : ℕ) → free x ≡ 0 → free (reset x) ≡ 1
unfolding reset
free-reset x e = refl

pub spin-IsLawful : IsLawful spin
spin-IsLawful = record {
  count = free;
  count-opened = refl;
  count-closed = refl;
  enter-none = lock-none;
  enter-some = lock-some;
  count-leave = free-reset;
}

abbrev pub System : Type 0
System = GateRing.System spin

-- `producer` and `consumer` of that file.
abbrev pub producer_step : ℕ → ℕ → ProducerPc → System → Option System
producer_step size last = GateRing.producer_step spin size last

abbrev pub consumer_step : ℕ → ℕ → ConsumerPc → System → Option System
consumer_step size last = GateRing.consumer_step spin size last

-- The initial values of the globals.
abbrev pub start : System
start = GateRing.start spin (λ _. 18_446_744_073_709_551_615)

-- Two threads of one process.
abbrev pub Reach : ℕ → ℕ → System → Type 0
Reach size last = GateRing.Reach spin size last true (λ _. 18_446_744_073_709_551_615)
