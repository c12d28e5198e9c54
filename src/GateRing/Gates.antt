-- ===== src/GateRing/Gates.antt =====
-- What a thread waits at. A gate lets one thread through for each time that it is opened; `enter` is
-- `none` while it is closed.
use sistemi_operativi.Prelude.{ℕ, zero, suc, ◌+◌, ◌≡◌, refl, Option, none, some, arith}

pub record Gate : Type 1 where
  pub State : Type 0
  pub enter : State → Option State
  pub leave : State → State
  pub opened : State
  pub closed : State

-- A gate that counts. A closed gate is opened by `leave`; nothing is said of one that is open.
pub record IsLawful (g : Gate) : Type 0 where
  pub count : Gate.State g → ℕ
  pub count-opened : count (Gate.opened g) ≡ 1
  pub count-closed : count (Gate.closed g) ≡ 0
  pub enter-none : (x : Gate.State g) → count x ≡ 0 → Gate.enter g x ≡ none
  pub enter-some :
      (x : Gate.State g) (k : ℕ)
      → count x ≡ suc k
      → (y : Gate.State g) × ((Gate.enter g x ≡ some y) × (count y ≡ k))
  pub count-leave : (x : Gate.State g) → count x ≡ 0 → count (Gate.leave g x) ≡ 1

-- A POSIX semaphore: `sem_wait`, and `sem_post`.
pub sem_wait : ℕ → Option ℕ
sem_wait zero = none
sem_wait (suc k) = some k

pub sem_post : ℕ → ℕ
sem_post k = k + 1

abbrev pub semaphore : Gate
semaphore = record { State = ℕ; enter = sem_wait; leave = sem_post; opened = 1; closed = 0 }

abbrev same : ℕ → ℕ
same k = k

semaphore-enter : (x k : ℕ) → x ≡ suc k → (y : ℕ) × ((sem_wait x ≡ some y) × (y ≡ k))
unfolding sem_wait
semaphore-enter zero k e = absurd (omega (arith, e))
semaphore-enter (suc j) k e = (j, (refl, omega (arith, e)))

semaphore-none : (x : ℕ) → x ≡ 0 → sem_wait x ≡ none
unfolding sem_wait
semaphore-none zero e = refl
semaphore-none (suc k) e = absurd (omega (arith, e))

semaphore-post : (x : ℕ) → x ≡ 0 → sem_post x ≡ 1
unfolding sem_post
semaphore-post x e = omega (arith, e)

pub semaphore-IsLawful : IsLawful semaphore
semaphore-IsLawful = record {
  count = same;
  count-opened = refl;
  count-closed = refl;
  enter-none = semaphore-none;
  enter-some = semaphore-enter;
  count-leave = semaphore-post;
}
