-- ===== src/Dispatch/Tokens.antt =====
-- What the mutexes of prog-A-solution.c (exam of 26-6-2018) hand on: the right to use `val`, as a token
-- that is counted, and the values on their way to the lists.
use sistemi_operativi.Prelude.{ℕ, ◌+◌, ◌≡◌, refl, Bool, true, false, sum_below}
use sistemi_operativi.Prelude.Count.{one, count}
use sistemi_operativi.Prelude.Int.{ℤ}
use sistemi_operativi.Dispatch.{
  Data, MainPc, m_lock, m_scan, m_unlock, m_exit, WorkerPc, w_copy, w_unlock, w_next, w_link,
  System,
}

abbrev pub only : Bool → ℕ → ℕ
only true n = n
only false n = 0

pub only_suc : (b : Bool) (n : ℕ) → only b (n + 1) ≡ only b n + one b
only_suc true n = refl
only_suc false n = refl

pub only_zero : (b : Bool) → only b 0 ≡ 0
only_zero true = refl
only_zero false = refl

pub only-one : (b : Bool) → only b 1 ≡ one b
only-one true = refl
only-one false = refl

-- Who has the token: the main thread, a worker, a mutex that is not locked.
abbrev pub main_token : MainPc → ℕ
main_token m_lock = 0
main_token m_scan = 1
main_token m_unlock = 1
main_token m_exit = 1

abbrev pub worker_token : WorkerPc → ℕ
worker_token w_copy = 1
worker_token (w_unlock v) = 1
worker_token _ = 0

abbrev pub free : Bool → ℕ
free true = 0
free false = 1

-- Where `val` has been read and not yet copied.
abbrev pub main_pending : MainPc → ℕ
main_pending m_unlock = 1
main_pending _ = 0

abbrev pub worker_pending : WorkerPc → ℕ
worker_pending w_copy = 1
worker_pending _ = 0

-- How many values that pass a test a worker has in its own hands.
abbrev pub carried : (ℤ → Bool) → WorkerPc → ℕ
carried p (w_unlock v) = one (p v)
carried p (w_next v) = one (p v)
carried p (w_link aux) = one (p aux.val)
carried p _ = 0

-- The number of tokens, and that of the places where `val` is still to be copied.
abbrev pub tokens : ℕ → System → ℕ
tokens n s = free s.next + main_token s.main + free s.lock + sum_below worker_token n s.workers

abbrev pub pending : ℕ → System → ℕ
pending n s = main_pending s.main + free s.lock + sum_below worker_pending n s.workers

-- How many values that pass a test stand in the lists, and how many are on their way to them.
abbrev pub listed : (ℤ → Bool) → ℕ → System → ℕ
listed p n s = sum_below (λ (d : Data). count p d.next) n s.lists

abbrev pub on_the_way : (ℤ → Bool) → ℕ → System → ℕ
on_the_way p n s = sum_below (carried p) n s.workers + only (p s.val) (pending n s)
