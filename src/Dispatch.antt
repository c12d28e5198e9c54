-- ===== src/Dispatch.antt =====
-- Esami pratici/prova-pratica-26-6-2018/prog-A-solution.c: the main thread reads integers and hands each
-- to one of N threads, which puts it into its list (`main`, `worker`); SIGINT prints the lists
-- (`printer`). Esami pratici/exam1_A.c is the same program with another handler (`stampa`).
-- The two mutexes are handed from thread to thread: who locks one is not who unlocks it, so a mutex is
-- whether it is locked.
pub mod Tokens
pub mod Conserve
pub mod Workers
pub mod Safety
pub mod Progress
mod Tests
use sistemi_operativi.Prelude.{
  ℕ, zero, suc, ◌≡◌, Bool, true, false, Option, none, some, List, [], ◌∷◌, ◌++◌, ltb, update,
  if◌then◌else◌,
}
use sistemi_operativi.Prelude.Int.{ℤ, pos, negsuc}

-- What `scanf("%d", …)` finds next on standard input, white space left out; the end is the empty list.
pub data Token : Type 0 where
  number : ℤ → Token
  junk : Token

-- The struct `data`, with the values of the records that hang on `next`.
pub record Data : Type 0 where
  pub val : ℤ
  pub next : List ℤ

-- `main` in its loop: before step1, at step2, at step3, and after `exit`.
pub data MainPc : Type 0 where
  m_lock m_scan m_unlock m_exit : MainPc

-- `worker`: before the lock of `lock`, before `aux->val = val`, before the unlock of `next` (with
-- `aux->val`), before `aux->next = …`, and before `lists[…].next = aux`.
pub data WorkerPc : Type 0 where
  w_lock w_copy : WorkerPc
  w_unlock w_next : ℤ → WorkerPc
  w_link : Data → WorkerPc

-- The globals and the program counters; `taken` (which the program does not keep) are the values read.
pub record System : Type 0 where
  pub lock : Bool
  pub next : Bool
  pub val : ℤ
  pub lists : ℕ → Data
  pub main : MainPc
  pub workers : ℕ → WorkerPc
  pub input : List Token
  pub taken : List ℤ

pub data Actor : Type 0 where
  run_main : Actor
  run_worker : ℕ → Actor

-- `scanf` at step2, with what stands on standard input: EOF goes back to step2.
pub scan : List Token → System → Option System
scan [] s = some s
scan (junk ∷ later) s = some (record s { main = m_exit })
scan (number v ∷ later) s =
    some (record s { val = v; input = later; taken = s.taken ++ (v ∷ []); main = m_unlock })

-- A step of `main`, lines 213 to 229.
pub main_step : MainPc → System → Option System
main_step m_lock s = if s.next then none else some (record s { next = true; main = m_scan })
main_step m_scan s = scan s.input s
main_step m_unlock s = some (record s { lock = false; main = m_lock })
main_step m_exit s = none

-- A step of `worker` with parameter `me`, lines 100 to 121.
pub worker_step : ℕ → WorkerPc → System → Option System
worker_step me w_lock s =
    if s.lock then none else some (record s { lock = true; workers = update s.workers me w_copy })
worker_step me w_copy s = some (record s { workers = update s.workers me (w_unlock s.val) })
worker_step me (w_unlock v) s =
    some (record s { next = false; workers = update s.workers me (w_next v) })
worker_step me (w_next v) s = some (record s {
  workers = update s.workers me (w_link (record { val = v; next = (s.lists me).next }));
})
worker_step me (w_link aux) s = some (record s {
  lists = update s.lists me (record { val = (s.lists me).val; next = aux.val ∷ aux.next });
  workers = update s.workers me w_lock;
})

-- Whether the process has not called `exit`.
pub running : MainPc → Bool
running m_exit = false
running m_lock = true
running m_scan = true
running m_unlock = true

-- A step of the process with `n` threads.
pub step : ℕ → Actor → System → Option System
step n run_main s = main_step s.main s
step n (run_worker me) s =
    if ltb me n then if running s.main then worker_step me (s.workers me) s else none else none

-- The process when `main` begins its loop: it holds `lock`.
abbrev pub start : List Token → System
start input = record {
  lock = true;
  next = false;
  val = pos 0;
  lists = λ _. record { val = negsuc 0; next = [] };
  main = m_lock;
  workers = λ _. w_lock;
  input = input;
  taken = [];
}

-- The states that a run with `n` threads can reach.
pub data Reach (n : ℕ) (input : List Token) : System → Type 0 where
  here : Reach n input (start input)
  next : {s t : System} (a : Actor) → Reach n input s → step n a s ≡ some t → Reach n input t

-- The inner loop of `printer`, from a copy of a record on: the value of the record that comes next.
pub printer_from : ℤ → List ℤ → List ℤ
printer_from val [] = []
printer_from val (v ∷ later) = v ∷ printer_from v later

abbrev pub printer_list : Data → List ℤ
printer_list aux = printer_from aux.val aux.next

-- The inner loop of `stampa` of exam1_A.c, from a copy of a record on: its own value.
pub stampa_from : ℤ → List ℤ → List ℤ
stampa_from val [] = []
stampa_from val (v ∷ later) = val ∷ stampa_from v later

abbrev pub stampa_list : Data → List ℤ
stampa_list aux = stampa_from aux.val aux.next

-- `printer`: the values printed for the lists 0 to `n - 1`.
pub printer : ℕ → (ℕ → Data) → List (List ℤ)
printer zero lists = []
printer (suc n) lists = printer n lists ++ (printer_list (lists n) ∷ [])
