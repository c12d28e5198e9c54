-- ===== src/Broadcast.antt =====
-- Esami pratici/prova-pratica-18-7-2018/prog-B-solution.c: the main thread reads strings, and each of N
-- threads writes every one of them to its file (`main`, `worker`). A signal can interrupt the calls that
-- wait and the `write` of a worker.
pub mod Lateness
pub mod Steps
pub mod Rounds
pub mod Safety
pub mod Stuck
pub mod Interrupted
mod Tests
use sistemi_operativi.Prelude.{
  ℕ, zero, suc, ◌+◌, ◌-◌, ◌≡◌, Bool, true, false, Option, none, some, List, [], ◌∷◌, ◌++◌, length,
  ltb, leb, update, if◌then◌else◌,
}

abbrev pub buffer_size : ℕ
buffer_size = 128

-- `main` in its loop: before the wait for `sd`, before `scanf`, before the post of `sd1` with index `i`;
-- after `exit`, and after a string that is too long for `buffer`.
pub data MainPc : Type 0 where
  m_wait m_scan m_exit m_fault : MainPc
  m_post : ℕ → MainPc

-- `worker`: before the wait for `sd1`, before `write`, before the post of `sd`.
pub data WorkerPc : Type 0 where
  w_wait w_write w_post : WorkerPc

-- The semaphores, `buffer` up to its NUL, the bytes of the files, and the strings that `scanf` has still
-- to deliver; `taken` (which the program does not keep) are the strings read, each with its NUL.
pub record System : Type 0 where
  pub sd : ℕ
  pub sd1 : ℕ → ℕ
  pub buffer : List ℕ
  pub files : ℕ → List ℕ
  pub main : MainPc
  pub workers : ℕ → WorkerPc
  pub input : List (List ℕ)
  pub taken : List ℕ

pub data Actor : Type 0 where
  run_main : Actor
  run_worker : ℕ → Actor
  signal : ℕ → Actor

-- A string with its NUL.
abbrev pub with_nul : List ℕ → List ℕ
with_nul s = s ++ (0 ∷ [])

-- `scanf("%s", buffer)`; EOF, with no signal, ends the process.
pub scan : List (List ℕ) → System → Option System
scan [] s = some (record s { main = m_exit })
scan (word ∷ later) s =
    if ltb (length word) buffer_size
    then some (record s {
      buffer = word;
      input = later;
      taken = s.taken ++ with_nul word;
      main = m_post 0;
    })
    else some (record s { main = m_fault })

-- A step of `main` among `n` workers.
pub main_step : ℕ → MainPc → System → Option System
main_step n m_wait s = if leb n s.sd then some (record s { sd = s.sd - n; main = m_scan }) else none
main_step n m_scan s = scan s.input s
main_step n (m_post i) s =
    if ltb i n
    then some (record s { sd1 = update s.sd1 i (s.sd1 i + 1); main = m_post (i + 1) })
    else some (record s { main = m_wait })
main_step n m_exit s = none
main_step n m_fault s = none

-- `semop` of a worker with `sem_op = -1` on a count.
pub take_turn : ℕ → ℕ → System → Option System
take_turn me zero s = none
take_turn me (suc k) s =
    some (record s { sd1 = update s.sd1 me k; workers = update s.workers me w_write })

-- A step of `worker` with `me`.
pub worker_step : ℕ → WorkerPc → System → Option System
worker_step me w_wait s = take_turn me (s.sd1 me) s
worker_step me w_write s = some (record s {
  files = update s.files me (s.files me ++ with_nul s.buffer);
  workers = update s.workers me w_post;
})
worker_step me w_post s = some (record s { sd = s.sd + 1; workers = update s.workers me w_wait })

-- EINTR: the calls of `semop` are repeated, but behind the `write` the program goes to `redo1`.
pub interrupt : ℕ → WorkerPc → System → Option System
interrupt me w_wait s = some s
interrupt me w_write s = some (record s { workers = update s.workers me w_wait })
interrupt me w_post s = some s

-- Whether the process has not ended.
pub running : MainPc → Bool
running m_exit = false
running m_fault = false
running m_wait = true
running m_scan = true
running (m_post i) = true

-- What a worker or a signal to it does, if there is such a worker and the process runs.
abbrev pub guarded : ℕ → ℕ → System → Option System → Option System
guarded n me s after = if ltb me n then if running s.main then after else none else none

-- A step of the process.
pub step : ℕ → Actor → System → Option System
step n run_main s = main_step n s.main s
step n (run_worker me) s = guarded n me s (worker_step me (s.workers me) s)
step n (signal me) s = guarded n me s (interrupt me (s.workers me) s)

-- The process when `main` begins its loop: `sd` is the number of threads.
abbrev pub start : ℕ → List (List ℕ) → System
start n input = record {
  sd = n;
  sd1 = λ _. 0;
  buffer = [];
  files = λ _. [];
  main = m_wait;
  workers = λ _. w_wait;
  input = input;
  taken = [];
}

-- The states that a run with `n` workers can reach.
pub data Reach (n : ℕ) (input : List (List ℕ)) : System → Type 0 where
  here : Reach n input (start n input)
  next : {s t : System} (a : Actor) → Reach n input s → step n a s ≡ some t → Reach n input t
