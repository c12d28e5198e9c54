-- ===== src/Stripe.antt =====
-- Esami pratici/prova-pratica-19-9-2018/prog.c: the main thread hands five bytes at a time to the
-- threads 1 to n in turn (`main`, `theThread`), and the handler of CTRL+C reads the files in the same
-- order (`theHandler`).
pub mod Layout
pub mod Phases
pub mod Moves
pub mod Protocol
pub mod Turns
pub mod Safety
pub mod Grown
pub mod Handler
pub mod Ends
mod Tests
use sistemi_operativi.Prelude.{
  ℕ, zero, suc, ◌+◌, ◌%◌, Option, none, some, List, [], ◌∷◌, ◌++◌, ltb, ◌==◌, if◌then◌else◌, ◌≡◌,
  length, set, take, drop, replicate, update,
}

abbrev pub num_chars : ℕ
num_chars = 5

-- Where the main thread stands: before its wait, before `the_buffer[i] = getchar()`, or before the
-- release of `semaphores[turn+1]`.
pub data MainPc : Type 0 where
  waiting : MainPc
  filling : ℕ → MainPc
  filled : MainPc

-- Where `theThread` stands: before its wait, before `WriteFile`, before `ReleaseSemaphore`.
pub data ThreadPc : Type 0 where
  idle writing wrote : ThreadPc

-- The process. `files i` is what `handles[i]` has written, `input` what standard input still has, and
-- `taken` (which the program does not keep) all that `getchar` has returned.
pub record System : Type 0 where
  pub semaphores : ℕ → ℕ
  pub the_buffer : List ℕ
  pub files : ℕ → List ℕ
  pub main : MainPc
  pub turn : ℕ
  pub threads : ℕ → ThreadPc
  pub input : List ℕ
  pub taken : List ℕ

-- Who runs next: the main thread, or thread `me`.
pub data Actor : Type 0 where
  main_thread : Actor
  thread : ℕ → Actor

-- `WaitForSingleObject`: no step while the count is 0.
pub acquire : ℕ → System → Option System
acquire i s = elim (s.semaphores i) [
  | zero ↦ none
  | suc k ↦ some (record s { semaphores = update s.semaphores i k })
]

-- `ReleaseSemaphore(…, 1, NULL)` on a semaphore whose maximum is 1: a release beyond it fails, and
-- the program does not look at the result.
pub release : ℕ → System → System
release i s = record s {
  semaphores = update s.semaphores i (if s.semaphores i == 0 then 1 else s.semaphores i);
}

-- `getchar`, stored into a `char`: at the end of the input `EOF` becomes the byte 0xff.
abbrev pub next_char : List ℕ → ℕ
next_char [] = 255
next_char (c ∷ input) = c

abbrev pub after_char : List ℕ → List ℕ
after_char [] = []
after_char (c ∷ input) = input

-- A step of `main` among `n` files.
pub main_step : ℕ → MainPc → System → Option System
main_step n waiting s = elim (acquire 0 s) [
  | none ↦ none
  | some s' ↦ some (record s' { main = filling 0 })
]
main_step n (filling i) s =
    if ltb i num_chars
    then some (record s {
      the_buffer = set s.the_buffer i (next_char s.input);
      input = after_char s.input;
      taken = s.taken ++ (next_char s.input ∷ []);
      main = filling (i + 1);
    })
    else some (record s { main = filled })
main_step n filled s =
    some (record (release (s.turn + 1) s) { turn = (s.turn + 1) % n; main = waiting })

-- A step of `theThread` with parameter `me`.
pub thread_step : ℕ → ThreadPc → System → Option System
thread_step me idle s = elim (acquire me s) [
  | none ↦ none
  | some s' ↦ some (record s' { threads = update s'.threads me writing })
]
thread_step me writing s = some (record s {
  files = update s.files me (s.files me ++ s.the_buffer);
  threads = update s.threads me wrote;
})
thread_step me wrote s = some (record (release 0 s) { threads = update s.threads me idle })

-- A step of the process. Only the threads 1 to `n` exist.
pub step : ℕ → Actor → System → Option System
step n main_thread s = main_step n s.main s
step n (thread me) s =
    if ltb 0 me then if ltb n me then none else thread_step me (s.threads me) s else none

-- The process when `main` begins its loop, with `input` on standard input.
abbrev pub start : List ℕ → System
start input = record {
  semaphores = update (λ _. 0) 0 1;
  the_buffer = replicate num_chars 0;
  files = λ _. [];
  main = waiting;
  turn = 0;
  threads = λ _. idle;
  input = input;
  taken = [];
}

-- The states that a run with `n` files can reach.
pub data Reach (n : ℕ) (input : List ℕ) : System → Type 0 where
  here : Reach n input (start input)
  next : {s t : System} (a : Actor) → Reach n input s → step n a s ≡ some t → Reach n input t

-- `theHandler`: before an event, in the loop around `SetFilePointer`, before `ReadFile` with its `turn`, and
-- behind the loop.
pub data HandlerPc : Type 0 where
  h_none : HandlerPc
  h_seek : ℕ → HandlerPc
  h_read : ℕ → HandlerPc
  h_done : HandlerPc

-- The process with the thread that the system starts for CTRL+C (one event at a time): the positions of
-- `reconstruction_handles`, and what the handler has put on standard output since the event, without its
-- messages. `WriteFile`, `ReadFile` and `SetFilePointer` are one step each.
pub record Watched : Type 0 where
  pub system : System
  pub handler : HandlerPc
  pub positions : ℕ → ℕ
  pub output : List ℕ

-- A step of `theHandler` while the other threads go on.
unfoldable pub handler_step : ℕ → HandlerPc → Watched → Watched
handler_step n h_none w = record w { handler = h_seek 1; output = [] }
handler_step n (h_seek i) w =
    if ltb n i
    then record w { handler = h_read 0 }
    else record w { handler = h_seek (i + 1); positions = update w.positions i 0 }
handler_step n (h_read turn) w =
    let block = take num_chars (drop (w.positions (turn + 1)) (w.system.files (turn + 1))) in
    record w {
      handler = if ltb (length block) num_chars then h_done else h_read ((turn + 1) % n);
      positions = update w.positions (turn + 1) (w.positions (turn + 1) + length block);
      output = w.output ++ block;
    }
handler_step n h_done w = record w { handler = h_none }

-- The states that the process can reach with its handler.
pub data Watch (n : ℕ) (input : List ℕ) : Watched → Type 0 where
  begun :
      Watch n input
        (record { system = start input; handler = h_none; positions = λ _. 0; output = [] })
  go_on :
      {w : Watched} {t : System} (a : Actor)
      → Watch n input w
      → step n a w.system ≡ some t
      → Watch n input (record w { system = t })
  handle : {w : Watched} → Watch n input w → Watch n input (handler_step n w.handler w)
