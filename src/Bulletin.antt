-- ===== src/Bulletin.antt =====
-- Tutoraggio SO/Tutoraggio 11/exercise4(UNIX).c: a writer puts messages into shared memory, and N_READER
-- readers print them, with three System V semaphores (`writer_function`, `reader_function`, `main`).
pub mod Tokens
pub mod Steps
pub mod Writer
pub mod Measure
pub mod Progress
pub mod Safety
pub mod Turns
pub mod Twice
mod Tests
use sistemi_operativi.Prelude.{
  ℕ, suc, ◌+◌, ◌-◌, ◌≡◌, Option, none, some, List, [], ◌∷◌, ◌++◌, ltb, leb, update, if◌then◌else◌,
}

-- A message is the list of its bytes.
abbrev pub Message : Type 0
Message = List ℕ

-- `writer_function`: before its semops on 0 and on 2, before `scanf`, before the semop on 1; `main` behind
-- the loop: before its semop, before the `kill` of a reader, and behind the last of them.
pub data WriterPc : Type 0 where
  w_take w_open w_write w_post w_last w_end : WriterPc
  w_kill : ℕ → WriterPc

-- `reader_function`: before the loop, before the semop on 1, `printf`, the semops on 0 and on 2; killed.
pub data ReaderPc : Type 0 where
  r_start r_wait r_print r_post r_barrier r_killed : ReaderPc

-- A reader; `printed` (which the program does not keep) are the messages that it has printed.
pub record Reader : Type 0 where
  pub pc : ReaderPc
  pub printed : List Message

-- The semaphores by index, the shared memory, the lines that are left of standard input, the processes
-- and `i` of the loop of `main`; `output` are the messages that the readers have printed, and `messages`
-- (which the program does not keep) those written.
pub record System : Type 0 where
  pub sem0 : ℕ
  pub sem1 : ℕ
  pub sem2 : ℕ
  pub message : Message
  pub input : List Message
  pub writer : WriterPc
  pub i : ℕ
  pub readers : ℕ → Reader
  pub output : List Message
  pub messages : List Message

pub data Actor : Type 0 where
  run_writer : Actor
  run_reader : ℕ → Actor

-- `scanf` and `getc`: an empty line stores an empty string, and the end of the input leaves the message.
unfoldable pub scan : List Message → Message → Message
scan [] m = m
scan (l ∷ ls) m = l

abbrev pub later : List Message → List Message
later [] = []
later (l ∷ ls) = ls

abbrev with_reader : ℕ → Reader → System → System
with_reader me c s = record s { readers = update s.readers me c }

-- A step of `reader_function`.
unfoldable pub reader_step : ℕ → ReaderPc → Reader → System → Option System
reader_step me r_start c s =
    if ltb 0 s.sem2
    then some (with_reader me (record c { pc = r_wait }) (record s { sem2 = s.sem2 - 1 }))
    else none
reader_step me r_wait c s =
    if ltb 0 s.sem1
    then some (with_reader me (record c { pc = r_print }) (record s { sem1 = s.sem1 - 1 }))
    else none
reader_step me r_print c s = some (
    with_reader me (record c { pc = r_post; printed = c.printed ++ (s.message ∷ []) })
      (record s { output = s.output ++ (s.message ∷ []) }))
reader_step me r_post c s =
    some (with_reader me (record c { pc = r_barrier }) (record s { sem0 = s.sem0 + 1 }))
reader_step me r_barrier c s =
    if ltb 0 s.sem2
    then some (with_reader me (record c { pc = r_wait }) (record s { sem2 = s.sem2 - 1 }))
    else none
reader_step me r_killed c s = none

-- `n` is N_READER, `steps` is N_STEP.
module _ (n steps : ℕ) where
  -- Where `main` goes on with that `i`.
  abbrev pub loop : ℕ → WriterPc
  loop i = if ltb i steps then w_take else w_last

  -- `main` behind its loop: the semop, and the `kill` of one reader.
  abbrev await_readers : System → Option System
  await_readers s =
      if leb n s.sem0 then some (record s { sem0 = s.sem0 - n; writer = w_kill 0 }) else none

  abbrev kill_reader : ℕ → System → Option System
  kill_reader k s =
      if ltb k n
      then some (
          with_reader k (record (s.readers k) { pc = r_killed })
            (record s { writer = w_kill (k + 1) }))
      else some (record s { writer = w_end })

  -- A step of `writer_function` and of `main` around it.
  unfoldable pub writer_step : WriterPc → System → Option System
  writer_step w_take s =
      if leb n s.sem0 then some (record s { sem0 = s.sem0 - n; writer = w_open }) else none
  writer_step w_open s = some (record s { sem2 = s.sem2 + n; writer = w_write })
  writer_step w_write s =
      let m = scan s.input s.message in
      some (record s {
        message = m;
        input = later s.input;
        messages = s.messages ++ (m ∷ []);
        writer = w_post;
      })
  writer_step w_post s = some (record s { sem1 = s.sem1 + n; i = s.i + 1; writer = loop (s.i + 1) })
  writer_step w_last s = await_readers s
  writer_step (w_kill k) s = kill_reader k s
  writer_step w_end s = none

  unfoldable pub step : Actor → System → Option System
  step run_writer s = writer_step s.writer s
  step (run_reader me) s =
      if ltb me n then reader_step me (s.readers me).pc (s.readers me) s else none

  -- What `main` sets up: the shared memory is zeroed.
  abbrev pub start : List Message → System
  start input = record {
    sem0 = n;
    sem1 = 0;
    sem2 = 0;
    message = [];
    input = input;
    writer = loop 0;
    i = 0;
    readers = λ j. record { pc = r_start; printed = [] };
    output = [];
    messages = [];
  }

  -- The states that a run can reach in that many steps.
  pub data Reach (input : List Message) : ℕ → System → Type 0 where
    here : Reach input 0 (start input)
    next :
        {k : ℕ} {s t : System} (a : Actor)
        → Reach input k s
        → step a s ≡ some t
        → Reach input (suc k) t
