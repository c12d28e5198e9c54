-- ===== src/Relay.antt =====
-- Esami pratici/prova-pratica-7-9-2018/prog-solution.c: N threads of a process A read strings, and hand
-- each to the thread of process B with the same number, which writes it as a line of the file
-- (`parent_worker`, `child_worker`). Each pair of threads has its own segment of shared memory and two
-- semaphores.
pub mod Spec
pub mod Channels
pub mod Refine
pub mod Steps
pub mod Runs
pub mod Safety
mod Tests
use sistemi_operativi.Prelude.{
  ℕ, zero, suc, ◌+◌, ◌≡◌, Bool, true, false, Option, none, some, List, [], ◌∷◌, ◌++◌, length, ltb,
  update, if◌then◌else◌,
}

abbrev pub segment_size : ℕ
segment_size = 4096

-- `parent_worker`: before its wait, before `scanf`, before its post.
pub data ParentPc : Type 0 where
  a_wait a_scan a_post : ParentPc

-- `child_worker`: before its wait, before `fprintf`, before its post.
pub data ChildPc : Type 0 where
  b_wait b_write b_post : ChildPc

-- What belongs to one number: the semaphores of `sd1` and `sd2`, the string in the segment, and the two
-- threads; `sent` and `written` (which the program does not keep) are the strings that the one has read
-- and that the other has written.
pub record Channel : Type 0 where
  pub sd1 : ℕ
  pub sd2 : ℕ
  pub segment : List ℕ
  pub parent : ParentPc
  pub child : ChildPc
  pub sent : List (List ℕ)
  pub written : List (List ℕ)

-- Process A: at work, behind `exit` in one of its threads, or behind a string that is too long.
pub data Status : Type 0 where
  working exited overrun : Status

-- `file` are the lines of F, `input` the strings that `scanf` has still to deliver.
pub record System : Type 0 where
  pub channels : ℕ → Channel
  pub status : Status
  pub file : List (List ℕ)
  pub input : List (List ℕ)

pub data Actor : Type 0 where
  parent_thread child_thread : ℕ → Actor

abbrev pub with_channel : ℕ → Channel → System → System
with_channel me c s = record s { channels = update s.channels me c }

-- `semop` with -1 on a count, and what happens when it has gone through.
pub wait_for : ℕ → (ℕ → System) → Option System
wait_for zero after = none
wait_for (suc k) after = some (after k)

-- `scanf("%s", memory_segments[me])`; EOF ends process A.
pub scan : ℕ → Channel → List (List ℕ) → System → System
scan me c [] s = record s { status = exited }
scan me c (word ∷ later) s =
    if ltb (length word) segment_size
    then record {
      channels = update s.channels me (record {
        sd1 = c.sd1;
        sd2 = c.sd2;
        segment = word;
        parent = a_post;
        child = c.child;
        sent = c.sent ++ (word ∷ []);
        written = c.written;
      });
      status = s.status;
      file = s.file;
      input = later;
    }
    else record s { status = overrun }

-- A step of `parent_worker`, lines 229 to 259. A wait that a signal interrupts is repeated.
pub parent_step : ℕ → ParentPc → Channel → System → Option System
parent_step me a_wait c s =
    wait_for c.sd1 (λ k. with_channel me (record c { sd1 = k; parent = a_scan }) s)
parent_step me a_scan c s = some (scan me c s.input s)
parent_step me a_post c s = some (with_channel me (record c { sd2 = c.sd2 + 1; parent = a_wait }) s)

-- A step of `child_worker`, lines 277 to 301.
pub child_step : ℕ → ChildPc → Channel → System → Option System
child_step me b_wait c s =
    wait_for c.sd2 (λ k. with_channel me (record c { sd2 = k; child = b_write }) s)
child_step me b_write c s = some (record s {
  channels =
      update s.channels me (record c { child = b_post; written = c.written ++ (c.segment ∷ []) });
  file = s.file ++ (c.segment ∷ []);
})
child_step me b_post c s = some (with_channel me (record c { sd1 = c.sd1 + 1; child = b_wait }) s)

pub at_work : Status → Bool
at_work working = true
at_work exited = false
at_work overrun = false

-- A step of the two processes with `n` threads each. Process B goes on when A has ended.
pub step : ℕ → Actor → System → Option System
step n (parent_thread me) s =
    if ltb me n
    then if at_work s.status then parent_step me (s.channels me).parent (s.channels me) s else none
    else none
step n (child_thread me) s =
    if ltb me n then child_step me (s.channels me).child (s.channels me) s else none

-- What `main` sets up, lines 140 to 181.
abbrev pub start : List (List ℕ) → System
start input = record {
  channels = λ _. record {
    sd1 = 1;
    sd2 = 0;
    segment = [];
    parent = a_wait;
    child = b_wait;
    sent = [];
    written = [];
  };
  status = working;
  file = [];
  input = input;
}

-- The states that a run can reach.
pub data Reach (n : ℕ) (input : List (List ℕ)) : System → Type 0 where
  here : Reach n input (start input)
  next : {s t : System} (a : Actor) → Reach n input s → step n a s ≡ some t → Reach n input t
