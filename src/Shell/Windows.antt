-- ===== src/Shell/Windows.antt =====
-- SO esempi/5_PIPES-MESSAGES/WINDOWS/shell-with-pipes/shell-pipe.c: the shell with the calls of Windows.
-- It takes a line apart as the other one does, and joins the arguments of each command again for
-- `CreateProcess`.
use sistemi_operativi.Prelude.{
  ℕ, suc, ◌+◌, Bool, true, false, Option, none, some, List, [], ◌∷◌, ◌++◌, length, ltb,
  if◌then◌else◌,
}
use sistemi_operativi.Shell.{Bytes, Stage, stages}
use sistemi_operativi.Shell.Wires.{File, read_end, write_end}

-- `build_command_line`: each argument with a space behind it, and a NUL over the last byte.
unfoldable pub spaced : List Bytes → Bytes
spaced [] = []
spaced (w ∷ ws) = w ++ (32 ∷ spaced ws)

unfoldable pub but_last : Bytes → Bytes
but_last [] = []
but_last (b ∷ []) = []
but_last (b ∷ c ∷ bs) = b ∷ but_last (c ∷ bs)

abbrev pub build_command_line : List Bytes → Bytes
build_command_line arg = but_last (spaced arg)

-- A process that `CreateProcess` has made, with the standard handles that it gets.
pub record Process : Type 0 where
  pub command_line : Bytes
  pub input : File
  pub output : File

abbrev pub process : Bytes → File → File → Process
process c i o = record { command_line = c; input = i; output = o }

-- The standard handles of the shell, the pipes made so far, the pipe whose read handle is in
-- `old_pipe_handles[0]` while `pipe_pending` is set, and the processes.
pub record Console : Type 0 where
  pub std_input : File
  pub std_output : File
  pub pipes : ℕ
  pub pipe_pending : Option ℕ
  pub pending_processes : ℕ
  pub processes : List Process

abbrev pub console : File → File → ℕ → Option ℕ → ℕ → List Process → Console
console i o p w n k = record {
  std_input = i;
  std_output = o;
  pipes = p;
  pipe_pending = w;
  pending_processes = n;
  processes = k;
}

-- What is the standard input, or output, while the process is created.
abbrev pub redirected : Option ℕ → File → File
redirected none f = f
redirected (some p) f = read_end p

abbrev pub piped : Bool → ℕ → File → File
piped true p f = write_end p
piped false p f = f

abbrev pub pending_of : Bool → ℕ → Option ℕ
pending_of true p = some p
pending_of false p = none

abbrev pub opened : Bool → ℕ → ℕ
opened true p = p + 1
opened false p = p

-- MAXIMUM_WAIT_OBJECTS, the size of `pending_processes_handles`.
abbrev pub maximum_wait_objects : ℕ
maximum_wait_objects = 64

-- `CreateProcess` and what follows it: the standard handles are set back and the pipe becomes pending,
-- whatever it returns. None when the handle of the process would be stored behind the end of
-- `pending_processes_handles`.
unfoldable pub create : Bool → Stage → Console → Option Console
create true c s =
    if ltb s.pending_processes maximum_wait_objects
    then some (
        console s.std_input s.std_output (opened c.pipe_present s.pipes)
          (pending_of c.pipe_present s.pipes) (s.pending_processes + 1)
          (s.processes
            ++ (process (build_command_line c.args) (redirected s.pipe_pending s.std_input)
                  (piped c.pipe_present s.pipes s.std_output)
                ∷ [])))
    else none
create false c s = some (
    console s.std_input s.std_output (opened c.pipe_present s.pipes)
      (pending_of c.pipe_present s.pipes) s.pending_processes s.processes)

-- The loop over the commands, which a failure of `CreateProcess` leaves.
unfoldable pub commands : (ℕ → Bool) → List Stage → Console → Option Console
commands creates [] s = some s
commands creates (c ∷ cs) s = elim (create (creates 0) c s) [
  | none ↦ none
  | some t ↦ let rest = commands (λ n. creates (suc n)) cs t in if creates 0 then rest else some t
]

-- One line, other than "exit\n".
abbrev pub counted_anew : Console → Console
counted_anew s = console s.std_input s.std_output s.pipes s.pipe_pending 0 s.processes

unfoldable pub run_line : (ℕ → Bool) → Bytes → Console → Option Console
run_line creates b s = commands creates (stages (length b) b) (counted_anew s)
