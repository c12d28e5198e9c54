-- ===== src/Shell/Wires.antt =====
-- The processes of Tutoraggio 8/esempio2(shell-pipe)(UNIX).c: what `main` does with the descriptors around
-- `pipe` and `fork`.
use sistemi_operativi.Prelude.{
  ℕ, zero, suc, ◌+◌, Bool, true, false, Option, none, some, List, [], ◌∷◌, ◌++◌, if◌then◌else◌,
  ◌==◌, length,
}
use sistemi_operativi.Prelude.Text.{str_eq}
use sistemi_operativi.Shell.{Bytes, Stage, stages}

-- The file behind a descriptor: one the shell was started with, or an end of the pipe of that number.
pub data File : Type 0 where
  outside : ℕ → File
  read_end : ℕ → File
  write_end : ℕ → File

-- The descriptors of a process, from 0.
abbrev pub Table : Type 0
Table = List (Option File)

unfoldable pub file : Table → ℕ → Option File
file [] n = none
file (x ∷ t) zero = x
file (x ∷ t) (suc n) = file t n

unfoldable pub close : ℕ → Table → Table
close n [] = []
close zero (x ∷ t) = none ∷ t
close (suc n) (x ∷ t) = x ∷ close n t

abbrev behind : Option (ℕ × Table) → File → Option (ℕ × Table)
behind none g = none
behind (some (n, t)) g = some (suc n, some g ∷ t)

-- A file takes the lowest free descriptor.
unfoldable pub put : File → Table → Option (ℕ × Table)
put f [] = none
put f (none ∷ t) = some (0, some f ∷ t)
put f (some g ∷ t) = behind (put f t) g

-- The result of `dup` is not tested.
abbrev kept : Table → Option (ℕ × Table) → Table
kept t none = t
kept t (some (n, u)) = u

abbrev dup_file : Option File → Table → Table
dup_file none t = t
dup_file (some f) t = kept t (put f t)

unfoldable pub dup : ℕ → Table → Table
dup n t = dup_file (file t n) t

abbrev both : ℕ → Option (ℕ × Table) → Option ((ℕ × ℕ) × Table)
both r none = none
both r (some (w, t)) = some ((r, w), t)

abbrev with_reader : ℕ → Option (ℕ × Table) → Option ((ℕ × ℕ) × Table)
with_reader p none = none
with_reader p (some (r, t)) = both r (put (write_end p) t)

-- `pipe`, which fails when there are not two free descriptors.
unfoldable pub pipe : ℕ → Table → Option ((ℕ × ℕ) × Table)
pipe p t = with_reader p (put (read_end p) t)

pub record Child : Type 0 where
  pub arg : List Bytes
  pub descriptors : Table

abbrev pub child : List Bytes → Table → Child
child arg descriptors = record { arg = arg; descriptors = descriptors }

-- The parent: its descriptors, the pipes opened so far, the descriptor `old_pipe_descriptors[0]` while
-- `pipe_pending` is set, and the processes started, in their order.
pub record Shell : Type 0 where
  pub table : Table
  pub pipes : ℕ
  pub pipe_pending : Option ℕ
  pub pending_processes : ℕ
  pub children : List Child

abbrev pub shell : Table → ℕ → Option ℕ → ℕ → List Child → Shell
shell table pipes pipe_pending pending_processes children = record {
  table = table;
  pipes = pipes;
  pipe_pending = pipe_pending;
  pending_processes = pending_processes;
  children = children;
}

-- `close(0); dup(old_pipe_descriptors[0]); close(old_pipe_descriptors[0])`, if a pipe is pending.
abbrev pub redirect_input : Option ℕ → Table → Table
redirect_input none t = t
redirect_input (some old) t = close old (dup old (close 0 t))

abbrev pub redirect_output : Option (ℕ × ℕ) → Table → Table
redirect_output none t = t
redirect_output (some (r, w)) t = close w (dup w (close 1 t))

-- What the parent closes: the read end of the pending pipe, and the write end of the new one.
abbrev pub close_old : Option ℕ → Table → Table
close_old none t = t
close_old (some old) t = close old t

abbrev pub close_new : Option (ℕ × ℕ) → Table → Table
close_new none t = t
close_new (some (r, w)) t = close w t

abbrev pub next_pending : Option (ℕ × ℕ) → Option ℕ
next_pending none = none
next_pending (some (r, w)) = some r

-- `fork` and what follows it in the child and in the parent, with the new pipe if there is one.
unfoldable pub fork : Bool → List Bytes → Option (ℕ × ℕ) → Shell → Shell
fork true a new s =
    shell (close_new new (close_old (s.pipe_pending) (s.table))) (s.pipes) (next_pending new)
      (s.pending_processes + 1)
      (s.children
        ++ (child a (redirect_output new (redirect_input (s.pipe_pending) (s.table))) ∷ []))
fork false a new s = s

abbrev pub fork_piped : Bool → List Bytes → Shell → Option ((ℕ × ℕ) × Table) → Option Shell
fork_piped ok a s none = none
fork_piped ok a s (some (ends, t)) = some (
    fork ok a (some ends)
      (shell t (s.pipes + 1) (s.pipe_pending) (s.pending_processes) (s.children)))

-- One round of the loop over the commands; none when `pipe` fails, which ends the shell.
unfoldable pub command : Bool → Stage → Shell → Option Shell
command ok c s =
    if c.pipe_present
    then fork_piped ok (c.args) s (pipe (s.pipes) (s.table))
    else some (fork ok (c.args) none s)

-- The loop, with what the calls of `fork` return.
unfoldable pub commands : (ℕ → Bool) → List Stage → Shell → Option Shell
commands forks [] s = some s
commands forks (c ∷ cs) s = elim (command (forks 0) c s) [
  | none ↦ none
  | some t ↦ commands (λ n. forks (suc n)) cs t
]

-- One line, other than "exit\n"; the `wait`s behind it are one for each process started.
abbrev pub clear : Shell → Shell
clear s = shell (s.table) (s.pipes) (s.pipe_pending) 0 (s.children)

unfoldable pub run_line : (ℕ → Bool) → Bytes → Shell → Option Shell
run_line forks b s = commands forks (stages (length b) b) (clear s)

-- The bytes of "exit\n".
abbrev pub exit : Bytes
exit = 101 ∷ 120 ∷ 105 ∷ 116 ∷ 10 ∷ []

-- `fgets` with room for that many bytes in front of the NUL: it stores them up to a newline, which
-- belongs to them, and leaves the others.
unfoldable pub fgets : ℕ → Bytes → Bytes × Bytes
fgets zero input = ([], input)
fgets (suc room) [] = ([], [])
fgets (suc room) (c ∷ input) =
    let (b, rest) = fgets room input in if c == 10 then (c ∷ [], input) else (c ∷ b, rest)

-- How the loop over the lines ends: at "exit\n", at a `pipe` that fails, at the end of the input (what is
-- done with the array behind it is not modelled), or because the fuel is used up.
pub data Ending : Type 0 where
  exited : Shell → Ending
  failed : Ending
  at_end : Shell → Ending
  unfinished : Ending

abbrev pub room : ℕ
room = 1023

-- The lines typed: the array has COMMAND_LENGTH + 1 bytes, and `fgets` stores one less than
-- COMMAND_LENGTH, so that its length is never COMMAND_LENGTH. The calls of `fork` for a line are numbered
-- from 0.
unfoldable pub session : ℕ → (ℕ → ℕ → Bool) → Bytes → Shell → Ending
session zero forks input s = unfinished
session (suc fuel) forks [] s = at_end s
session (suc fuel) forks (c ∷ input) s =
    let (b, rest) = fgets room (c ∷ input) in
    if str_eq b exit then exited s else elim (run_line (forks 0) b s) [
      | none ↦ failed
      | some t ↦ session fuel (λ n. forks (suc n)) rest t
    ]
