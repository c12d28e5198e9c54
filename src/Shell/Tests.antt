-- ===== src/Shell/Tests.antt =====
-- The shells at the lines "ls wc | wc", "ls|wc" and "ls|c | ls", and the theorems at them.
use sistemi_operativi.Prelude.{
  ℕ, ◌+◌, ◌≤◌, ◌<◌, ◌≡◌, refl, true, false, none, some, List, [], ◌∷◌, ◌++◌, map, All, arith, ◌⊎◌,
  ◌*◌,
}
use sistemi_operativi.Prelude.Text.{str_eq}
use sistemi_operativi.Shell.{
  bar, Bytes, string_at, split, cut, first_bar, to_bar, next_command, count_tokens, count_args,
  stage, stages,
}
use sistemi_operativi.Shell.Words.{IsLetter}
use sistemi_operativi.Shell.Lines.{IsArg, IsCommand, line}
use sistemi_operativi.Shell.Glued.{glued_line}
use sistemi_operativi.Shell.Wires.{
  File, outside, read_end, write_end, Child, Shell, shell, run_line, session, exited, exit,
}
use sistemi_operativi.Shell.Pipeline.{view, seen, files, all_fork, bars, idle, at, Pipeline}
use sistemi_operativi.Shell.Session.{session-pipelines, pipelines, typed}
use sistemi_operativi.Shell.Leaks.{none_fork, Leaked, free, fork_leaks}
use sistemi_operativi.Shell.Windows.{maximum_wait_objects, Console, console}
use sistemi_operativi.Shell.Windows
use sistemi_operativi.Shell.Joined.{joined, line_processes, failed_next}
use sistemi_operativi.Shell.Stale.{glued_next}

letter : (c : ℕ) → 32 < c → IsLetter c
letter c l = (
  λ e. absurd (omega (arith, l, e)),
  (λ e. absurd (omega (arith, l, e)), λ e. absurd (omega (arith, l, e))),
)

abbrev ls : Bytes
ls = 108 ∷ 115 ∷ []

abbrev wc : Bytes
wc = 119 ∷ 99 ∷ []

ls-IsArg : IsArg ls
ls-IsArg = (
  (letter 108 (omega arith), (letter 115 (omega arith), tt)),
  (λ e. absurd (omega (arith, e)), (λ e. absurd (omega (arith, e)), tt)),
)

wc-IsArg : IsArg wc
wc-IsArg = (
  (letter 119 (omega arith), (letter 99 (omega arith), tt)),
  (λ e. absurd (omega (arith, e)), (λ e. absurd (omega (arith, e)), tt)),
)

c-IsArg : IsArg (99 ∷ [])
c-IsArg = ((letter 99 (omega arith), tt), (λ e. absurd (omega (arith, e)), tt))

-- "ls wc | wc".
abbrev two : List (List Bytes)
two = (ls ∷ wc ∷ []) ∷ (wc ∷ []) ∷ []

two-IsCommand : All IsCommand two
two-IsCommand = ((ls-IsArg, (wc-IsArg, tt)), ((wc-IsArg, tt), tt))

abbrev one : List (List Bytes)
one = (ls ∷ []) ∷ []

one-IsCommand : All IsCommand one
one-IsCommand = ((ls-IsArg, tt), tt)

two-stages : stages 2 (line two) ≡ stage (ls ∷ wc ∷ []) true ∷ stage (wc ∷ []) false ∷ []
unfolding stages string_at split cut first_bar to_bar next_command count_tokens count_args str_eq
two-stages = refl

-- "ls|wc" is one command.
bar_inside : stages 2 (ls ++ (bar ∷ wc) ++ (10 ∷ [])) ≡ stage ((ls ++ (bar ∷ wc)) ∷ []) false ∷ []
unfolding stages string_at split cut first_bar to_bar next_command count_tokens count_args str_eq
bar_inside = refl

abbrev terminal : ℕ → File
terminal = outside

abbrev started : List Child → Shell
started k = at (terminal 0) (terminal 1) (terminal 2) (none ∷ []) idle 0 0 k

-- Two descriptors are free.
abbrev small : Shell
small =
    shell (some (terminal 0) ∷ some (terminal 1) ∷ some (terminal 2) ∷ none ∷ none ∷ []) 0 none 0 []

two-exit : str_eq (line two) exit ≡ false
unfolding str_eq
two-exit = refl

one-exit : str_eq (line one) exit ≡ false
unfolding str_eq
one-exit = refl

session-pipelines_example :
    (q : ℕ) × ((m : ℕ) × ((kids : List Child) × ((session 3
              (λ l. all_fork)
              (typed (two ∷ one ∷ []) (line one))
              (started [])
            ≡ exited (at (terminal 0) (terminal 1) (terminal 2) (none ∷ []) idle q m kids))
          × (map seen kids
              ≡ pipelines (terminal 0) (terminal 1) (terminal 2) (none ∷ []) 0 (two ∷ one ∷ [])))))
session-pipelines_example =
    session-pipelines (terminal 0) (terminal 1) (terminal 2) (none ∷ []) 3 (two ∷ one ∷ [])
      (line one) 0 0 [] (two-IsCommand, (one-IsCommand, tt)) (omega arith, (omega arith, tt))
      (two-exit, (one-exit, tt)) (omega arith)

fork_leaks_example :
    ((2 * bars two ≤ 2) × Leaked (run_line none_fork (line two) small) small 1)
    ⊎ ((2 < 2 * bars two) × (run_line none_fork (line two) small ≡ none))
unfolding free
fork_leaks_example = fork_leaks two small two-IsCommand

glued_next_example :
    (s : Shell) × ((u : Child) × ((run_line all_fork (glued_line ls (99 ∷ []) one) (started [])
          ≡ some s)
        × ((seen u
              ≡ view
                  ((ls ++ (bar ∷ 99 ∷ [])) ∷ [])
                  (some (terminal 0))
                  (some (write_end 0))
                  (read_end 0 ∷ files (none ∷ [])))
            × Pipeline
                (terminal 0)
                (terminal 1)
                (terminal 2)
                (none ∷ [])
                (run_line all_fork (line one) s)
                (read_end 0)
                (0 + 1)
                0
                (u ∷ [])
                one)))
glued_next_example =
    glued_next (terminal 0) (terminal 1) (terminal 2) (none ∷ []) ls 99 (ls ∷ []) [] (ls ∷ []) [] 0
      0 [] ls-IsArg c-IsArg one-IsCommand one-IsCommand

-- The shell of Windows.
abbrev console_0 : Console
console_0 = console (terminal 0) (terminal 1) 0 none 0 []

line_processes_example :
    ((2 ≤ maximum_wait_objects)
      × (Windows.run_line all_fork (line two) console_0
          ≡ some (
              console
                (terminal 0)
                (terminal 1)
                (0 + bars two)
                none
                (0 + 2)
                (joined (terminal 1) (terminal 0) 0 two))))
    ⊎ ((maximum_wait_objects < 2) × (Windows.run_line all_fork (line two) console_0 ≡ none))
line_processes_example =
    line_processes (terminal 0) (terminal 1) (ls ∷ wc ∷ []) ((wc ∷ []) ∷ []) none 0 0 []
      two-IsCommand

failed_next_example :
    (s : Console) × ((Windows.run_line none_fork (line two) console_0 ≡ some s)
      × ((s.processes ≡ [])
          × (Windows.run_line all_fork (line one) s
              ≡ some (
                  console
                    (terminal 0)
                    (terminal 1)
                    (0 + 1 + bars one)
                    none
                    (0 + 1)
                    (joined (terminal 1) (read_end 0) (0 + 1) one)))))
failed_next_example =
    failed_next (terminal 0) (terminal 1) (ls ∷ wc ∷ []) (wc ∷ []) [] (ls ∷ []) [] 0 0 []
      two-IsCommand one-IsCommand (omega arith)
