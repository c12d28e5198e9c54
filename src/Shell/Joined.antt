-- ===== src/Shell/Joined.antt =====
-- The processes of a line in SO esempi/5_PIPES-MESSAGES/WINDOWS/shell-with-pipes/shell-pipe.c.
use sistemi_operativi.Prelude.{
  true, false, Bool, inl, inr, ◌⊎◌, dec_lt, ℕ_discrete, ltb, lt→ltb, ◌≤◌, ◌<◌, ℕ, ◌+◌, ◌≡◌, refl,
  ap, ap₂, ◌∙◌, Option, none, some, List, [], ◌∷◌, ◌++◌, append_assoc, append-nil, length, All,
  arith,
}
use sistemi_operativi.Shell.{Bytes}
use sistemi_operativi.Shell.Lines.{IsArg, IsCommand, phrase, line, command-args}
use sistemi_operativi.Shell.Parse.{plan, stages-line}
use sistemi_operativi.Shell.Wires.{File, read_end, write_end}
use sistemi_operativi.Shell.Windows.{
  spaced, but_last, build_command_line, Process, process, Console, console, redirected, piped,
  create, commands, run_line,
}
use sistemi_operativi.Shell.Windows.{maximum_wait_objects, opened, pending_of}
use sistemi_operativi.Shell.{Stage, stage}
use sistemi_operativi.Shell.Pipeline.{bars, all_fork}
use sistemi_operativi.Shell.Session.{line_commands}
use sistemi_operativi.Shell.Leaks.{none_fork}

-- The processes that a line should make, from the file that its first command reads.
abbrev pub joined : File → File → ℕ → List (List Bytes) → List Process
joined o from p [] = []
joined o from p (c ∷ []) = process (phrase c) from o ∷ []
joined o from p (c ∷ d ∷ cs) =
    process (phrase c) from (write_end p) ∷ joined o (read_end p) (p + 1) (d ∷ cs)

but_last-cons :
    (b : ℕ) (w : Bytes) (d : ℕ) (s : Bytes)
    → but_last (b ∷ w ++ (d ∷ s)) ≡ b ∷ but_last (w ++ (d ∷ s))
unfolding but_last
but_last-cons b [] d s = refl
but_last-cons b (c ∷ w) d s = refl

but_last-append : (w : Bytes) (d : ℕ) (s : Bytes) → but_last (w ++ (d ∷ s)) ≡ w ++ but_last (d ∷ s)
but_last-append [] d s = refl
but_last-append (b ∷ w) d s = but_last-cons b w d s ∙ ap (λ l. b ∷ l) (but_last-append w d s)

-- The command line is the command as it was typed.
build_command_line-phrase : (c : List Bytes) → All IsArg c → build_command_line c ≡ phrase c
unfolding spaced but_last
build_command_line-phrase [] a = refl
build_command_line-phrase (w ∷ []) a = but_last-append w 32 [] ∙ append-nil w
build_command_line-phrase (w ∷ [] ∷ ws) a = absurd a.1.0.0
build_command_line-phrase (w ∷ (b ∷ v) ∷ ws) a =
    but_last-append w 32 (spaced ((b ∷ v) ∷ ws))
    ∙ ap (λ l. w ++ (32 ∷ l)) (build_command_line-phrase ((b ∷ v) ∷ ws) a.1)

commands-nil : (creates : ℕ → Bool) (s : Console) → commands creates [] s ≡ some s
unfolding commands
commands-nil creates s = refl

commands-next :
    (c : Stage) (cs : List Stage) (s t : Console)
    → create true c s ≡ some t
    → commands all_fork (c ∷ cs) s ≡ commands all_fork cs t
unfolding commands
commands-next c cs s t q = rw (q, commands) refl

commands-full :
    (c : Stage) (cs : List Stage) (s : Console)
    → s.pending_processes ≡ maximum_wait_objects
    → commands all_fork (c ∷ cs) s ≡ none
unfolding commands create
commands-full c cs s e =
    let full : ltb s.pending_processes maximum_wait_objects ≡ false = ground (arith, e) in
    rw (full, commands) refl

module _ (i o : File) where
  -- The shell when a process of the command has been made.
  abbrev made : Bool → List Bytes → Option ℕ → ℕ → ℕ → List Process → Console
  made b c w p n k =
      console i o (opened b p) (pending_of b p) (n + 1)
        (k ++ (process (phrase c) (redirected w i) (piped b p o) ∷ []))

  create-made :
      (b : Bool) (c : List Bytes) (w : Option ℕ) (p n : ℕ) (k : List Process)
      → IsCommand c
      → n < maximum_wait_objects
      → create true (stage c b) (console i o p w n k) ≡ some (made b c w p n k)
  unfolding create
  create-made b c w p n k a l = rw (lt→ltb n maximum_wait_objects l) (
      ap
        (λ x. some (
          console i o (opened b p) (pending_of b p) (n + 1)
            (k ++ (process x (redirected w i) (piped b p o) ∷ []))))
        (build_command_line-phrase c (command-args c a)))

  joined-commands :
      (cs : List (List Bytes)) (c : List Bytes) (w : Option ℕ) (p n : ℕ) (k : List Process)
      → All IsCommand (c ∷ cs)
      → n + length (c ∷ cs) ≤ maximum_wait_objects
      → commands all_fork (plan (c ∷ cs)) (console i o p w n k)
        ≡ some (
            console i o
              (p + bars (c ∷ cs))
              none
              (n + length (c ∷ cs))
              (k ++ joined o (redirected w i) p (c ∷ cs)))
  joined-commands [] c w p n k a l =
      commands-next (stage c false) [] (console i o p w n k) (made false c w p n k)
        (create-made false c w p n k a.0 (omega (arith, l)))
      ∙ commands-nil all_fork (made false c w p n k)
      ∙ ap
          (λ q.
            some (console i o q none (n + 1) (k ++ (process (phrase c) (redirected w i) o ∷ []))))
          (omega arith)
  joined-commands (d ∷ cs) c w p n k a l =
      let one = process (phrase c) (redirected w i) (write_end p) in
      commands-next (stage c true) (plan (d ∷ cs)) (console i o p w n k) (made true c w p n k)
        (create-made true c w p n k a.0 (omega (arith, l)))
      ∙ joined-commands cs d (some p) (p + 1) (n + 1) (k ++ (one ∷ [])) a.1 (omega (arith, l))
      ∙ ap₂
          (λ q m.
            some
              (console i o q none m ((k ++ (one ∷ [])) ++ joined o (read_end p) (p + 1) (d ∷ cs))))
          (omega arith) (omega arith)
      ∙ ap (λ x. some (console i o (p + bars (c ∷ d ∷ cs)) none (n + length (c ∷ d ∷ cs)) x))
          (append_assoc k (one ∷ []) (joined o (read_end p) (p + 1) (d ∷ cs)))

  -- The handle of a process that is one too many has no place.
  commands-overrun :
      (cs : List (List Bytes)) (c : List Bytes) (w : Option ℕ) (p n : ℕ) (k : List Process)
      → All IsCommand (c ∷ cs)
      → n ≤ maximum_wait_objects
      → maximum_wait_objects < n + length (c ∷ cs)
      → commands all_fork (plan (c ∷ cs)) (console i o p w n k) ≡ none
  commands-overrun [] c w p n k a h l =
      commands-full (stage c false) [] (console i o p w n k) (omega (arith, h, l))
  commands-overrun (d ∷ cs) c w p n k a h l = elim (ℕ_discrete n maximum_wait_objects) [
    | yes e ↦ commands-full (stage c true) (plan (d ∷ cs)) (console i o p w n k) e
    | no e ↦
        commands-next (stage c true) (plan (d ∷ cs)) (console i o p w n k) (made true c w p n k)
          (create-made true c w p n k a.0 (omega (arith, h, e)))
        ∙ commands-overrun cs d (some p) (p + 1) (n + 1)
            (k ++ (process (phrase c) (redirected w i) (write_end p) ∷ [])) a.1
            (omega (arith, h, e)) (omega (arith, l))
  ]

  run_line-commands :
      (c : List Bytes) (cs : List (List Bytes)) (w : Option ℕ) (p n : ℕ) (k : List Process)
      → All IsCommand (c ∷ cs)
      → run_line all_fork (line (c ∷ cs)) (console i o p w n k)
        ≡ commands all_fork (plan (c ∷ cs)) (console i o p w 0 k)
  unfolding run_line
  run_line-commands c cs w p n k a =
      ap (λ l. commands all_fork l (console i o p w 0 k))
        (stages-line (length (line (c ∷ cs))) (c ∷ cs) a (line_commands (c ∷ cs)))

  -- When every call succeeds, a line of at most MAXIMUM_WAIT_OBJECTS commands makes its processes in their
  -- order, each with the command as it was typed, reading what the one before it writes; the first reads
  -- the standard input of the shell, or a pipe that is still pending, and the last writes its standard
  -- output; the standard handles of the shell are as before, and no pipe is pending. A longer line stores
  -- a handle behind `pending_processes_handles`.
  pub line_processes :
      (c : List Bytes) (cs : List (List Bytes)) (w : Option ℕ) (p n : ℕ) (k : List Process)
      → All IsCommand (c ∷ cs)
      → ((length (c ∷ cs) ≤ maximum_wait_objects)
          × (run_line all_fork (line (c ∷ cs)) (console i o p w n k)
              ≡ some (
                  console i o
                    (p + bars (c ∷ cs))
                    none
                    (0 + length (c ∷ cs))
                    (k ++ joined o (redirected w i) p (c ∷ cs)))))
        ⊎ ((maximum_wait_objects < length (c ∷ cs))
            × (run_line all_fork (line (c ∷ cs)) (console i o p w n k) ≡ none))
  line_processes c cs w p n k a = elim (dec_lt maximum_wait_objects (length (c ∷ cs))) [
    | yes l ↦ inr (
      l,
      run_line-commands c cs w p n k a
          ∙ commands-overrun cs c w p 0 k a (omega arith) (omega (arith, l)),
    )
    | no h ↦
        let l : length (c ∷ cs) ≤ maximum_wait_objects = omega (arith, h) in
        inl
          (l, run_line-commands c cs w p n k a ∙ joined-commands cs c w p 0 k a (omega (arith, l)))
  ]

  failed_line :
      (c d : List Bytes) (cs : List (List Bytes)) (p n : ℕ) (k : List Process)
      → All IsCommand (c ∷ d ∷ cs)
      → run_line none_fork (line (c ∷ d ∷ cs)) (console i o p none n k)
        ≡ some (console i o (p + 1) (some p) 0 k)
  unfolding run_line commands create
  failed_line c d cs p n k a =
      ap (λ l. commands none_fork l (console i o p none 0 k))
        (stages-line (length (line (c ∷ d ∷ cs))) (c ∷ d ∷ cs) a (line_commands (c ∷ d ∷ cs)))

  -- When no pipe is pending and the first of two commands or more cannot be created, nothing of the line is started and its pipe
  -- stays pending: when the next line has at most MAXIMUM_WAIT_OBJECTS commands and every call succeeds
  -- for it, its first command reads that pipe.
  pub failed_next :
      (c d : List Bytes) (cs : List (List Bytes)) (e : List Bytes) (es : List (List Bytes))
      (p n : ℕ) (k : List Process)
      → All IsCommand (c ∷ d ∷ cs)
      → All IsCommand (e ∷ es)
      → length (e ∷ es) ≤ maximum_wait_objects
      → (s : Console) × ((run_line none_fork (line (c ∷ d ∷ cs)) (console i o p none n k) ≡ some s)
          × ((s.processes ≡ k)
              × (run_line all_fork (line (e ∷ es)) s
                  ≡ some (
                      console i o
                        (p + 1 + bars (e ∷ es))
                        none
                        (0 + length (e ∷ es))
                        (k ++ joined o (read_end p) (p + 1) (e ∷ es))))))
  failed_next c d cs e es p n k a b l = (
    console i o (p + 1) (some p) 0 k,
    (
      failed_line c d cs p n k a,
      (
        refl,
        run_line-commands e es (some p) (p + 1) 0 k b
            ∙ joined-commands es e (some p) (p + 1) 0 k b (omega (arith, l)),
      ),
    ),
  )
