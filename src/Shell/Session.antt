-- ===== src/Shell/Session.antt =====
-- The lines typed in Tutoraggio 8/esempio2(shell-pipe)(UNIX).c, with every pipe and process of theirs.
use sistemi_operativi.Prelude.{
  ==_ne, All-append, ◌<◌, ◌≢◌, zero, ℕ, suc, ◌+◌, ◌≤◌, ◌≡◌, refl, sym, ap, ap₂, ◌∙◌, Bool, false,
  some, List, [], ◌∷◌, ◌++◌, append_assoc, append-nil, length, length-append, map, All, arith,
}
use sistemi_operativi.Prelude.Text.{str_eq}
use sistemi_operativi.Shell.{bar, Bytes}
use sistemi_operativi.Shell.Lines.{
  IsArg, word-All, phrase-All, command-args, IsCommand, phrase, line,
}
use sistemi_operativi.Shell.Parse.{plan, stages-line}
use sistemi_operativi.Shell.Wires.{
  File, Table, Child, Shell, commands, run_line, clear, fgets, room, exited, session, exit,
}
use sistemi_operativi.Shell.Pipeline.{
  View, seen, files, wired, bars, all_fork, Pending, idle, third, fourth, at, source, Pipeline,
  commands-plan,
}

pub line_commands : (cs : List (List Bytes)) → length cs ≤ length (line cs)
line_commands [] = omega arith
line_commands (c ∷ []) = omega (arith, length-append (phrase c) (10 ∷ []))
line_commands (c ∷ d ∷ cs) =
    omega (arith, length-append (phrase c) (32 ∷ 124 ∷ 32 ∷ line (d ∷ cs)), line_commands (d ∷ cs))

-- A line is taken whole when there is room for it.
fgets-append :
    (body rest : Bytes) (k : ℕ)
    → All (λ c. c ≢ 10) body
    → length body < k
    → fgets k (body ++ (10 ∷ rest)) ≡ (body ++ (10 ∷ []), rest)
unfolding fgets
fgets-append body rest zero a l = absurd (omega (arith, l))
fgets-append [] rest (suc k) a l = refl
fgets-append (c ∷ body) rest (suc k) a l =
    rw (==_ne c 10 a.0, fgets-append body rest k a.1 (omega (arith, l))) refl

args-no_newline : (c : List Bytes) → All IsArg c → All (All (λ k. k ≢ 10)) c
args-no_newline [] a = tt
args-no_newline (w ∷ ws) a = (word-All (λ k. k ≢ 10) w (λ k l. l.1.0) a.0.0, args-no_newline ws a.1)

phrase-no_newline : (c : List Bytes) → IsCommand c → All (λ k. k ≢ 10) (phrase c)
phrase-no_newline c a =
    phrase-All (λ k. k ≢ 10) c (λ e. absurd (omega (arith, e)))
      (args-no_newline c (command-args c a))

line-body :
    (cs : List (List Bytes))
    → All IsCommand cs
    → (body : Bytes) × ((line cs ≡ body ++ (10 ∷ [])) × All (λ k. k ≢ 10) body)
line-body [] a = ([], (refl, tt))
line-body (c ∷ []) a = (phrase c, (refl, phrase-no_newline c a.0))
line-body (c ∷ d ∷ cs) a =
    let (body, (e, b)) = line-body (d ∷ cs) a.1 in
    (
      phrase c ++ (32 ∷ bar ∷ 32 ∷ body),
      (
        ap (λ l. phrase c ++ (32 ∷ bar ∷ 32 ∷ l)) e
            ∙ sym (append_assoc (phrase c) (32 ∷ bar ∷ 32 ∷ body) (10 ∷ [])),
        All-append (λ k. k ≢ 10) (phrase c) (32 ∷ bar ∷ 32 ∷ body) (phrase-no_newline c a.0)
            (
              (λ z. absurd (omega (arith, z))),
              ((λ z. absurd (omega (arith, z))), ((λ z. absurd (omega (arith, z))), b)),
            ),
      ),
    )

fgets-line :
    (cs : List (List Bytes)) (rest : Bytes)
    → All IsCommand cs
    → length (line cs) ≤ room
    → fgets room (line cs ++ rest) ≡ (line cs, rest)
fgets-line cs rest a l =
    let (body, (e, b)) = line-body cs a in
    ap (λ x. fgets room (x ++ rest)) e
    ∙ ap (fgets room) (append_assoc body (10 ∷ []) rest)
    ∙ fgets-append body rest room b (omega (arith, l, ap length e, length-append body (10 ∷ [])))
    ∙ ap (λ x. (x, rest)) (sym e)

session-line :
    (fuel : ℕ) (forks : ℕ → ℕ → Bool) (input b rest : Bytes) (s t : Shell)
    → 0 < length input
    → fgets room input ≡ (b, rest)
    → str_eq b exit ≡ false
    → run_line (forks 0) b s ≡ some t
    → session (suc fuel) forks input s ≡ session fuel (λ n. forks (suc n)) rest t
unfolding session
session-line fuel forks [] b rest s t z g x q = absurd (omega (arith, z))
session-line fuel forks (c ∷ input) b rest s t z g x q =
    let first : str_eq (fgets room (c ∷ input)).0 exit ≡ false = ap (λ y. str_eq y.0 exit) g ∙ x in
    let runs : run_line (forks 0) (fgets room (c ∷ input)).0 s ≡ some t =
      ap (λ y. run_line (forks 0) y.0 s) g ∙ q in
    rw (first, runs, session) (ap (λ y. session fuel (λ n. forks (suc n)) y.1 t) g)

session-exit :
    (fuel : ℕ) (forks : ℕ → ℕ → Bool) (rest : Bytes) (s : Shell)
    → session (suc fuel) forks (exit ++ rest) s ≡ exited s
unfolding session fgets str_eq
session-exit fuel forks rest s = refl

-- Lines of commands, "exit\n", and more.
abbrev pub typed : List (List (List Bytes)) → Bytes → Bytes
typed [] rest = exit ++ rest
typed (cs ∷ css) rest = line cs ++ typed css rest

module _ (i o e : File) (t : Table) where
  -- The processes of the line before are counted no longer.
  pub clear-at :
      (w : Pending) (p n : ℕ) (k : List Child) → clear (at i o e t w p n k) ≡ at i o e t w p 0 k
  unfolding at
  clear-at idle p n k = refl
  clear-at (third q) p n k = refl
  clear-at (fourth q) p n k = refl

  pub run_line-commands :
      (w : Pending) (cs : List (List Bytes)) (p n : ℕ) (k : List Child)
      → All IsCommand cs
      → run_line all_fork (line cs) (at i o e t w p n k)
        ≡ commands all_fork (plan cs) (at i o e t w p 0 k)
  unfolding run_line
  run_line-commands w cs p n k a =
      ap₂ (commands all_fork) (stages-line (length (line cs)) cs a (line_commands cs))
        (clear-at w p n k)

  -- With three descriptors free behind the standard ones and no call failing, a line of commands makes the
  -- pipeline: each command is started once, in the order of the line and with its arguments; the first
  -- reads the shell's standard input and the last writes its standard output, each of the others reads
  -- the pipe that the one before it writes, and has besides the shell's other files only the read end of
  -- its own pipe open. The shell then has its descriptors as before, no pipe pending, and waits for as
  -- many processes as there are commands.
  line-Pipeline :
      (cs : List (List Bytes)) (p n : ℕ) (k : List Child)
      → All IsCommand cs
      → Pipeline i o e t (run_line all_fork (line cs) (at i o e t idle p n k)) i p 0 k cs
  unfolding commands source
  line-Pipeline [] p n k a = (
    k,
    (
      run_line-commands idle [] p n k a ∙ ap (λ x. some (at i o e t idle x 0 k)) (omega arith),
      sym (append-nil (map seen k)),
    ),
  )
  line-Pipeline (c ∷ cs) p n k a =
      let (kids, (q, v)) = commands-plan i o e t idle p 0 k c cs in
      (kids, (run_line-commands idle (c ∷ cs) p n k a ∙ q, v))

  -- What the lines should start.
  abbrev pub pipelines : ℕ → List (List (List Bytes)) → List View
  pipelines p [] = []
  pipelines p (cs ∷ css) = wired o (files t) i p cs ++ pipelines (p + bars cs) css

  -- When no call fails, the three descriptors behind the standard ones are free and each line fits into the
  -- 1023 bytes of a call of `fgets`, lines of commands up to "exit\n" make their pipelines one behind the
  -- other, each with pipes of its own; what is typed behind "exit\n" starts nothing, and the shell has its
  -- descriptors as at the start and no pipe pending. Fuel for one more line than there are is enough.
  pub session-pipelines :
      (fuel : ℕ) (css : List (List (List Bytes))) (rest : Bytes) (p n : ℕ) (k : List Child)
      → All (All IsCommand) css
      → All (λ cs. length (line cs) ≤ room) css
      → All (λ cs. str_eq (line cs) exit ≡ false) css
      → length css < fuel
      → (q : ℕ) × ((m : ℕ) × ((kids : List Child) × ((session fuel
                  (λ l. all_fork)
                  (typed css rest)
                  (at i o e t idle p n k)
                ≡ exited (at i o e t idle q m kids))
              × (map seen kids ≡ map seen k ++ pipelines p css))))
  session-pipelines zero css rest p n k a f x l = absurd (omega (arith, l))
  session-pipelines (suc fuel) [] rest p n k a f x l = (
    p,
    (
      n,
      (
        k,
        (
          session-exit fuel (λ l. all_fork) rest (at i o e t idle p n k),
          sym (append-nil (map seen k)),
        ),
      ),
    ),
  )
  session-pipelines (suc fuel) (cs ∷ css) rest p n k a f x l =
      let (kids, (h, v)) = line-Pipeline cs p n k a.0 in
      let (q, (m, (kids', (h', v')))) =
        session-pipelines fuel css rest (p + bars cs) (0 + length cs) kids a.1 f.1 x.1
          (omega (arith, l)) in
      let some_byte : 0 < length (typed (cs ∷ css) rest) =
        let (body, (e, b)) = line-body cs a.0 in
        omega (
          arith,
          length-append (line cs) (typed css rest),
          ap length e,
          length-append body (10 ∷ []),
        ) in
      (
        q,
        (
          m,
          (
            kids',
            (
              session-line fuel (λ l. all_fork) (typed (cs ∷ css) rest) (line cs) (typed css rest)
                    (at i o e t idle p n k) (at i o e t idle (p + bars cs) (0 + length cs) kids)
                    some_byte (fgets-line cs (typed css rest) a.0 f.0) x.0 h
                  ∙ h',
              v'
                  ∙ ap (λ w. w ++ pipelines (p + bars cs) css) v
                  ∙ append_assoc (map seen k) (wired o (files t) i p cs)
                      (pipelines (p + bars cs) css),
            ),
          ),
        ),
      )
