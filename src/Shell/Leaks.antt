-- ===== src/Shell/Leaks.antt =====
-- Lines of Tutoraggio 8/esempio2(shell-pipe)(UNIX).c for which `fork` fails.
use sistemi_operativi.Prelude.{
  ℕ, suc, ◌+◌, ◌*◌, ◌≤◌, ◌<◌, ◌≡◌, refl, ap, ◌∙◌, Bool, true, false, Option, none, some, List, [],
  ◌∷◌, length, All, arith, dec_lt, ◌⊎◌, inl, inr,
}
use sistemi_operativi.Shell.{Bytes, Stage, stage}
use sistemi_operativi.Shell.Lines.{IsCommand, line}
use sistemi_operativi.Shell.Parse.{plan, stages-line}
use sistemi_operativi.Shell.Wires.{
  File, read_end, write_end, Table, put, pipe, Shell, shell, fork, command, commands, run_line,
}
use sistemi_operativi.Shell.Pipeline.{bars, commands-cons}
use sistemi_operativi.Shell.Session.{line_commands}

-- The free descriptors.
unfoldable pub free : Table → ℕ
free [] = 0
free (none ∷ t) = suc (free t)
free (some f ∷ t) = free t

put-free :
    (f : File) (t : Table)
    → 0 < free t
    → (n : ℕ) × ((u : Table) × ((put f t ≡ some (n, u)) × (suc (free u) ≡ free t)))
unfolding put free
put-free f [] l = absurd (omega (arith, l))
put-free f (none ∷ t) l = (0, (some f ∷ t, (refl, refl)))
put-free f (some g ∷ t) l =
    let (n, (u, (q, e))) = put-free f t l in (suc n, (some g ∷ u, (rw (q) refl, e)))

put_full : (f : File) (t : Table) → free t ≡ 0 → put f t ≡ none
unfolding put free
put_full f [] e = refl
put_full f (none ∷ t) e = absurd (omega (arith, e))
put_full f (some g ∷ t) e = rw (put_full f t e) refl

-- A pipe takes two free descriptors.
pipe-free :
    (p : ℕ) (t : Table)
    → 2 ≤ free t
    → (x : ℕ × ℕ) × ((u : Table) × ((pipe p t ≡ some (x, u)) × (free u + 2 ≡ free t)))
unfolding pipe
pipe-free p t l =
    let (r, (u, (q, e))) = put-free (read_end p) t (omega (arith, l)) in
    let (w, (v, (q', e'))) = put-free (write_end p) u (omega (arith, l, e)) in
    ((r, w), (v, (rw (q, q') refl, omega (arith, e, e'))))

pipe_full : (p : ℕ) (t : Table) → free t < 2 → pipe p t ≡ none
unfolding pipe
pipe_full p t l = elim (dec_lt 0 (free t)) [
  | yes h ↦
      let (r, (u, (q, e))) = put-free (read_end p) t h in
      rw (q, put_full (write_end p) u (omega (arith, l, e))) refl
  | no h ↦ rw (put_full (read_end p) t (omega (arith, h))) refl
]

abbrev pub none_fork : ℕ → Bool
none_fork n = false

-- The shell behind the line has 2 descriptors less for each bar, no process and no pipe pending.
abbrev pub Leaked : Option Shell → Shell → ℕ → Type 0
Leaked r s b =
    (u : Table) × ((r ≡ some (shell u (s.pipes + b) s.pipe_pending s.pending_processes s.children))
      × (free u + 2 * b ≡ free s.table))

commands_leak :
    (cs : List (List Bytes)) (s : Shell)
    → 2 * bars cs ≤ free s.table
    → Leaked (commands none_fork (plan cs) s) s (bars cs)
unfolding commands command fork
commands_leak [] s l = (
  s.table,
  (
    ap (λ p. some (shell s.table p s.pipe_pending s.pending_processes s.children)) (omega arith),
    omega arith,
  ),
)
commands_leak (c ∷ []) s l = (
  s.table,
  (
    ap (λ p. some (shell s.table p s.pipe_pending s.pending_processes s.children)) (omega arith),
    omega arith,
  ),
)
commands_leak (c ∷ d ∷ cs) s l =
    let (x, (u, (q, e))) = pipe-free s.pipes s.table (omega (arith, l)) in
    let s' = shell u (s.pipes + 1) s.pipe_pending s.pending_processes s.children in
    let (v, (h, e')) = commands_leak (d ∷ cs) s' (omega (arith, l, e)) in
    (
      v,
      (
        commands-cons none_fork (stage c true) (plan (d ∷ cs)) s s' (rw (q) refl)
            ∙ h
            ∙ ap (λ p. some (shell v p s.pipe_pending s.pending_processes s.children))
                (omega arith),
        omega (arith, e, e'),
      ),
    )

commands_stop :
    (forks : ℕ → Bool) (c : Stage) (cs : List Stage) (s : Shell)
    → command (forks 0) c s ≡ none
    → commands forks (c ∷ cs) s ≡ none
unfolding commands
commands_stop forks c cs s q = rw (q, commands) refl

commands_end :
    (cs : List (List Bytes)) (s : Shell)
    → free s.table < 2 * bars cs
    → commands none_fork (plan cs) s ≡ none
unfolding commands command fork
commands_end [] s l = absurd (omega (arith, l))
commands_end (c ∷ []) s l = absurd (omega (arith, l))
commands_end (c ∷ d ∷ cs) s l = elim (dec_lt (free s.table) 2) [
  | yes h ↦
      commands_stop none_fork (stage c true) (plan (d ∷ cs)) s
        (rw (pipe_full s.pipes s.table h) refl)
  | no h ↦
      let (x, (u, (q, e))) = pipe-free s.pipes s.table (omega (arith, h)) in
      let s' = shell u (s.pipes + 1) s.pipe_pending s.pending_processes s.children in
      commands-cons none_fork (stage c true) (plan (d ∷ cs)) s s' (rw (q) refl)
      ∙ commands_end (d ∷ cs) s' (omega (arith, l, e))
]

-- When `fork` fails for all commands of a line, nothing is started and both ends of the pipe of every bar
-- stay open: with enough free descriptors the shell has two less for each bar behind the line, and
-- otherwise `pipe` fails and the shell ends.
pub fork_leaks :
    (cs : List (List Bytes)) (s : Shell)
    → All IsCommand cs
    → ((2 * bars cs ≤ free s.table)
        × Leaked
            (run_line none_fork (line cs) s)
            (shell s.table s.pipes s.pipe_pending 0 s.children)
            (bars cs))
      ⊎ ((free s.table < 2 * bars cs) × (run_line none_fork (line cs) s ≡ none))
unfolding run_line
fork_leaks cs s a =
    let e = stages-line (length (line cs)) cs a (line_commands cs) in
    let s' = shell s.table s.pipes s.pipe_pending 0 s.children in
    elim (dec_lt (free s.table) (2 * bars cs)) [
      | yes l ↦ inr (l, ap (λ x. commands none_fork x s') e ∙ commands_end cs s' l)
      | no h ↦
          let l : 2 * bars cs ≤ free s.table = omega (arith, h) in
          let (u, (q, f)) = commands_leak cs s' l in
          inl (l, (u, (ap (λ x. commands none_fork x s') e ∙ q, f)))
    ]
