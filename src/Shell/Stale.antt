-- ===== src/Shell/Stale.antt =====
-- A pipe that is left pending behind a line of Tutoraggio 8/esempio2(shell-pipe)(UNIX).c.
use sistemi_operativi.Prelude.{
  ℕ, suc, ◌+◌, ◌-◌, ◌≡◌, refl, ap, ap₂, ◌∙◌, Bool, true, some, List, [], ◌∷◌, ◌++◌, length,
  length-append, map, All, arith,
}
use sistemi_operativi.Shell.{bar, Bytes, stage, stages}
use sistemi_operativi.Shell.Lines.{IsArg, IsCommand, line}
use sistemi_operativi.Shell.Glued.{glued_line, stages_glued}
use sistemi_operativi.Shell.Wires.{
  File, read_end, write_end, Table, Child, child, Shell, commands, run_line,
}
use sistemi_operativi.Shell.Pipeline.{
  view, wired, seen, files, all_fork, Pending, idle, at, source, Pipeline, piped_command,
  commands-cons, commands-plan,
}
use sistemi_operativi.Shell.Session.{clear-at, run_line-commands}

commands-nil : (forks : ℕ → Bool) (s : Shell) → commands forks [] s ≡ some s
unfolding commands
commands-nil forks s = refl

module _ (i o e : File) (t : Table) where
  -- What a pending pipe makes of a line.
  pending-Pipeline :
      (w : Pending) (c : List Bytes) (cs : List (List Bytes)) (p n : ℕ) (k : List Child)
      → All IsCommand (c ∷ cs)
      → Pipeline i o e t
          (run_line all_fork (line (c ∷ cs)) (at i o e t w p n k))
          (source i o e t w)
          p
          0
          k
          (c ∷ cs)
  pending-Pipeline w c cs p n k a =
      let (kids, (q, v)) = commands-plan i o e t w p 0 k c cs in
      (kids, (run_line-commands i o e t w (c ∷ cs) p n k a ∙ q, v))

  glued_run :
      (w : Bytes) (b : ℕ) (c : List Bytes) (cs : List (List Bytes)) (p n : ℕ) (k : List Child)
      → IsArg w
      → IsArg (b ∷ [])
      → All IsCommand (c ∷ cs)
      → run_line all_fork (glued_line w (b ∷ []) (c ∷ cs)) (at i o e t idle p n k)
        ≡ commands all_fork (stage ((w ++ (bar ∷ b ∷ [])) ∷ []) true ∷ []) (at i o e t idle p 0 k)
  unfolding run_line
  glued_run w b c cs p n k a a' h =
      let l = glued_line w (b ∷ []) (c ∷ cs) in
      let m = length l in
      let fuel : m ≡ suc (suc (m - 2)) =
        omega (arith, length-append (w ++ (bar ∷ b ∷ [])) (32 ∷ bar ∷ 32 ∷ line (c ∷ cs))) in
      ap₂ (commands all_fork)
        (ap (λ f. stages f l) fuel ∙ stages_glued w (b ∷ []) c cs a a' h (m - 2))
        (clear-at i o e t idle p n k)

  -- When all forks succeed and the descriptors 3 to 5 are free: a line whose first command is one word that
  -- ends in a bar and one byte, with a bar between spaces and commands behind it, starts only that command,
  -- which writes a pipe; the first command of the next line reads that pipe instead of the shell's standard
  -- input.
  pub glued_next :
      (w : Bytes) (b : ℕ) (c : List Bytes) (cs : List (List Bytes)) (d : List Bytes)
      (ds : List (List Bytes))
      → (p n : ℕ) (k : List Child) → IsArg w
      → IsArg (b ∷ [])
      → All IsCommand (c ∷ cs)
      → All IsCommand (d ∷ ds)
      → (s : Shell) × ((u : Child) × ((run_line all_fork
                (glued_line w (b ∷ []) (c ∷ cs))
                (at i o e t idle p n k)
              ≡ some s)
            × ((seen u
                  ≡ view
                      ((w ++ (bar ∷ b ∷ [])) ∷ [])
                      (some i)
                      (some (write_end p))
                      (read_end p ∷ files t))
                × Pipeline i o e t
                    (run_line all_fork (line (d ∷ ds)) s)
                    (read_end p)
                    (p + 1)
                    0
                    (k ++ (u ∷ []))
                    (d ∷ ds))))
  unfolding source
  glued_next w b c cs d ds p n k a a' h h' =
      let g = w ++ (bar ∷ b ∷ []) in
      let (u, (x, (q, (v, r)))) = piped_command i o e t idle p 0 k (g ∷ []) in
      let kids = k ++ (child (g ∷ []) u ∷ []) in
      let (all, (q', v')) = pending-Pipeline x d ds (p + 1) (0 + 1) kids h' in
      (
        at i o e t x (p + 1) (0 + 1) kids,
        (
          child (g ∷ []) u,
          (
            glued_run w b c cs p n k a a' h
                ∙ commands-cons all_fork (stage (g ∷ []) true) [] (at i o e t idle p 0 k)
                    (at i o e t x (p + 1) (0 + 1) kids) q
                ∙ commands-nil all_fork (at i o e t x (p + 1) (0 + 1) kids),
            (
              v,
              (all, (q', v' ∙ ap (λ f. map seen kids ++ wired o (files t) f (p + 1) (d ∷ ds)) r)),
            ),
          ),
        ),
      )
