-- ===== src/Shell/Pipeline.antt =====
-- The processes of a line in Tutoraggio 8/esempio2(shell-pipe)(UNIX).c, from the bytes to the pipes.
use sistemi_operativi.Prelude.{
  ℕ, suc, ◌+◌, ◌≡◌, refl, ap, ap₂, ◌∙◌, Bool, true, false, Option, none, some, List, [], ◌∷◌, ◌++◌,
  append_assoc, length, map, arith,
}
use mathlib.Core.List.{map-append}
use sistemi_operativi.Shell.{Bytes, Stage, stage}
use sistemi_operativi.Shell.Parse.{plan}
use sistemi_operativi.Shell.Wires.{
  File, read_end, write_end, Table, file, close, put, dup, pipe, Child, child, Shell, shell, fork,
  command, commands,
}

-- A child as its program finds it: its arguments, its standard input and output, and the files open
-- behind its standard descriptors.
pub record View : Type 0 where
  pub arguments : List Bytes
  pub input : Option File
  pub output : Option File
  pub others : List File

abbrev pub view : List Bytes → Option File → Option File → List File → View
view a i o others = record { arguments = a; input = i; output = o; others = others }

unfoldable pub files : Table → List File
files [] = []
files (none ∷ t) = files t
files (some f ∷ t) = f ∷ files t

abbrev behind_standard : Table → Table
behind_standard (i ∷ o ∷ e ∷ t) = t
behind_standard t = []

unfoldable pub seen : Child → View
seen c =
    view (c.arg) (file (c.descriptors) 0) (file (c.descriptors) 1)
      (files (behind_standard (c.descriptors)))

-- The pipeline a line should make, from the file that its first command reads, where `o` is the standard
-- output and `r` are the other files open.
abbrev pub wired : File → List File → File → ℕ → List (List Bytes) → List View
wired o r from p [] = []
wired o r from p (c ∷ []) = view c (some from) (some o) r ∷ []
wired o r from p (c ∷ d ∷ cs) =
    view c (some from) (some (write_end p)) (read_end p ∷ r)
    ∷ wired o r (read_end p) (p + 1) (d ∷ cs)

-- The pipes of a line: one less than its commands.
abbrev pub bars : List (List Bytes) → ℕ
bars [] = 0
bars (c ∷ []) = 0
bars (c ∷ d ∷ cs) = suc (bars (d ∷ cs))

abbrev pub all_fork : ℕ → Bool
all_fork n = true

-- What may be pending while a line is run: nothing, or the read end of a pipe as descriptor 3 or 4.
pub data Pending : Type 0 where
  idle : Pending
  third : ℕ → Pending
  fourth : ℕ → Pending

pub commands-cons :
    (forks : ℕ → Bool) (c : Stage) (cs : List Stage) (s t : Shell)
    → command (forks 0) c s ≡ some t
    → commands forks (c ∷ cs) s ≡ commands (λ n. forks (suc n)) cs t
unfolding commands
commands-cons forks c cs s t q = rw (q, commands) refl

module _ (i o e : File) (t : Table) where
  abbrev pub ready : Option File → Option File → Table
  ready x y = some i ∷ some o ∷ some e ∷ x ∷ y ∷ none ∷ t

  unfoldable pub at : Pending → ℕ → ℕ → List Child → Shell
  at idle p n k = shell (ready none none) p none n k
  at (third q) p n k = shell (ready (some (read_end q)) none) p (some 3) n k
  at (fourth q) p n k = shell (ready none (some (read_end q))) p (some 4) n k

  -- The file that the next command reads.
  unfoldable pub source : Pending → File
  source idle = i
  source (third q) = read_end q
  source (fourth q) = read_end q

  last_command :
      (w : Pending) (p n : ℕ) (k : List Child) (c : List Bytes)
      → (u : Table) × ((command true (stage c false) (at w p n k)
            ≡ some (at idle p (n + 1) (k ++ (child c u ∷ []))))
          × (seen (child c u) ≡ view c (some (source w)) (some o) (files t)))
  unfolding command fork pipe put close dup file seen files at source
  last_command idle p n k c = (ready none none, (refl, refl))
  last_command (third q) p n k c =
      (some (read_end q) ∷ some o ∷ some e ∷ none ∷ none ∷ none ∷ t, (refl, refl))
  last_command (fourth q) p n k c =
      (some (read_end q) ∷ some o ∷ some e ∷ none ∷ none ∷ none ∷ t, (refl, refl))

  -- The child of a command with another one behind it, and the pipe that the next one reads.
  pub piped_command :
      (w : Pending) (p n : ℕ) (k : List Child) (c : List Bytes)
      → (u : Table) × ((v : Pending) × ((command true (stage c true) (at w p n k)
              ≡ some (at v (p + 1) (n + 1) (k ++ (child c u ∷ []))))
            × ((seen (child c u)
                  ≡ view c (some (source w)) (some (write_end p)) (read_end p ∷ files t))
                × (source v ≡ read_end p))))
  unfolding command fork pipe put close dup file seen files at source
  piped_command idle p n k c = (
    some i ∷ some (write_end p) ∷ some e ∷ some (read_end p) ∷ none ∷ none ∷ t,
    (third p, (refl, (refl, refl))),
  )
  piped_command (third q) p n k c = (
    some (read_end q) ∷ some (write_end p) ∷ some e ∷ none ∷ some (read_end p) ∷ none ∷ t,
    (fourth p, (refl, (refl, refl))),
  )
  piped_command (fourth q) p n k c = (
    some (read_end q) ∷ some (write_end p) ∷ some e ∷ some (read_end p) ∷ none ∷ none ∷ t,
    (third p, (refl, (refl, refl))),
  )

  -- The commands `cs` make the pipeline that reads `from`, and leave the descriptors as before, with no
  -- pipe pending, and the processes counted.
  abbrev pub Pipeline : Option Shell → File → ℕ → ℕ → List Child → List (List Bytes) → Type 0
  Pipeline s from p n k cs =
      (kids : List Child) × ((s ≡ some (at idle (p + bars cs) (n + length cs) kids))
        × (map seen kids ≡ map seen k ++ wired o (files t) from p cs))

  last_of :
      (p m : ℕ) (k : List Child) → commands all_fork [] (at idle p m k) ≡ some (at idle (p + 0) m k)
  unfolding commands
  last_of p m k = ap (λ x. some (at idle x m k)) (omega arith)

  pub commands-plan :
      (w : Pending) (p n : ℕ) (k : List Child) (c : List Bytes) (cs : List (List Bytes))
      → Pipeline (commands all_fork (plan (c ∷ cs)) (at w p n k)) (source w) p n k (c ∷ cs)
  commands-plan w p n k c [] =
      let (u, (q, v)) = last_command w p n k c in
      (
        k ++ (child c u ∷ []),
        (
          commands-cons all_fork (stage c false) [] (at w p n k)
                (at idle p (n + 1) (k ++ (child c u ∷ []))) q
              ∙ last_of p (n + 1) (k ++ (child c u ∷ [])),
          map-append seen k (child c u ∷ []) ∙ ap (λ x. map seen k ++ (x ∷ [])) v,
        ),
      )
  commands-plan w p n k c (d ∷ cs) =
      let (u, (x, (q, (v, r)))) = piped_command w p n k c in
      let (kids, (h, m)) = commands-plan x (p + 1) (n + 1) (k ++ (child c u ∷ [])) d cs in
      (
        kids,
        (
          commands-cons all_fork (stage c true) (plan (d ∷ cs)) (at w p n k)
                (at x (p + 1) (n + 1) (k ++ (child c u ∷ []))) q
              ∙ h
              ∙ ap₂ (λ a b. some (at idle a b kids)) (omega arith) (omega arith),
          m
              ∙ ap₂ (λ a b. a ++ wired o (files t) b (p + 1) (d ∷ cs))
                  (map-append seen k (child c u ∷ [])) r
              ∙ append_assoc (map seen k) (seen (child c u) ∷ [])
                  (wired o (files t) (read_end p) (p + 1) (d ∷ cs))
              ∙ ap (λ a. map seen k ++ (a ∷ wired o (files t) (read_end p) (p + 1) (d ∷ cs))) v,
        ),
      )
