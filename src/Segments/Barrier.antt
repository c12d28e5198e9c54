-- ===== src/Segments/Barrier.antt =====
-- The wait of `main` of prog-A-solution.c (exam of 18-7-2018) for its children.
use sistemi_operativi.Prelude.{
  ℕ, suc, ◌≤◌, ◌<◌, ◌≡◌, refl, ap, ◌∙◌, true, false, Option, none, some, List, [], ◌∷◌, ◌++◌, arith,
  length,
}
use sistemi_operativi.Segments.{
  Child, Run, going, posted, no_file, fault, child_function, posts, parent_passes,
}
use sistemi_operativi.Segments.Replay.{Fits, child_function-Stored}

-- The children at some rounds, each with its file if it can be opened.
abbrev pub runs : List (ℕ × Option (List ℕ)) → List Run
runs [] = []
runs ((k, file) ∷ children) = child_function k file ∷ runs children

posts-suc : {r : Run} {c : Child} (l : List Run) → r ≡ posted c → posts (r ∷ l) ≡ suc (posts l)
unfolding posts
posts-suc l e = rw e refl

posts-le : (l : List Run) → posts l ≤ length l
unfolding posts
posts-le [] = omega arith
posts-le (going c ∷ l) = omega (arith, posts-le l)
posts-le (posted c ∷ l) = omega (arith, posts-le l)
posts-le (no_file ∷ l) = omega (arith, posts-le l)
posts-le (fault c ∷ l) = omega (arith, posts-le l)

-- A file that fits, and more rounds than it has bytes.
abbrev pub Done : List (ℕ × Option (List ℕ)) → Type 0
Done [] = Unit
Done ((k, none) ∷ children) = ⊥
Done ((k, some bytes) ∷ children) = (Fits k bytes × (length bytes < k)) × Done children

posts-runs :
    (children : List (ℕ × Option (List ℕ)))
    → Done children
    → posts (runs children) ≡ length (runs children)
unfolding posts
posts-runs [] d = refl
posts-runs ((k, none) ∷ children) d = absurd d
posts-runs ((k, some bytes) ∷ children) d =
    posts-suc (runs children) ((child_function-Stored k bytes d.0.0).ended d.0.1)
    ∙ ap suc (posts-runs children d.1)

-- Once each child has done more rounds than its file has bytes, where every file can be opened, has no
-- NUL byte and fits into its segment, the parent goes on behind its `semop`.
pub parent_released :
    (children : List (ℕ × Option (List ℕ))) → Done children → parent_passes (runs children) ≡ true
unfolding parent_passes
parent_released children d = ground (arith, posts-runs children d)

child_function-none : (k : ℕ) → child_function k none ≡ no_file
unfolding child_function
child_function-none k = refl

posts-suc_le : (r : Run) (l : List Run) → posts (r ∷ l) ≤ suc (posts l)
unfolding posts
posts-suc_le (going c) l = omega arith
posts-suc_le (posted c) l = omega arith
posts-suc_le no_file l = omega arith
posts-suc_le (fault c) l = omega arith

posts-missing :
    (before : List (ℕ × Option (List ℕ))) (k : ℕ) (after : List (ℕ × Option (List ℕ)))
    → posts (runs (before ++ ((k, none) ∷ after))) < length (runs (before ++ ((k, none) ∷ after)))
unfolding posts
posts-missing [] k after =
    let e : child_function k none ≡ no_file = child_function-none k in
    rw e (omega (arith, posts-le (runs after)))
posts-missing ((j, none) ∷ before) k after = omega (
  arith,
  posts-suc_le (child_function j none) (runs (before ++ ((k, none) ∷ after))),
  posts-missing before k after,
)
posts-missing ((j, some bytes) ∷ before) k after = omega (
  arith,
  posts-suc_le (child_function j (some bytes)) (runs (before ++ ((k, none) ∷ after))),
  posts-missing before k after,
)

-- If one of the files cannot be opened, the parent never goes on, whatever the children do.
pub parent_stuck :
    (before : List (ℕ × Option (List ℕ))) (k : ℕ) (after : List (ℕ × Option (List ℕ)))
    → parent_passes (runs (before ++ ((k, none) ∷ after))) ≡ false
unfolding parent_passes
parent_stuck before k after = ground (arith, posts-missing before k after)
