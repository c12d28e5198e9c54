-- ===== src/Broadcast/Tests.antt =====
-- A run with two workers, and the theorems at its states.
use sistemi_operativi.Prelude.{
  ℕ, ◌≡◌, ◌≢◌, refl, subst, Option, none, some, List, [], ◌∷◌, ◌++◌, arith, Option-cases, inl, inr,
  ℕ_discrete,
}
use sistemi_operativi.Broadcast.{
  m_scan, w_write, System, Actor, run_main, run_worker, signal, with_nul, scan, main_step,
  take_turn, worker_step, interrupt, running, step, start, Reach, here, next,
}
use sistemi_operativi.Broadcast.Safety.{files_agree}
use sistemi_operativi.Broadcast.Interrupted.{now, interrupted_stuck}

run : ℕ → List Actor → System → Option System
run n [] s = some s
run n (a ∷ later) s = elim (step n a s) [ none ↦ none | some t ↦ run n later t ]

run-Reach :
    (n : ℕ) (input : List (List ℕ)) (turns : List Actor) (s : System) {t : System}
    → Reach n input s
    → run n turns s ≡ some t
    → Reach n input t
unfolding run
run-Reach n input [] s r e = subst (λ o. Reaches o) e r
  where
    Reaches : Option System → Type 0
    Reaches none = Unit
    Reaches (some u) = Reach n input u
run-Reach n input (a ∷ later) s r e = elim (Option-cases (step n a s)) [
  | inl no_step ↦ absurd (let e' = rw (no_step, run) at e in cc)
  | inr (u, moves) ↦ run-Reach n input later u (next a r moves) (rw (moves, run) at e)
]

abbrev words_in : List (List ℕ)
words_in = (97 ∷ 98 ∷ []) ∷ (99 ∷ []) ∷ []

-- The main thread reads a string and posts it to both workers.
abbrev post_one : List Actor
post_one = run_main ∷ run_main ∷ run_main ∷ run_main ∷ run_main ∷ []

abbrev write_one : ℕ → List Actor
write_one me = run_worker me ∷ run_worker me ∷ run_worker me ∷ []

-- Both have written the first string, and worker 0 is about to write the second.
abbrev turns : List Actor
turns = post_one ++ (write_one 1 ++ (write_one 0 ++ (post_one ++ (run_worker 0 ∷ []))))

-- Both have written both strings, and the main thread is before its `scanf`.
abbrev later_turns : List Actor
later_turns =
    post_one
    ++ (write_one 1
        ++ (write_one 0 ++ (post_one ++ (write_one 0 ++ (write_one 1 ++ (run_main ∷ []))))))

early : Option System
unfolding run step scan main_step take_turn worker_step interrupt running ℕ_discrete
early = run 2 turns (start 2 words_in)

late : Option System
unfolding run step scan main_step take_turn worker_step interrupt running ℕ_discrete
late = run 2 later_turns (start 2 words_in)

hit : Option System
unfolding run step scan main_step take_turn worker_step interrupt running ℕ_discrete early
hit = run 2 (turns ++ (signal 0 ∷ [])) (start 2 words_in)

get : Option System → System
get none = start 2 []
get (some s) = s

abbrev middle : System
middle = get early

abbrev last : System
last = get late

abbrev after_signal : System
after_signal = get hit

middle-Reach : Reach 2 words_in middle
unfolding get early
middle-Reach = run-Reach 2 words_in turns (start 2 words_in) here refl

last-Reach : Reach 2 words_in last
unfolding get late
last-Reach = run-Reach 2 words_in later_turns (start 2 words_in) here refl

last-main : last.main ≡ m_scan
unfolding get late
last-main = refl

last-file : last.files 1 ≡ 97 ∷ 98 ∷ 0 ∷ 99 ∷ 0 ∷ []
unfolding get late
last-file = refl

middle-writing : middle.workers 0 ≡ w_write
unfolding get early
middle-writing = refl

middle-hit : step 2 (signal 0) middle ≡ some after_signal
unfolding get early hit step interrupt running
middle-hit = refl

files_agree_example : last.files 1 ≡ last.taken
files_agree_example = files_agree 1 last-Reach last-main (omega arith)

interrupted_stuck_example :
    (after_signal.main ≢ m_scan)
    × (after_signal.files 0 ++ with_nul after_signal.buffer ≡ after_signal.taken)
interrupted_stuck_example =
    interrupted_stuck 0 middle-Reach (omega arith) middle-writing middle-hit now
