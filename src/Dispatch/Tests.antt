-- ===== src/Dispatch/Tests.antt =====
-- A run with two workers, and the theorems at its states.
use sistemi_operativi.Prelude.{
  ℕ, ◌<◌, ◌≡◌, refl, subst, Bool, true, Option, none, some, List, [], ◌∷◌, ◌++◌, arith, length,
  take, flatten, Option-cases, inl, inr, ℕ_discrete,
}
use sistemi_operativi.Prelude.Int.{ℤ, pos, negsuc}
use sistemi_operativi.Dispatch.{
  Token, number, m_scan, w_lock, System, Actor, run_main, run_worker, scan, main_step, worker_step,
  running, step, start, Reach, here, next, printer, printer_list, stampa_list,
}
use sistemi_operativi.Prelude.Count.{count}
use sistemi_operativi.Dispatch.Safety.{printer_complete, stampa_shifted}

run : ℕ → List Actor → System → Option System
run n [] s = some s
run n (a ∷ later) s = elim (step n a s) [ none ↦ none | some t ↦ run n later t ]

run-Reach :
    (n : ℕ) (input : List Token) (turns : List Actor) (s : System) {t : System}
    → Reach n input s
    → run n turns s ≡ some t
    → Reach n input t
unfolding run
run-Reach n input [] s r e = subst (λ o. Reaches o) e r
  where
    Reaches : Option System → Type 0
    Reaches none = Unit
    Reaches (some u) = Reach n input u
run-Reach n input (a ∷ later) s r e = elim (Option-cases (step n a s)) [
  | inl no_step ↦ absurd (let e' = rw (no_step, run) at e in cc)
  | inr (u, moves) ↦ run-Reach n input later u (next a r moves) (rw (moves, run) at e)
]

-- The main thread's steps for one value, and a worker's.
abbrev read_one : List Actor
read_one = run_main ∷ run_main ∷ run_main ∷ []

abbrev store_one : ℕ → List Actor
store_one me = run_worker me ∷ run_worker me ∷ run_worker me ∷ run_worker me ∷ run_worker me ∷ []

abbrev tokens_in : List Token
tokens_in = number (pos 5) ∷ number (negsuc 2) ∷ number (pos 7) ∷ []

-- All three values are stored, two of them by worker 1, and the main thread waits for input.
late : Option System
unfolding run step scan main_step worker_step running ℕ_discrete
late =
    run 2
      (read_one
        ++ (store_one 1
            ++ (read_one ++ (store_one 0 ++ (read_one ++ (store_one 1 ++ (run_main ∷ [])))))))
      (start tokens_in)

get : Option System → System
get none = start []
get (some s) = s

abbrev last : System
last = get late

last-Reach : Reach 2 tokens_in last
unfolding get late
last-Reach =
    run-Reach 2 tokens_in
      (read_one
        ++ (store_one 1
            ++ (read_one ++ (store_one 0 ++ (read_one ++ (store_one 1 ++ (run_main ∷ [])))))))
      (start tokens_in) here refl

abbrev any : ℤ → Bool
any v = true

last-list : (last.lists 1).next ≡ pos 7 ∷ pos 5 ∷ []
unfolding get late
last-list = refl

last-idle : (i : ℕ) → i < 2 → last.workers i ≡ w_lock
unfolding get late
last-idle i h = ground arith

last-main : last.main ≡ m_scan
unfolding get late
last-main = refl

printer_complete_example : count any (flatten (printer 2 last.lists)) ≡ count any last.taken
printer_complete_example = printer_complete last-Reach last-main last-idle any

stampa_shifted_example :
    stampa_list (last.lists 1)
    ≡ take (length (printer_list (last.lists 1))) (negsuc 0 ∷ printer_list (last.lists 1))
stampa_shifted_example = stampa_shifted last-Reach 1
